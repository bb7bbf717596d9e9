-- ===== src/Rbac/Conversations/Separation.antt =====
-- What holding a code opens, src/shared/rbac/conversation-permissions.ts.
use wh_api_unified_service.Prelude.{
  ◌&&◌, Bool, Bool-cases, In, In-filter, List, String, [], all, arith, false, includes,
  includes_iff, inl, inr, not, refl, str_eq, str_eq_iff, subst, sym, true, ◌||◌, ◌↔◌, ◌∷◌, ◌≡◌, ◌⊎◌,
}
use wh_api_unified_service.Rbac.Conversations.{
  ConversationAction, ConversationKind, any_permission_for, assign, codes_for, comment_thread,
  dedup, direct_message, kinds, manage, mention, permission_for, reply, review, view, visible_kinds,
}

every_kind : (k : ConversationKind) → In k kinds
every_kind direct_message = inl refl
every_kind comment_thread = inr (inl refl)
every_kind mention = inr (inr (inl refl))
every_kind review = inr (inr (inr (inl refl)))

-- A kind of thread is listed exactly when the code for viewing it is held.
visible_kinds_iff :
    (held : List String) (k : ConversationKind)
    → In k (visible_kinds held) ↔ In (permission_for k view) held
unfolding visible_kinds
visible_kinds_iff held k =
    let both = In-filter (λ j. includes held (permission_for j view)) kinds k in
    let code = includes_iff held (permission_for k view) in
    (λ i. code.0 (both.0 i).1, λ h. both.1 (every_kind k, code.1 h))

In-codes_for :
    (action : ConversationAction) (ks : List ConversationKind) (c : String)
    → In c (codes_for action ks)
      ↔ ((k : ConversationKind) × In k ks × (c ≡ permission_for k action))
unfolding codes_for
In-codes_for action [] c = (λ i. absurd i, λ w. absurd w.1)
In-codes_for action (k ∷ ks) c = (
  λ i. elim i [
    | inl e ↦ (k, inl refl, e)
    | inr j ↦ let (k', i', e) = (In-codes_for action ks c).0 j in (k', inr i', e)
  ],
  λ w. elim w.1 [
    | inl e ↦ inl (subst (λ j. c ≡ permission_for j action) e w.2)
    | inr j ↦ inr ((In-codes_for action ks c).1 (w.0, j, w.2))
  ],
)

-- Dropping repeats loses no code but those seen before, and invents none.
dedup_new :
    (seen xs : List String) (x : String)
    → includes seen x ≡ false
    → dedup seen (x ∷ xs) ≡ x ∷ dedup (x ∷ seen) xs
unfolding dedup
dedup_new seen xs x e = rw (e, dedup)

dedup_old :
    (seen xs : List String) (x : String)
    → includes seen x ≡ true
    → dedup seen (x ∷ xs) ≡ dedup seen xs
unfolding dedup
dedup_old seen xs x e = rw (e, dedup)

dedup-In_from : (seen xs : List String) (c : String) → In c (dedup seen xs) → In c xs
dedup-In_from seen [] c i = unfold dedup in i
dedup-In_from seen (x ∷ xs) c i = elim (Bool-cases (includes seen x)) [
  | inl e ↦ inr (dedup-In_from seen xs c (subst (In c) (dedup_old seen xs x e) i))
  | inr e ↦ elim (subst (In c) (dedup_new seen xs x e) i) [
    | inl now ↦ inl now
    | inr later ↦ inr (dedup-In_from (x ∷ seen) xs c later)
  ]
]

dedup-In_to : (seen xs : List String) (c : String) → In c xs → In c seen ⊎ In c (dedup seen xs)
dedup-In_to seen [] c i = absurd i
dedup-In_to seen (x ∷ xs) c i = elim (Bool-cases (includes seen x)) [
  | inl e ↦ rw (dedup_old seen xs x e) (elim i [
    | inl now ↦ inl (subst (λ y. In y seen) (sym now) ((includes_iff seen x).0 e))
    | inr later ↦ dedup-In_to seen xs c later
  ])
  | inr e ↦ rw (dedup_new seen xs x e) (elim i [
    | inl now ↦ inr (inl now)
    | inr later ↦ elim (dedup-In_to (x ∷ seen) xs c later) [
      | inl before ↦ elim before [ inl now ↦ inr (inl now) | inr old ↦ inl old ]
      | inr after ↦ inr (inr after)
    ]
  ])
]

-- The route's set is right: it lets through exactly those who hold the code of some kind.
pub any_permission_for_iff :
    (held : List String) (action : ConversationAction)
    → ((c : String) × In c (any_permission_for action) × In c held)
      ↔ ((k : ConversationKind) × In (permission_for k action) held)
unfolding any_permission_for
any_permission_for_iff held action = (
  λ w.
      let (k, i, e) =
        (In-codes_for action kinds w.0).0 (dedup-In_from [] (codes_for action kinds) w.0 w.1) in
      (k, subst (λ c. In c held) e w.2),
  λ w.
      let code = permission_for w.0 action in
      let listed = (In-codes_for action kinds code).1 (w.0, every_kind w.0, refl) in
      elim (dedup-In_to [] (codes_for action kinds) code listed) [
        | inl impossible ↦ absurd impossible
        | inr kept ↦ (code, kept, w.1)
      ],
)

abbrev actions : List ConversationAction
actions = view ∷ reply ∷ assign ∷ manage ∷ []

every_action : (a : ConversationAction) → In a actions
every_action view = inl refl
every_action reply = inr (inl refl)
every_action assign = inr (inr (inl refl))
every_action manage = inr (inr (inr (inl refl)))

abbrev same_action : ConversationAction → ConversationAction → Bool
same_action view view = true
same_action reply reply = true
same_action assign assign = true
same_action manage manage = true
same_action _ _ = false

-- A review is governed as a direct message is.
abbrev pub family : ConversationKind → ConversationKind
family review = direct_message
family k = k

abbrev same_kind : ConversationKind → ConversationKind → Bool
same_kind direct_message direct_message = true
same_kind comment_thread comment_thread = true
same_kind mention mention = true
same_kind review review = true
same_kind _ _ = false

all_sound :
    {A : Type 0} (p : A → Bool) (xs : List A) (a : A) → all p xs ≡ true → In a xs → p a ≡ true
all_sound p [] a h i = absurd i
all_sound p (x ∷ xs) a h (inl e) = subst (λ y. p y ≡ true) (sym e) (ground arith)
all_sound p (x ∷ xs) a h (inr i) = all_sound p xs a (ground arith) i

-- One pair of entries of the table: equal codes come from the same action on the same family.
abbrev told_apart :
    ConversationKind → ConversationAction → ConversationKind → ConversationAction → Bool
told_apart j a k b =
    not (str_eq (permission_for j a) (permission_for k b))
    || (same_kind (family j) (family k) && same_action a b)

abbrev by_action : ConversationKind → ConversationAction → ConversationKind → Bool
by_action j a k = all (told_apart j a k) actions

abbrev by_kind : ConversationKind → ConversationAction → Bool
by_kind j a = all (by_action j a) kinds

abbrev by_row : ConversationKind → Bool
by_row j = all (by_kind j) actions

table : all by_row kinds ≡ true
unfolding permission_for str_eq
table = refl

same_action_eq :
    (j k : ConversationKind) (a b : ConversationAction)
    → str_eq (permission_for j a) (permission_for k b) ≡ true
    → told_apart j a k b ≡ true
    → a ≡ b
same_action_eq j k a b e h = ground arith

same_family_eq :
    (j k : ConversationKind) (a b : ConversationAction)
    → str_eq (permission_for j a) (permission_for k b) ≡ true
    → told_apart j a k b ≡ true
    → family j ≡ family k
same_family_eq j k a b e h = ground arith

-- No code opens two kinds of thread or two actions, but that a review is governed by the codes of
-- direct messages.
pub codes_are_separate :
    (j k : ConversationKind) (a b : ConversationAction)
    → permission_for j a ≡ permission_for k b
    → (family j ≡ family k) × (a ≡ b)
codes_are_separate j k a b e =
    let at_j = all_sound by_row kinds j table (every_kind j) in
    let at_a = all_sound (by_kind j) actions a at_j (every_action a) in
    let at_k = all_sound (by_action j a) kinds k at_a (every_kind k) in
    let apart = all_sound (told_apart j a k) actions b at_k (every_action b) in
    let same = (str_eq_iff (permission_for j a) (permission_for k b)).1 e in
    (same_family_eq j k a b same apart, same_action_eq j k a b same apart)
