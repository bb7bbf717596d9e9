-- ===== src/Sessions/Newest.antt =====
-- The newest sessions stay, src/modules/auth/auth.service.ts.
use wh_api_unified_service.Prelude.{
  ◌+◌, ◌<◌, ==_refl, All, All-In, Bool, Bool-cases, In, In-filter, In-sort, List, [], ap, arith,
  false, filter, inl, inr, insert_sorted, length, ltb, not, refl, some, sort, str_eq_refl, suc,
  true, zero, ℕ, ◌∙◌, ◌∷◌, ◌≡◌, ◌≤◌,
}
use wh_api_unified_service.Sessions.{
  CreateSessionInput, Session, Sessions, beyond_newest, create_session, drop,
  find_live_by_token_hash, is_among, is_live_of, issue_session, new_session, newer,
  revoke_beyond_newest, revoke_where,
}

abbrev count : (Session → Bool) → List Session → ℕ
count q ss = length (filter q ss)

module _ (q : Session → Bool) where
  count-insert :
      (le : Session → Session → Bool) (s : Session) (ss : List Session)
      → count q (insert_sorted le s ss) ≡ count q (s ∷ ss)
  unfolding insert_sorted
  count-insert le s [] = refl
  count-insert le s (x ∷ xs) = elim (Bool-cases (le s x)) [
    | inl first ↦ rw first refl
    | inr later ↦ let rest = count-insert le s xs in ground (arith, rest)
  ]

  count-sort :
      (le : Session → Session → Bool) (ss : List Session) → count q (sort le ss) ≡ count q ss
  unfolding sort
  count-sort le [] = refl
  count-sort le (s ∷ ss) =
      let rest = count-sort le ss in count-insert le s (sort le ss) ∙ ground (arith, rest)

  -- Of a list, no more pass a test than the first k and those of the rest that pass it.
  count-drop : (k : ℕ) (ss : List Session) → count q ss ≤ k + count q (drop k ss)
  count-drop zero ss = omega arith
  count-drop (suc k) [] = omega arith
  count-drop (suc k) (s ∷ ss) = ground (arith, count-drop k ss)

  count-zero : (ss : List Session) → All (λ s. q s ≡ false) ss → count q ss ≡ 0
  count-zero [] h = refl
  count-zero (s ∷ ss) h = rw (h.0, count-zero ss h.1) refl

among_self : (o : Session) (os : List Session) → In o os → is_among os o ≡ true
among_self o [] i = absurd i
among_self o (x ∷ xs) (inl e) = rw e (ground arith)
among_self o (x ∷ xs) (inr i) = ground (arith, among_self o xs i)

All-each : (P : Session → Type 0) (ss : List Session) → ((s : Session) → In s ss → P s) → All P ss
All-each P [] f = tt
All-each P (s ∷ ss) f = (f s (inl refl), All-each P ss (λ x i. f x (inr i)))

-- A row of the identity is live after a revocation when it was live and was not meant.
count-revoke :
    (now identity : ℕ) (p : Session → Bool) (ss : List Session)
    → count (is_live_of now identity) (revoke_where now p ss)
      ≡ count (λ s. not (p s)) (filter (is_live_of now identity) ss)
unfolding revoke_where
count-revoke now identity p [] = refl
count-revoke now identity p (s ∷ ss) =
    let rest = count-revoke now identity p ss in
    elim (Bool-cases (p s)) [
      | inl on ↦ elim (Bool-cases (is_live_of now identity s)) [
        | inl live ↦ rw (on, live, on) (ground (arith, rest))
        | inr dead ↦ rw (on, dead) (ground (arith, rest))
      ]
      | inr off ↦ elim (Bool-cases (is_live_of now identity s)) [
        | inl live ↦ rw (off, live, off) (ap suc rest)
        | inr dead ↦ rw (off, dead) rest
      ]
    ]

abbrev pub live_sessions : ℕ → ℕ → Sessions → ℕ
live_sessions now identity t = length (filter (is_live_of now identity) t.rows)

pub revoke_beyond_newest-le :
    (now identity keep : ℕ) (t : Sessions)
    → live_sessions now identity (revoke_beyond_newest now identity keep t) ≤ keep
unfolding revoke_beyond_newest beyond_newest
revoke_beyond_newest-le now identity keep t =
    let live = filter (is_live_of now identity) t.rows in
    let sorted = sort newer live in
    let gone = drop keep sorted in
    let q : Session → Bool = λ s. not (is_among gone s) in
    let whole = count-revoke now identity (is_among gone) t.rows in
    let same = count-sort q newer live in
    let split = count-drop q keep sorted in
    let none_left =
      count-zero q gone (All-each (λ s. q s ≡ false) gone (λ s i. ap not (among_self s gone i))) in
    omega (arith, whole, same, split, none_left)

-- A row that stands before all others stays in front.
insert-front :
    (s : Session) (ss : List Session)
    → All (λ x. newer s x ≡ true) ss
    → insert_sorted newer s ss ≡ s ∷ ss
unfolding insert_sorted
insert-front s [] h = refl
insert-front s (x ∷ xs) h = rw h.0 refl

among_other : (s : Session) (os : List Session) → All (λ o. o.id < s.id) os → is_among os s ≡ false
among_other s [] h = refl
among_other s (o ∷ os) h =
    let low = h.0 in let rest = among_other s os h.1 in ground (arith, low, rest)

In-drop : (k : ℕ) (ss : List Session) (s : Session) → In s (drop k ss) → In s ss
In-drop zero ss s i = i
In-drop (suc k) [] s i = absurd i
In-drop (suc k) (x ∷ xs) s i = inr (In-drop k xs s i)

-- Earlier and with a lower id than a session to come.
abbrev pub IsEarlier : ℕ → ℕ → Session → Type 0
IsEarlier now id s = (s.created_at ≤ now) × (s.id < id)

-- Signing in leaves no more than ten live sessions of the person, and the session that was opened is one
-- of them: it is found by its token, if it ends after now and the sessions before it are no younger and
-- have lower ids.
pub issue_session_lem :
    (now : ℕ) (input : CreateSessionInput) (t : Sessions)
    → All (IsEarlier now t.next_id) t.rows
    → now < input.expires_at
    → (live_sessions now input.identity_id (issue_session now input t) ≤ 10)
      × (find_live_by_token_hash now input.refresh_token_hash (issue_session now input t)
          ≡ some (new_session now t.next_id input))
unfolding issue_session create_session new_session find_live_by_token_hash revoke_beyond_newest
    beyond_newest revoke_where sort
issue_session_lem now input t earlier valid =
    let s = new_session now t.next_id input in
    let t' = create_session now input t in
    let live = filter (is_live_of now input.identity_id) t.rows in
    let old : (x : Session) → In x (sort newer live) → IsEarlier now t.next_id x = λ x i.
      All-In (IsEarlier now t.next_id) t.rows x earlier
        ((In-filter (is_live_of now input.identity_id) t.rows x).0
          ((In-sort newer live x).0 i)).0 in
    let front : insert_sorted newer s (sort newer live) ≡ s ∷ sort newer live =
      insert-front s (sort newer live) (
        All-each (λ x. newer s x ≡ true) (sort newer live)
          (λ x i. let (le, lt) = old x i in ground arith)) in
    let stays : is_among (drop 9 (sort newer live)) s ≡ false =
      among_other s (drop 9 (sort newer live)) (
        All-each (λ x. x.id < t.next_id) (drop 9 (sort newer live))
          (λ x i. (old x (In-drop 9 (sort newer live) x i)).1)) in
    let own = ==_refl input.identity_id in
    let hash = str_eq_refl input.refresh_token_hash in
    let in_time : ltb now input.expires_at ≡ true = ground arith in
    (
      revoke_beyond_newest-le now input.identity_id 10 t',
      rw (own, in_time, front, stays, hash, in_time) refl,
    )
