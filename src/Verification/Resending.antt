-- ===== src/Verification/Resending.antt =====
-- When a request to resend is refused, src/modules/auth/verification.service.ts.
use wh_api_unified_service.Prelude.{
  ◌&&◌, ◌+◌, ◌-◌, All, All-In, All-imp, Bool, Bool-cases, In, In-filter, List, Option, Option-cases,
  String, [], all, ap, arith, false, filter, if◌then◌else◌, inl, inr, insert_sorted, leb, ltb, none,
  refl, some, sort, str_eq, str_eq_iff, subst, sym, true, ℕ, ◌↔◌, ◌∙◌, ◌∷◌, ◌≡◌, ◌≢◌, ◌≤◌,
}
use wh_api_unified_service.Verification.{
  Verification, VerificationKind, Verifications, by_newest, count_sent_to_destination_since,
  find_live_by_destination, first_row, is_live, is_of_kind, kind_number,
}
use wh_api_unified_service.Verification.Codes.{
  Environment, ResendInput, VerificationError, answered, auth_resend_too_soon,
  is_within_destination_cap, issue, one_hour_ms, refused, resend,
}

-- A live code of this kind for this destination.
abbrev pub IsLiveFor : String → VerificationKind → Verification → Type 0
IsLiveFor destination kind v =
    (v.destination ≡ destination)
    × (kind_number v.verification_kind ≡ kind_number kind)
    × (v.consumed_at ≡ none)
    × (v.superseded_at ≡ none)
    × (v.is_deleted ≡ false)

-- The newest of them.
pub record IsNewestLive (destination : String) (kind : VerificationKind) (t : Verifications)
    (v : Verification) : Type 0 where
  pub there : In v t.rows
  pub live : IsLiveFor destination kind v
  pub newest : (w : Verification) → In w t.rows → IsLiveFor destination kind w → w.id ≤ v.id

abbrev pub HaveUniqueIds : Verifications → Type 0
HaveUniqueIds t = (a b : Verification) → In a t.rows → In b t.rows → a.id ≡ b.id → a ≡ b

abbrev is_live_for : String → VerificationKind → Verification → Bool
is_live_for destination kind v = str_eq v.destination destination && is_of_kind kind v && is_live v

is_live_for_iff :
    (destination : String) (kind : VerificationKind) (v : Verification)
    → (is_live_for destination kind v ≡ true) ↔ IsLiveFor destination kind v
is_live_for_iff destination kind v = ground (arith, str_eq_iff v.destination destination)

newer : Verification → Option Verification → Option Verification
newer v none = some v
newer v (some w) = if leb w.id v.id then some v else some w

newest : List Verification → Option Verification
newest [] = none
newest (v ∷ vs) = newer v (newest vs)

first_row-insert_sorted :
    (v : Verification) (vs : List Verification)
    → first_row (insert_sorted by_newest v vs) ≡ newer v (first_row vs)
unfolding insert_sorted newer
first_row-insert_sorted v [] = refl
first_row-insert_sorted v (w ∷ vs) = elim (Bool-cases (leb w.id v.id)) [
  | inl on ↦ rw on refl
  | inr off ↦ rw off refl
]

first_row-sort : (vs : List Verification) → first_row (sort by_newest vs) ≡ newest vs
unfolding sort newest
first_row-sort [] = refl
first_row-sort (v ∷ vs) =
    first_row-insert_sorted v (sort by_newest vs) ∙ ap (newer v) (first_row-sort vs)

none_newest : (P : Verification → Type 0) (vs : List Verification) → newest vs ≡ none → All P vs
unfolding newest newer
none_newest P [] h = tt
none_newest P (v ∷ vs) h = elim (Option-cases (newest vs)) [
  | inl gone ↦ cc
  | inr (w, found) ↦ elim (Bool-cases (leb w.id v.id)) [ inl on ↦ cc | inr off ↦ cc ]
]

newest_top :
    (vs : List Verification) (v : Verification)
    → newest vs ≡ some v
    → In v vs × All (λ w. w.id ≤ v.id) vs
unfolding newest newer
newest_top [] v h = cc
newest_top (x ∷ vs) v h = elim (Option-cases (newest vs)) [
  | inl gone ↦
      let same : x ≡ v = cc in
      (inl (sym same), (omega (arith, ap Verification.id same), none_newest _ vs gone))
  | inr (w, found) ↦
      let (j, all) = newest_top vs w found in
      elim (Bool-cases (leb w.id x.id)) [
        | inl on ↦
            let same : x ≡ v = cc in
            let id = ap Verification.id same in
            let below : w.id ≤ x.id = ground arith in
            (
              inl (sym same),
              (
                omega (arith, id),
                All-imp (λ a. a.id ≤ w.id) (λ a. a.id ≤ v.id) (λ a le. omega (arith, le, below, id))
                    vs all,
              ),
            )
        | inr off ↦
            let same : w ≡ v = cc in
            let above : x.id ≤ w.id = ground arith in
            (
              inr (subst (λ a. In a vs) same j),
              (
                omega (arith, above, ap Verification.id same),
                subst (λ y. All (λ a. a.id ≤ y.id) vs) same all,
              ),
            )
      ]
]

-- What the look-up finds is the newest live code.
found_is_newest :
    (destination : String) (kind : VerificationKind) (t : Verifications) (v : Verification)
    → find_live_by_destination destination kind t ≡ some v
    → IsNewestLive destination kind t v
unfolding find_live_by_destination
found_is_newest destination kind t v found =
    let p = is_live_for destination kind in
    let (j, all) =
      newest_top (filter p t.rows) v (sym (first_row-sort (filter p t.rows)) ∙ found) in
    let (there, on) = (In-filter p t.rows v).0 j in
    record {
      there = there;
      live = (is_live_for_iff destination kind v).0 on;
      newest = λ w k live.
          All-In (λ a. a.id ≤ v.id) (filter p t.rows) w all
            ((In-filter p t.rows w).1 (k, (is_live_for_iff destination kind w).1 live));
    }

-- Where a live code is, the look-up finds one.
live_is_found :
    (destination : String) (kind : VerificationKind) (t : Verifications) (v : Verification)
    → In v t.rows
    → IsLiveFor destination kind v
    → find_live_by_destination destination kind t ≢ none
unfolding find_live_by_destination
live_is_found destination kind t v j live gone =
    let p = is_live_for destination kind in
    All-In (λ a. ⊥) (filter p t.rows) v
      (none_newest (λ a. ⊥) (filter p t.rows) (sym (first_row-sort (filter p t.rows)) ∙ gone))
      ((In-filter p t.rows v).1 (j, (is_live_for_iff destination kind v).1 live))

newest_is_found :
    (destination : String) (kind : VerificationKind) (t : Verifications) (v : Verification)
    → HaveUniqueIds t
    → IsNewestLive destination kind t v
    → find_live_by_destination destination kind t ≡ some v
newest_is_found destination kind t v unique h =
    elim (Option-cases (find_live_by_destination destination kind t)) [
      | inl gone ↦ absurd (live_is_found destination kind t v h.there h.live gone)
      | inr (w, found) ↦
          let other = found_is_newest destination kind t w found in
          let low = h.newest w other.there other.live in
          let high = other.newest v h.there h.live in
          found ∙ ap some (unique w v other.there h.there (omega (arith, low, high)))
    ]

-- A request to resend tells an address that was sent a code from one that was not: it is refused, by
-- an error of its own, exactly where a live code of the kind exists for the address, the cooldown of
-- the newest such code is over, and the codes of the last hour fill the cap; any address without a live
-- code gets no error. (Of a table whose ids are unique.)
pub resend_tells_the_invited :
    (env : Environment) (now : ℕ) (drawn : String) (input : ResendInput) (t : Verifications)
    → HaveUniqueIds t
    → let params = env.verification input.verification_kind in
      ((e : VerificationError) × ((resend env now drawn input t).1 ≡ refused e)) ↔ (
        (v : Verification) × IsNewestLive input.destination input.verification_kind t v
        × (v.last_sent_at + params.resend_cooldown_ms ≤ now)
        × (params.hourly_destination_cap
            ≤ count_sent_to_destination_since input.destination (now - one_hour_ms) t))
unfolding resend issue is_within_destination_cap
resend_tells_the_invited env now drawn input t unique =
    let params = env.verification input.verification_kind in
    let count = count_sent_to_destination_since input.destination (now - one_hour_ms) t in
    let find = find_live_by_destination input.destination input.verification_kind t in
    (
      λ r. elim (Option-cases find) [
        | inl gone ↦ let no : answered none ≡ refused r.0 = rw gone at r.1 in cc
        | inr (v, found) ↦
            elim (Bool-cases (ltb now (v.last_sent_at + params.resend_cooldown_ms))) [
              | inl early ↦ let no : answered none ≡ refused r.0 = rw (found, early) at r.1 in cc
              | inr over ↦ elim (Bool-cases (ltb count params.hourly_destination_cap)) [
                | inl room ↦ let no = rw (found, over, room) at r.1 in cc
                | inr full ↦ (v, found_is_newest _ _ t v found, ground arith, ground arith)
              ]
            ]
      ],
      λ q.
          let (v, new, over, full) = q in
          let found = newest_is_found _ _ t v unique new in
          let late : ltb now (v.last_sent_at + params.resend_cooldown_ms) ≡ false = ground arith in
          let shut : ltb count params.hourly_destination_cap ≡ false = ground arith in
          (auth_resend_too_soon, rw (found, late, shut) refl),
    )
