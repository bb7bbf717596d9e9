-- ===== src/Verification/Issuing.antt =====
-- What issuing a code does, src/modules/auth/verification.service.ts.
use wh_api_unified_service.Prelude.{
  ◌&&◌, ◌+◌, ◌-◌, ◌<◌, ==_refl, All, Bool, Bool-cases, List, String, [], ap, arith, false, filter,
  inl, inr, leb, length, ltb, or_else, refl, some, str_eq, str_eq_refl, subst, sym, true, ℕ, ◌∙◌,
  ◌∷◌, ◌≡◌, ◌≤◌,
}
use wh_api_unified_service.Verification.{
  Verification, Verifications, count_sent_to_destination_since, create_verification, is_for,
  is_live, kind_number, new_verification, supersede_live, update_rows,
}
use wh_api_unified_service.Verification.Codes.{
  Environment, IssueVerificationInput, PendingOtpDelivery, answered, auth_resend_too_soon,
  create_input, delivery_of, is_within_destination_cap, issue, mint_secret, one_hour_ms, refused,
  replace_live,
}

-- Live for this subject, kind and destination.
abbrev pub competes : IssueVerificationInput → Verification → Bool
competes input v =
    is_for input.identity_id input.customer_id input.verification_kind input.destination v
    && is_live v

none-compete :
    (input : IssueVerificationInput) (now : ℕ) (vs : List Verification)
    → All
        (λ v. competes input v ≡ false)
        (update_rows (competes input) (λ v. record v { superseded_at = some now }) vs)
unfolding update_rows is_for
none-compete input now [] = tt
none-compete input now (v ∷ vs) = elim (Bool-cases (competes input v)) [
  | inl on ↦ rw on (ground arith, none-compete input now vs)
  | inr off ↦ rw off (off, none-compete input now vs)
]

-- Superseding counts as many rows sent as before.
count-same :
    (p : Verification → Bool) (now since : ℕ) (destination : String) (vs : List Verification)
    → length (
        filter
          (λ v. str_eq v.destination destination && leb since v.created_at)
          (update_rows p (λ v. record v { superseded_at = some now }) vs))
      ≡ length (filter (λ v. str_eq v.destination destination && leb since v.created_at) vs)
unfolding update_rows
count-same p now since destination [] = refl
count-same p now since destination (v ∷ vs) =
    let rest = count-same p now since destination vs in
    elim (Bool-cases (p v)) [
      | inl on ↦ elim (Bool-cases (str_eq v.destination destination && leb since v.created_at)) [
        | inl sent ↦ rw (on, sent, rest) refl
        | inr old ↦ rw (on, old, rest) refl
      ]
      | inr off ↦ elim (Bool-cases (str_eq v.destination destination && leb since v.created_at)) [
        | inl sent ↦ rw (off, sent, rest) refl
        | inr old ↦ rw (off, old, rest) refl
      ]
    ]

count-replace :
    (env : Environment) (now since : ℕ) (secret : String) (input : IssueVerificationInput)
    (t : Verifications)
    → count_sent_to_destination_since input.destination since
        (replace_live env now secret input t).0
      ≤ count_sent_to_destination_since input.destination since t + 1
unfolding count_sent_to_destination_since replace_live create_verification supersede_live
    new_verification
count-replace env now since secret input t =
    let same = count-same (competes input) now since input.destination t.rows in
    ground (arith, same)

filter_none :
    (p : Verification → Bool) (vs : List Verification)
    → All (λ v. p v ≡ false) vs
    → filter p vs ≡ []
filter_none p [] h = refl
filter_none p (v ∷ vs) h = rw h.0 (filter_none p vs h.1)

-- The row that an issue creates.
abbrev issued_row : Environment → ℕ → String → IssueVerificationInput → ℕ → Verification
issued_row env now secret input id = new_verification now id (create_input env now secret input)

issued-competes :
    (env : Environment) (now : ℕ) (secret : String) (input : IssueVerificationInput) (id : ℕ)
    → competes input (issued_row env now secret input id) ≡ true
unfolding new_verification is_for
issued-competes env now secret input id =
    rw
      (
        ==_refl (or_else input.identity_id 0),
        ==_refl (or_else input.customer_id 0),
        ==_refl (kind_number input.verification_kind),
        str_eq_refl input.destination,
      )
      refl

one-competes :
    (env : Environment) (now : ℕ) (secret : String) (input : IssueVerificationInput)
    (t : Verifications)
    → filter (competes input) (replace_live env now secret input t).0.rows
      ≡ issued_row env now secret input t.next_id ∷ []
unfolding replace_live create_verification supersede_live
one-competes env now secret input t =
    rw
      (
        issued-competes env now secret input t.next_id,
        filter_none (competes input) _ (none-compete input now t.rows),
      )
      refl

-- Where a code was issued, the cap had room, and the table and the delivery are those of its row.
issued :
    (env : Environment) (now : ℕ) (drawn : String) (input : IssueVerificationInput)
    (t t' : Verifications) (d : PendingOtpDelivery)
    → issue env now drawn input t ≡ (t', answered d)
    → let params = env.verification input.verification_kind in
      let secret = mint_secret env drawn params.secret_shape in
      (count_sent_to_destination_since input.destination (now - one_hour_ms) t
        < params.hourly_destination_cap)
      × ((replace_live env now secret input t).0 ≡ t')
      × (delivery_of env secret input t.next_id ≡ d)
unfolding issue is_within_destination_cap replace_live create_verification new_verification
    supersede_live
issued env now drawn input t t' d h =
    let params = env.verification input.verification_kind in
    let count = count_sent_to_destination_since input.destination (now - one_hour_ms) t in
    let secret = mint_secret env drawn params.secret_shape in
    elim (Bool-cases (ltb count params.hourly_destination_cap)) [
      | inr full ↦
          let no : refused auth_resend_too_soon ≡ answered d = ap (λ y. y.1) (rw full at h) in cc
      | inl room ↦
          let done = rw room at h in
          let sent : answered (delivery_of env secret input t.next_id) ≡ answered d =
            ap (λ y. y.1) done in
          (ground arith, ap (λ y. y.0) done, cc)
    ]

-- After a code was issued, exactly one code is live for its subject, kind and destination: the one that
-- is sent, under the id and with the hash of the secret that the delivery carries, unspent, and good
-- for as long as its kind says. In the hour before, no more codes went to the destination than its cap.
pub issue_leaves_one_live :
    (env : Environment) (now : ℕ) (drawn : String) (input : IssueVerificationInput)
    (t t' : Verifications) (d : PendingOtpDelivery)
    → issue env now drawn input t ≡ (t', answered d)
    → let params = env.verification input.verification_kind in
      ((v : Verification) × (filter (competes input) t'.rows ≡ v ∷ [])
        × (v.id ≡ d.verification_ref_id)
        × (v.secret_hash ≡ env.hash_secret d.otp_code)
        × (v.attempt_count ≡ 0)
        × (v.expires_at ≡ now + params.expiry_ms))
      × (count_sent_to_destination_since input.destination (now - one_hour_ms) t'
          ≤ params.hourly_destination_cap)
unfolding new_verification
issue_leaves_one_live env now drawn input t t' d h =
    let params = env.verification input.verification_kind in
    let secret = mint_secret env drawn params.secret_shape in
    let (room, state, own) = issued env now drawn input t t' d h in
    let le = count-replace env now (now - one_hour_ms) secret input t in
    (
      (
        issued_row env now secret input t.next_id,
        ap (λ u. filter (competes input) u.rows) (sym state) ∙ one-competes env now secret input t,
        ap PendingOtpDelivery.verification_ref_id own,
        ap (λ e. env.hash_secret e.otp_code) own,
        refl,
        refl,
      ),
      subst
          (λ u.
            count_sent_to_destination_since input.destination (now - one_hour_ms) u
            ≤ params.hourly_destination_cap)
          state (omega (arith, room, le)),
    )
