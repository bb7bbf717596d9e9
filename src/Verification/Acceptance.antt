-- ===== src/Verification/Acceptance.antt =====
-- A code is accepted once, src/modules/auth/verification.service.ts.
use wh_api_unified_service.Prelude.{
  ◌<◌, ◌==◌, All, All-In, All-imp, Bool, Bool-cases, In, List, Option, Option-cases, String, [], ap,
  arith, false, filter, if◌then◌else◌, inl, inr, leb, length, none, refl, some, subst, sym, true, ℕ,
  ◌∷◌, ◌≡◌,
}
use wh_api_unified_service.Verification.{
  Verification, VerificationKind, Verifications, consume, find_live_by_ref_id, first_row,
  is_unsettled, may_consume, spend_attempt, update_rows,
}
use wh_api_unified_service.Verification.Codes.{
  Answer, Environment, VerifiedSubject, after_consume, answered, auth_code_already_used,
  auth_code_attempts_exceeded, auth_code_expired, auth_code_invalid, compare_secret, refused,
  verification_not_found, verify, verify_row, verify_secret,
}
use wh_api_unified_service.Verification.Runs.{Change-Hold, Hold, Keeping, Run, Run-Hold, spent}

abbrev IsSettled : Verification → Type 0
IsSettled v = is_unsettled v ≡ false

IsSettled-Keeping : Keeping IsSettled
IsSettled-Keeping = record {
  supersedes = λ v now h. ground arith;
  spends = λ v h. h;
  consumes = λ v now h. refl;
  resends = λ v now h. h;
  links = λ v event h. h;
}

settles :
    (now id : ℕ) (vs : List Verification)
    → All
        (λ v. v.id ≡ id → IsSettled v)
        (update_rows (may_consume id) (λ v. record v { consumed_at = some now }) vs)
unfolding update_rows
settles now id [] = tt
settles now id (v ∷ vs) = elim (Bool-cases (may_consume id v)) [
  | inl on ↦ rw on (λ e. refl, settles now id vs)
  | inr off ↦ rw off (λ e. ground arith, settles now id vs)
]

consume-Hold :
    (now id : ℕ) (t : Verifications) → id < t.next_id → Hold id IsSettled (consume now id t).0
unfolding consume
consume-Hold now id t given = record { rows = settles now id t.rows; given = given }

-- Nothing passes a test that each row fails.
filter-none :
    (p : Verification → Bool) (vs : List Verification)
    → All (λ v. p v ≡ false) vs
    → filter p vs ≡ []
filter-none p [] h = refl
filter-none p (v ∷ vs) h = rw (h.0, filter-none p vs h.1) refl

settled-gone :
    (id : ℕ) (kind : VerificationKind) (t : Verifications)
    → Hold id IsSettled t
    → find_live_by_ref_id id kind t ≡ none
unfolding find_live_by_ref_id
settled-gone id kind t h = ap first_row (
    filter-none _ t.rows
      (All-imp (λ v. v.id ≡ id → IsSettled v) _ (λ v k. ground arith) t.rows h.rows))

settled-not_consumed :
    (now id : ℕ) (t : Verifications) → Hold id IsSettled t → (consume now id t).1 ≡ false
unfolding consume
settled-not_consumed now id t h =
    ap (λ vs. length vs == 1)
      (filter-none _ t.rows
        (All-imp (λ v. v.id ≡ id → IsSettled v) _ (λ v k. ground arith) t.rows h.rows))

after_consume-answered :
    (v : Verification) (r : Verifications × Bool) (t : Verifications) (x : VerifiedSubject)
    → after_consume v r ≡ (t, answered x)
    → t ≡ r.0
after_consume-answered v (u, true) t x h = sym (ap (λ y. y.0) h)
after_consume-answered v (u, false) t x h =
    let no : refused auth_code_already_used ≡ answered x = ap (λ y. y.1) h in cc

compare_secret-answered :
    (env : Environment) (now : ℕ) (submitted : String) (v : Verification)
    (r : Verifications × Option ℕ) (t : Verifications) (x : VerifiedSubject)
    → compare_secret env now submitted v r ≡ (t, answered x)
    → t ≡ (consume now v.id r.0).0
unfolding compare_secret
compare_secret-answered env now submitted v (u, none) t x h =
    let no : refused auth_code_attempts_exceeded ≡ answered x = ap (λ y. y.1) h in cc
compare_secret-answered env now submitted v (u, some n) t x h =
    elim (Bool-cases (verify_secret env v.secret_hash submitted)) [
      | inl right ↦ after_consume-answered v (consume now v.id u) t x (rw right at h)
      | inr wrong ↦
          let no : refused
                (if leb v.max_attempts n then auth_code_attempts_exceeded else auth_code_invalid)
              ≡ answered x =
            ap (λ y. y.1) (rw wrong at h) in
          cc
    ]

verify_row-answered :
    (env : Environment) (now : ℕ) (submitted : String) (v : Verification) (t t' : Verifications)
    (x : VerifiedSubject)
    → verify_row env now submitted v t ≡ (t', answered x)
    → t' ≡ (consume now v.id (spend_attempt v.id t).0).0
unfolding verify_row
verify_row-answered env now submitted v t t' x h = elim (Bool-cases (leb v.expires_at now)) [
  | inl late ↦ let no : refused auth_code_expired ≡ answered x = ap (λ y. y.1) (rw late at h) in cc
  | inr early ↦
      compare_secret-answered env now submitted v (spend_attempt v.id t) t' x (rw early at h)
]

pub first_row-filter :
    (p : Verification → Bool) (vs : List Verification) (v : Verification)
    → first_row (filter p vs) ≡ some v
    → In v vs × (p v ≡ true)
first_row-filter p [] v h = cc
first_row-filter p (w ∷ vs) v h = elim (Bool-cases (p w)) [
  | inl on ↦ let same : w ≡ v = cc in (inl (sym same), subst (λ y. p y ≡ true) same on)
  | inr off ↦ let (i, on) = first_row-filter p vs v (rw off at h) in (inr i, on)
]

-- What came back: a subject, or one of the errors.
abbrev pub is_answered : Answer VerifiedSubject → Bool
is_answered (refused e) = false
is_answered (answered x) = true

after_consume-lost :
    (v : Verification) (r : Verifications × Bool)
    → r.1 ≡ false
    → is_answered (after_consume v r).1 ≡ false
after_consume-lost v (t, true) h = h
after_consume-lost v (t, false) h = refl

compare_secret-lost :
    (env : Environment) (now : ℕ) (submitted : String) (v : Verification)
    (r : Verifications × Option ℕ)
    → (consume now v.id r.0).1 ≡ false
    → is_answered (compare_secret env now submitted v r).1 ≡ false
unfolding compare_secret
compare_secret-lost env now submitted v (u, none) h = refl
compare_secret-lost env now submitted v (u, some n) h =
    elim (Bool-cases (verify_secret env v.secret_hash submitted)) [
      | inl right ↦ rw right (after_consume-lost v (consume now v.id u) h)
      | inr wrong ↦ rw wrong refl
    ]

verify_row-lost :
    (env : Environment) (now : ℕ) (submitted : String) (v : Verification) (t : Verifications)
    → Hold v.id IsSettled t
    → is_answered (verify_row env now submitted v t).1 ≡ false
unfolding verify_row
verify_row-lost env now submitted v t h = elim (Bool-cases (leb v.expires_at now)) [
  | inl late ↦ rw late refl
  | inr early ↦ rw early (
      compare_secret-lost env now submitted v (spend_attempt v.id t) (
        settled-not_consumed now v.id (spend_attempt v.id t).0
          (Change-Hold v.id IsSettled IsSettled-Keeping (spent v.id) h)))
]

-- A code is accepted once. After a verification that was answered, and whatever statements follow by
-- anybody, the reference is not found any more, with whatever secret and at whatever time; and a request
-- that had read the row before, with a secret of its own, is not answered either. (The ids in the table
-- are below the next one.)
pub accepted_once :
    (env : Environment) (now ref : ℕ) (submitted : String) (kind : VerificationKind)
    (t t' u : Verifications) (subject : VerifiedSubject) (env' : Environment) (now' : ℕ)
    (submitted' : String) (kind' : VerificationKind) (read : Verification)
    → All (λ v. v.id < t.next_id) t.rows
    → verify env now ref submitted kind t ≡ (t', answered subject)
    → Run t' u
    → read.id ≡ ref
    → (verify env' now' ref submitted' kind' u ≡ (u, refused verification_not_found))
      × (is_answered (verify_row env' now' submitted' read u).1 ≡ false)
unfolding verify find_live_by_ref_id spend_attempt
accepted_once env now ref submitted kind t t' u subject env' now' submitted' kind' read below h run
      same =
    elim (Option-cases (find_live_by_ref_id ref kind t)) [
      | inl missing ↦
          let no : refused verification_not_found ≡ answered subject =
            ap (λ y. y.1) (rw missing at h) in
          cc
      | inr (v, found) ↦
          let (i, live) = first_row-filter _ t.rows v found in
          let own : v.id ≡ ref = ground arith in
          let given : v.id < t.next_id = All-In (λ w. w.id < t.next_id) t.rows v below i in
          let state = verify_row-answered env now submitted v t t' subject (rw found at h) in
          let settled : Hold v.id IsSettled u = Run-Hold v.id IsSettled IsSettled-Keeping run (
            subst (Hold v.id IsSettled) (sym state)
              (consume-Hold now v.id (spend_attempt v.id t).0 given)) in
          let gone : Hold ref IsSettled u = subst (λ i. Hold i IsSettled u) own settled in
          (
            rw (settled-gone ref kind' u gone) refl,
            verify_row-lost env' now' submitted' read u
                (subst (λ i. Hold i IsSettled u) (sym same) gone),
          )
    ]
