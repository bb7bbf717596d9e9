-- ===== src/Verification/Guesses.antt =====
-- How often a secret can be guessed, src/modules/auth/verification.service.ts.
use wh_api_unified_service.Prelude.{
  ◌&&◌, ◌+◌, ◌-◌, ◌<◌, ◌==◌, All, All-In, All-imp, Bool, Bool-cases, List, Option, Option-cases,
  String, [], arith, false, false≢true, filter, if◌then◌else◌, inl, inr, leb, none, refl, some,
  subst, sym, true, ℕ, ◌∷◌, ◌≡◌, ◌≤◌,
}
use wh_api_unified_service.Verification.{
  Verification, Verifications, first_row, may_spend, spend_attempt, update_rows,
}
use wh_api_unified_service.Verification.Acceptance.{first_row-filter}
use wh_api_unified_service.Verification.Codes.{
  Answer, Environment, VerifiedSubject, answered, auth_code_already_used, auth_code_invalid,
  compare_secret, refused, verify_row,
}
use wh_api_unified_service.Verification.Runs.{
  Change, Change-Hold, Hold, Keeping, Run-Hold, compare_secret-Run, verify_row-Run,
}

-- At most so many attempts are left.
abbrev pub HasLeft : ℕ → Verification → Type 0
HasLeft k v = v.max_attempts ≤ v.attempt_count + k

HasLeft-Keeping : (k : ℕ) → Keeping (HasLeft k)
HasLeft-Keeping k = record {
  supersedes = λ v now h. h;
  spends = λ v h. omega (arith, h);
  consumes = λ v now h. h;
  resends = λ v now h. h;
  links = λ v event h. h;
}

-- The answer depends on the secret.
abbrev pub tells : Answer VerifiedSubject → Bool
tells (answered x) = true
tells (refused auth_code_invalid) = true
tells (refused auth_code_already_used) = true
tells (refused e) = false

-- Requests that verify, with rows that they read at any time before, and any other statements between
-- them; and how often an answer on the one row depended on the secret.
pub data Tries (id : ℕ) (t : Verifications) : Verifications → ℕ → Type 0 where
  untried : Tries id t t 0
  meanwhile : {u w : Verifications} {n : ℕ} → Tries id t u n → Change u w → Tries id t w n
  tried :
      {u : Verifications} {n : ℕ} (env : Environment) (now : ℕ) (submitted : String)
      (v : Verification)
      → Tries id t u n
      → Tries id t
          (verify_row env now submitted v u).0
          (if (v.id == id) && tells (verify_row env now submitted v u).1 then n + 1 else n)

spends-lower :
    (id k : ℕ) (vs : List Verification)
    → All (λ v. v.id ≡ id → HasLeft (k + 1) v) vs
    → All
        (λ v. v.id ≡ id → HasLeft k v)
        (update_rows (may_spend id) (λ v. record v { attempt_count = v.attempt_count + 1 }) vs)
unfolding update_rows
spends-lower id k [] h = tt
spends-lower id k (v ∷ vs) h = elim (Bool-cases (may_spend id v)) [
  | inl on ↦ rw on (λ e. omega (arith, h.0 e), spends-lower id k vs h.1)
  | inr off ↦ rw off (λ e. ground arith, spends-lower id k vs h.1)
]

spent-Hold :
    (id k : ℕ) (t : Verifications)
    → All (λ v. v.id ≡ id → HasLeft (k + 1) v) t.rows
    → id < t.next_id
    → Hold id (HasLeft k) (spend_attempt id t).0
unfolding spend_attempt
spent-Hold id k t h given = record { rows = spends-lower id k t.rows h; given = given }

-- An attempt that could be spent was left.
spent-positive :
    (id k n : ℕ) (t : Verifications)
    → Hold id (HasLeft k) t
    → (spend_attempt id t).1 ≡ some n
    → 1 ≤ k
unfolding spend_attempt
spent-positive id k n t h e = elim (Option-cases (first_row (filter (may_spend id) t.rows))) [
  | inl nothing ↦ let no : none ≡ some n = rw nothing at e in cc
  | inr (v, found) ↦
      let (i, on) = first_row-filter (may_spend id) t.rows v found in
      let own : v.id ≡ id = ground arith in
      let room : v.attempt_count < v.max_attempts = ground arith in
      let left = All-In (λ w. w.id ≡ id → HasLeft k w) t.rows v h.rows i own in
      omega (arith, room, left)
]

compare_secret-tells :
    (env : Environment) (now : ℕ) (submitted : String) (v : Verification)
    (r : Verifications × Option ℕ)
    → tells (compare_secret env now submitted v r).1 ≡ true
    → (n : ℕ) × (r.1 ≡ some n)
unfolding compare_secret
compare_secret-tells env now submitted v (t, none) h = absurd (false≢true h)
compare_secret-tells env now submitted v (t, some n) h = (n, refl)

-- A request whose answer depends on the secret has taken one of the attempts that were left.
told_once :
    (env : Environment) (now : ℕ) (submitted : String) (v : Verification) (t : Verifications)
    (k : ℕ)
    → tells (verify_row env now submitted v t).1 ≡ true
    → Hold v.id (HasLeft k) t
    → (1 ≤ k) × Hold v.id (HasLeft (k - 1)) (verify_row env now submitted v t).0
unfolding verify_row
told_once env now submitted v t k told h = elim (Bool-cases (leb v.expires_at now)) [
  | inl late ↦ absurd (false≢true (rw late at told))
  | inr early ↦
      let (n, some_left) =
        compare_secret-tells env now submitted v (spend_attempt v.id t) (rw early at told) in
      let pos = spent-positive v.id k n t h some_left in
      let more : All (λ w. w.id ≡ v.id → HasLeft (k - 1 + 1) w) t.rows =
        All-imp (λ w. w.id ≡ v.id → HasLeft k w) _ (λ w l e. omega (arith, l e)) t.rows h.rows in
      rw early (
        pos,
        Run-Hold v.id (HasLeft (k - 1)) (HasLeft-Keeping (k - 1))
            (compare_secret-Run env now submitted v (spend_attempt v.id t))
            (spent-Hold v.id (k - 1) t more h.given),
      )
]

Tries-HasLeft :
    {id : ℕ} {t : Verifications} (k : ℕ) {u : Verifications} {n : ℕ}
    → Tries id t u n
    → Hold id (HasLeft k) t
    → (n ≤ k) × Hold id (HasLeft (k - n)) u
Tries-HasLeft {id} {t} k untried h =
    (omega arith, subst (λ j. Hold id (HasLeft j) t) (omega arith) h)
Tries-HasLeft {id} k {n = n} (meanwhile q c) h =
    let (le, left) = Tries-HasLeft k q h in
    (le, Change-Hold id (HasLeft (k - n)) (HasLeft-Keeping (k - n)) c left)
Tries-HasLeft {id} k (tried {u} {n} env now submitted v q) h =
    let (le, left) = Tries-HasLeft k q h in
    elim (Bool-cases ((v.id == id) && tells (verify_row env now submitted v u).1)) [
      | inr silent ↦ rw silent (
        le,
        Run-Hold id (HasLeft (k - n)) (HasLeft-Keeping (k - n))
            (verify_row-Run env now submitted v u) left,
      )
      | inl on ↦
          let own : v.id ≡ id = ground arith in
          let told : tells (verify_row env now submitted v u).1 ≡ true = ground arith in
          let (pos, lower) =
            told_once env now submitted v u (k - n) told
              (subst (λ i. Hold i (HasLeft (k - n)) u) (sym own) left) in
          rw on (
            omega (arith, pos, le),
            subst (λ i. Hold i (HasLeft (k - (n + 1))) (verify_row env now submitted v u).0) own
                (subst (λ j. Hold v.id (HasLeft j) (verify_row env now submitted v u).0)
                  (omega arith) lower),
          )
    ]

-- However many requests submit secrets, at once or one after another, and whatever other statements run
-- between them, no more answers depend on the secret of one code than it had attempts left.
pub guesses_are_bounded :
    (id k n : ℕ) (t u : Verifications) → Hold id (HasLeft k) t → Tries id t u n → n ≤ k
guesses_are_bounded id k n t u h q = (Tries-HasLeft k q h).0
