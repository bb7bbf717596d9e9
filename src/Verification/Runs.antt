-- ===== src/Verification/Runs.antt =====
-- What any statement leaves of the rows with one id, src/database/repositories/verification.repository.ts.
use wh_api_unified_service.Prelude.{
  ◌+◌, ◌<◌, All, Bool, Bool-cases, List, Option, String, [], arith, false, filter, inl, inr, leb,
  none, refl, some, true, ℕ, ◌∷◌, ◌≡◌,
}
use wh_api_unified_service.Verification.{
  CreateVerificationInput, Verification, VerificationKind, Verifications, consume,
  create_verification, delete_rows, delete_settled_verifications, link_outbound_event,
  new_verification, record_resend, spend_attempt, supersede_live, update_rows,
}
use wh_api_unified_service.Verification.Codes.{
  Environment, after_consume, compare_secret, verify_row, verify_secret,
}

-- Any statement, by any request.
pub data Change (t : Verifications) : Verifications → Type 0 where
  superseded :
      (now : ℕ) (identity owner : Option ℕ) (kind : VerificationKind) (destination : String)
      → Change t (supersede_live now identity owner kind destination t).0
  created :
      (now : ℕ) (input : CreateVerificationInput) → Change t (create_verification now input t).0
  spent : (id : ℕ) → Change t (spend_attempt id t).0
  was_consumed : (now id : ℕ) → Change t (consume now id t).0
  resent : (now id : ℕ) → Change t (record_resend now id t)
  linked : (id event : ℕ) → Change t (link_outbound_event id event t)
  swept :
      (cutoff : ℕ) (consumed_met expired_met : List ℕ) (limit : ℕ)
      → Change t (delete_settled_verifications cutoff consumed_met expired_met limit t)

-- Statements one after another.
pub data Run (t : Verifications) : Verifications → Type 0 where
  begin : Run t t
  after : {u w : Verifications} → Run t u → Change u w → Run t w

pub Run-trans : {t u w : Verifications} → Run t u → Run u w → Run t w
Run-trans r begin = r
Run-trans r (after q c) = after (Run-trans r q) c

-- The rows with the id have the property, and the id has been given out.
pub record Hold (id : ℕ) (P : Verification → Type 0) (t : Verifications) : Type 0 where
  pub rows : All (λ v. v.id ≡ id → P v) t.rows
  pub given : id < t.next_id

-- What the updates keep.
pub record Keeping (P : Verification → Type 0) : Type 0 where
  pub supersedes : (v : Verification) (now : ℕ) → P v → P (record v { superseded_at = some now })
  pub spends : (v : Verification) → P v → P (record v { attempt_count = v.attempt_count + 1 })
  pub consumes : (v : Verification) (now : ℕ) → P v → P (record v { consumed_at = some now })
  pub resends :
      (v : Verification) (now : ℕ)
      → P v
      → P (record v { resend_count = v.resend_count + 1; last_sent_at = now })
  pub links : (v : Verification) (event : ℕ) → P v → P (record v { outbound_event_id = some event })

pub update_rows-All :
    (Q : Verification → Type 0) (p : Verification → Bool) (f : Verification → Verification)
    (vs : List Verification)
    → ((v : Verification) → p v ≡ true → Q v → Q (f v))
    → All Q vs
    → All Q (update_rows p f vs)
unfolding update_rows
update_rows-All Q p f [] keeps h = tt
update_rows-All Q p f (v ∷ vs) keeps h =
    let rest = update_rows-All Q p f vs keeps h.1 in
    elim (Bool-cases (p v)) [ inl on ↦ rw on (keeps v on h.0, rest) | inr off ↦ rw off (h.0, rest) ]

filter-All :
    (Q : Verification → Type 0) (p : Verification → Bool) (vs : List Verification)
    → All Q vs
    → All Q (filter p vs)
filter-All Q p [] h = tt
filter-All Q p (v ∷ vs) h = elim (Bool-cases (p v)) [
  | inl on ↦ rw on (h.0, filter-All Q p vs h.1)
  | inr off ↦ rw off (filter-All Q p vs h.1)
]

module _ (id : ℕ) (P : Verification → Type 0) (keeping : Keeping P) where
  pub Change-Hold : {t u : Verifications} → Change t u → Hold id P t → Hold id P u
  unfolding supersede_live create_verification new_verification spend_attempt consume record_resend
      link_outbound_event delete_settled_verifications delete_rows
  Change-Hold {t} (superseded now identity owner kind destination) h = record {
    rows =
        update_rows-All (λ v. v.id ≡ id → P v) _ _ t.rows
          (λ v on k e. keeping.supersedes v now (k e)) h.rows;
    given = h.given;
  }
  Change-Hold {t} (created now input) h = record {
    rows = (λ e. absurd (omega (arith, h.given, e)), h.rows);
    given = omega (arith, h.given);
  }
  Change-Hold {t} (spent i) h = record {
    rows =
        update_rows-All (λ v. v.id ≡ id → P v) _ _ t.rows (λ v on k e. keeping.spends v (k e))
          h.rows;
    given = h.given;
  }
  Change-Hold {t} (was_consumed now i) h = record {
    rows =
        update_rows-All (λ v. v.id ≡ id → P v) _ _ t.rows (λ v on k e. keeping.consumes v now (k e))
          h.rows;
    given = h.given;
  }
  Change-Hold {t} (resent now i) h = record {
    rows =
        update_rows-All (λ v. v.id ≡ id → P v) _ _ t.rows (λ v on k e. keeping.resends v now (k e))
          h.rows;
    given = h.given;
  }
  Change-Hold {t} (linked i event) h = record {
    rows =
        update_rows-All (λ v. v.id ≡ id → P v) _ _ t.rows (λ v on k e. keeping.links v event (k e))
          h.rows;
    given = h.given;
  }
  Change-Hold {t} (swept cutoff consumed_met expired_met limit) h = record {
    rows =
        filter-All (λ v. v.id ≡ id → P v) _ _ (filter-All (λ v. v.id ≡ id → P v) _ t.rows h.rows);
    given = h.given;
  }

  pub Run-Hold : {t u : Verifications} → Run t u → Hold id P t → Hold id P u
  Run-Hold begin h = h
  Run-Hold (after r c) h = Change-Hold c (Run-Hold r h)

-- A verification runs two statements at most.
after_consume-state : (v : Verification) (r : Verifications × Bool) → (after_consume v r).0 ≡ r.0
after_consume-state v (t, true) = refl
after_consume-state v (t, false) = refl

pub compare_secret-Run :
    (env : Environment) (now : ℕ) (submitted : String) (v : Verification)
    (r : Verifications × Option ℕ)
    → Run r.0 (compare_secret env now submitted v r).0
unfolding compare_secret
compare_secret-Run env now submitted v (t, none) = begin
compare_secret-Run env now submitted v (t, some n) =
    elim (Bool-cases (verify_secret env v.secret_hash submitted)) [
      | inr wrong ↦ rw wrong begin
      | inl right ↦
          rw (right, after_consume-state v (consume now v.id t))
            (after begin (was_consumed now v.id))
    ]

pub verify_row-Run :
    (env : Environment) (now : ℕ) (submitted : String) (v : Verification) (t : Verifications)
    → Run t (verify_row env now submitted v t).0
unfolding verify_row
verify_row-Run env now submitted v t = elim (Bool-cases (leb v.expires_at now)) [
  | inl late ↦ rw late begin
  | inr early ↦ rw early (
      Run-trans (after begin (spent v.id))
        (compare_secret-Run env now submitted v (spend_attempt v.id t)))
]
