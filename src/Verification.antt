-- ===== src/Verification.antt =====
-- One-time codes, src/database/repositories/verification.repository.ts, with the row of
-- src/database/entities/verification.entity.ts and the kinds of src/shared/enums/auth.enum.ts. Each
-- statement is one atomic step on the table; a row's refId is its id. The delivery status, which nothing
-- here reads or writes, is left out.
mod Tests
pub mod Codes
pub mod Runs
pub mod Guesses
pub mod Acceptance
pub mod Issuing
pub mod Resending
use wh_api_unified_service.Prelude.{
  ◌&&◌, ◌+◌, ◌==◌, Bool, List, Option, String, [], any, false, filter, if◌then◌else◌, is_none, leb,
  length, ltb, none, not, or_else, some, sort, str_eq, take, ℕ, ◌∷◌,
}

pub data VerificationKind : Type 0 where
  first_login email_verification mobile_verification password_reset : VerificationKind
  employee_invite identifier_change : VerificationKind
  customer_mobile_verification customer_email_verification : VerificationKind

-- Kinds are told apart by their numbers.
abbrev pub kind_number : VerificationKind → ℕ
kind_number first_login = 0
kind_number email_verification = 1
kind_number mobile_verification = 2
kind_number password_reset = 3
kind_number employee_invite = 4
kind_number identifier_change = 5
kind_number customer_mobile_verification = 6
kind_number customer_email_verification = 7

pub data VerificationSubjectKind : Type 0 where
  identity_subject customer_subject : VerificationSubjectKind

pub data DeliveryChannel : Type 0 where
  by_email by_sms by_whatsapp : DeliveryChannel

pub record Verification : Type 0 where
  pub id : ℕ
  pub subject_kind : VerificationSubjectKind
  pub identity_id : Option ℕ
  pub enterprise_id : Option ℕ
  pub customer_id : Option ℕ
  pub customer_identifier_id : Option ℕ
  pub verification_kind : VerificationKind
  pub delivery_channel : DeliveryChannel
  pub destination : String
  pub secret_hash : String
  pub expires_at : ℕ
  pub consumed_at : Option ℕ
  pub superseded_at : Option ℕ
  pub attempt_count : ℕ
  pub max_attempts : ℕ
  pub resend_count : ℕ
  pub last_sent_at : ℕ
  pub created_at : ℕ
  pub outbound_event_id : Option ℕ
  pub requested_ip : Option String
  pub requested_user_agent : Option String
  pub is_deleted : Bool

pub record Verifications : Type 0 where
  pub rows : List Verification
  pub next_id : ℕ

pub record CreateVerificationInput : Type 0 where
  pub subject_kind : VerificationSubjectKind
  pub identity_id : Option ℕ
  pub enterprise_id : Option ℕ
  pub customer_id : Option ℕ
  pub customer_identifier_id : Option ℕ
  pub verification_kind : VerificationKind
  pub delivery_channel : DeliveryChannel
  pub destination : String
  pub secret_hash : String
  pub expires_at : ℕ
  pub max_attempts : ℕ
  pub requested_ip : Option String
  pub requested_user_agent : Option String

-- `UPDATE ... WHERE p`
unfoldable pub update_rows :
    (Verification → Bool) → (Verification → Verification) → List Verification → List Verification
update_rows p f [] = []
update_rows p f (v ∷ vs) = (if p v then f v else v) ∷ update_rows p f vs

abbrev pub first_row : List Verification → Option Verification
first_row [] = none
first_row (v ∷ vs) = some v

-- `consumed_at IS NULL AND superseded_at IS NULL`
abbrev pub is_unsettled : Verification → Bool
is_unsettled v = is_none v.consumed_at && is_none v.superseded_at

abbrev pub is_live : Verification → Bool
is_live v = is_unsettled v && not v.is_deleted

abbrev pub is_of_kind : VerificationKind → Verification → Bool
is_of_kind kind v = kind_number v.verification_kind == kind_number kind

-- The columns of the index `verifications_live_uniq`.
unfoldable pub is_for : Option ℕ → Option ℕ → VerificationKind → String → Verification → Bool
is_for identity customer kind destination v =
    (or_else v.identity_id 0 == or_else identity 0)
    && (or_else v.customer_id 0 == or_else customer 0)
    && is_of_kind kind v
    && str_eq v.destination destination

unfoldable pub supersede_live :
    ℕ → Option ℕ → Option ℕ → VerificationKind → String → Verifications → Verifications × ℕ
supersede_live now identity customer kind destination t =
    let p : Verification → Bool = λ v. is_for identity customer kind destination v && is_live v in
    (
      record t { rows = update_rows p (λ v. record v { superseded_at = some now }) t.rows },
      length (filter p t.rows),
    )

unfoldable pub new_verification : ℕ → ℕ → CreateVerificationInput → Verification
new_verification now id input = record {
  id = id;
  subject_kind = input.subject_kind;
  identity_id = input.identity_id;
  enterprise_id = input.enterprise_id;
  customer_id = input.customer_id;
  customer_identifier_id = input.customer_identifier_id;
  verification_kind = input.verification_kind;
  delivery_channel = input.delivery_channel;
  destination = input.destination;
  secret_hash = input.secret_hash;
  expires_at = input.expires_at;
  consumed_at = none;
  superseded_at = none;
  attempt_count = 0;
  max_attempts = input.max_attempts;
  resend_count = 0;
  last_sent_at = now;
  created_at = now;
  outbound_event_id = none;
  requested_ip = input.requested_ip;
  requested_user_agent = input.requested_user_agent;
  is_deleted = false;
}

-- `create`
unfoldable pub create_verification :
    ℕ → CreateVerificationInput → Verifications → Verifications × Verification
create_verification now input t =
    let v = new_verification now t.next_id input in
    (record { rows = v ∷ t.rows; next_id = t.next_id + 1 }, v)

abbrev by_newest : Verification → Verification → Bool
by_newest v w = leb w.id v.id

unfoldable pub find_live_by_destination :
    String → VerificationKind → Verifications → Option Verification
find_live_by_destination destination kind t = first_row (
    sort by_newest
      (filter (λ v. str_eq v.destination destination && is_of_kind kind v && is_live v) t.rows))

unfoldable pub find_live_by_ref_id : ℕ → VerificationKind → Verifications → Option Verification
find_live_by_ref_id ref kind t =
    first_row (filter (λ v. (v.id == ref) && is_of_kind kind v && is_live v) t.rows)

abbrev pub may_spend : ℕ → Verification → Bool
may_spend id v = (v.id == id) && ltb v.attempt_count v.max_attempts

abbrev pub new_count : Option Verification → Option ℕ
new_count none = none
new_count (some v) = some (v.attempt_count + 1)

-- The new count, `none` where the budget was spent.
unfoldable pub spend_attempt : ℕ → Verifications → Verifications × Option ℕ
spend_attempt id t = (
  record t {
    rows =
        update_rows (may_spend id) (λ v. record v { attempt_count = v.attempt_count + 1 }) t.rows;
  },
  new_count (first_row (filter (may_spend id) t.rows)),
)

abbrev pub may_consume : ℕ → Verification → Bool
may_consume id v = (v.id == id) && is_unsettled v

unfoldable pub consume : ℕ → ℕ → Verifications → Verifications × Bool
consume now id t = (
  record t {
    rows = update_rows (may_consume id) (λ v. record v { consumed_at = some now }) t.rows;
  },
  length (filter (may_consume id) t.rows) == 1,
)

unfoldable pub count_sent_to_destination_since : String → ℕ → Verifications → ℕ
count_sent_to_destination_since destination since t =
    length (filter (λ v. str_eq v.destination destination && leb since v.created_at) t.rows)

unfoldable pub record_resend : ℕ → ℕ → Verifications → Verifications
record_resend now id t = record t {
  rows =
      update_rows (λ v. v.id == id)
        (λ v. record v { resend_count = v.resend_count + 1; last_sent_at = now }) t.rows;
}

unfoldable pub link_outbound_event : ℕ → ℕ → Verifications → Verifications
link_outbound_event id event t = record t {
  rows = update_rows (λ v. v.id == id) (λ v. record v { outbound_event_id = some event }) t.rows;
}

abbrev is_before : ℕ → Option ℕ → Bool
is_before cutoff none = false
is_before cutoff (some at) = ltb at cutoff

-- One `DELETE` of at most so many rows; the order in which its subquery meets them is an argument.
unfoldable pub delete_rows :
    (Verification → Bool) → List ℕ → ℕ → List Verification → List Verification
delete_rows p met limit vs = filter (λ v. not (p v && any (λ i. i == v.id) (take limit met))) vs

-- `deleteSettledBefore`: the consumed rows, then the expired.
unfoldable pub delete_settled_verifications :
    ℕ → List ℕ → List ℕ → ℕ → Verifications → Verifications
delete_settled_verifications cutoff consumed_met expired_met limit t = record t {
  rows =
      delete_rows (λ v. is_none v.consumed_at && ltb v.expires_at cutoff) expired_met limit
        (delete_rows (λ v. is_before cutoff v.consumed_at) consumed_met limit t.rows);
}
