-- ===== src/Verification/Tests.antt =====
-- The theorems on one-time codes at concrete codes.
use wh_api_unified_service.Prelude.{
  ◌&&◌, ◌+◌, ◌-◌, ◌==◌, [], arith, false, filter, if◌then◌else◌, inl, inr, none, refl, some, str_eq,
  sym, true, ◌↔◌, ◌∙◌, ◌∷◌, ◌≡◌, ◌≤◌,
}
use wh_api_unified_service.Verification.{
  Verification, Verifications, by_email, consume, count_sent_to_destination_since,
  create_verification, find_live_by_ref_id, identity_subject, new_verification, password_reset,
  record_resend, spend_attempt, supersede_live, update_rows,
}
use wh_api_unified_service.Verification.Acceptance.{accepted_once, is_answered}
use wh_api_unified_service.Verification.Codes.{
  Environment, IssueVerificationInput, ResendInput, VerificationError, answered, compare_secret,
  delivery_of, is_within_destination_cap, issue, mint_secret, numeric_code, one_hour_ms, refused,
  replace_live, resend, subject_of, verification_not_found, verify, verify_row, verify_secret,
}
use wh_api_unified_service.Verification.Guesses.{guesses_are_bounded, tells, tried, untried}
use wh_api_unified_service.Verification.Issuing.{competes, issue_leaves_one_live}
use wh_api_unified_service.Verification.Resending.{
  HaveUniqueIds, IsNewestLive, resend_tells_the_invited,
}
use wh_api_unified_service.Verification.Runs.{after, begin, resent}

abbrev strict : Environment
strict = record {
  verification = λ kind. record {
    secret_shape = numeric_code;
    secret_size = 6;
    expiry_ms = 600000;
    max_attempts = 5;
    resend_cooldown_ms = 60000;
    hourly_destination_cap = 1;
  };
  realtime_enabled = true;
  static_code = "111111";
  hash_secret = λ secret. secret;
}

abbrev forgotten : IssueVerificationInput
forgotten = record {
  subject_kind = identity_subject;
  identity_id = some 9;
  customer_id = none;
  customer_identifier_id = none;
  enterprise_id = none;
  verification_kind = password_reset;
  destination = "ana@example.org";
  delivery_channel = by_email;
  requested_ip = none;
  requested_user_agent = none;
}

abbrev code_row : Verification
code_row = record {
  id = 1;
  subject_kind = identity_subject;
  identity_id = some 9;
  enterprise_id = none;
  customer_id = none;
  customer_identifier_id = none;
  verification_kind = password_reset;
  delivery_channel = by_email;
  destination = "ana@example.org";
  secret_hash = "482913";
  expires_at = 600100;
  consumed_at = none;
  superseded_at = none;
  attempt_count = 0;
  max_attempts = 5;
  resend_count = 0;
  last_sent_at = 100;
  created_at = 100;
  outbound_event_id = none;
  requested_ip = none;
  requested_user_agent = none;
  is_deleted = false;
}

abbrev no_codes : Verifications
no_codes = record { rows = []; next_id = 1 }

abbrev asked : Verifications
asked = record { rows = code_row ∷ []; next_id = 2 }

abbrev entered : Verifications
entered = record {
  rows = record code_row { attempt_count = 1; consumed_at = some 200 } ∷ [];
  next_id = 2;
}

was_issued :
    issue strict 100 "482913" forgotten no_codes
    ≡ (asked, answered (delivery_of strict "482913" forgotten 1))
unfolding issue is_within_destination_cap count_sent_to_destination_since replace_live
    create_verification supersede_live new_verification mint_secret update_rows
was_issued = refl

issue_leaves_one_live_example :
    ((v : Verification) × (filter (competes forgotten) asked.rows ≡ v ∷ [])
      × (v.id ≡ 1)
      × (v.secret_hash ≡ "482913")
      × (v.attempt_count ≡ 0)
      × (v.expires_at ≡ 100 + 600000))
    × (count_sent_to_destination_since "ana@example.org" (100 - one_hour_ms) asked ≤ 1)
issue_leaves_one_live_example =
    issue_leaves_one_live strict 100 "482913" forgotten no_codes asked
      (delivery_of strict "482913" forgotten 1) was_issued

was_entered :
    verify strict 200 1 "482913" password_reset asked ≡ (entered, answered (subject_of code_row))
unfolding verify find_live_by_ref_id verify_row spend_attempt compare_secret verify_secret consume
    update_rows str_eq
was_entered = refl

accepted_once_example :
    (verify strict 300 1 "482913" password_reset (record_resend 250 1 entered)
      ≡ (record_resend 250 1 entered, refused verification_not_found))
    × (is_answered (verify_row strict 300 "482913" code_row (record_resend 250 1 entered)).1
        ≡ false)
accepted_once_example =
    accepted_once strict 200 1 "482913" password_reset asked entered (record_resend 250 1 entered)
      (subject_of code_row) strict 300 "482913" password_reset code_row (omega arith, tt)
      was_entered (after begin (resent 250 1)) refl

guesses_are_bounded_example :
    (if (code_row.id == 1) && tells (verify_row strict 200 "000000" code_row asked).1
      then 0 + 1
      else 0)
    ≤ 5
guesses_are_bounded_example =
    guesses_are_bounded 1 5
      (if (code_row.id == 1) && tells (verify_row strict 200 "000000" code_row asked).1
        then 0 + 1
        else 0)
      asked (verify_row strict 200 "000000" code_row asked).0
      (record { rows = (λ e. omega arith, tt); given = omega arith })
      (tried strict 200 "000000" code_row untried)

abbrev once_more : ResendInput
once_more = record {
  destination = "ana@example.org";
  verification_kind = password_reset;
  delivery_channel = by_email;
  requested_ip = none;
  requested_user_agent = none;
}

one_code : HaveUniqueIds asked
one_code a b (inl x) (inl y) same = x ∙ sym y
one_code a b (inl x) (inr y) same = absurd y
one_code a b (inr x) y same = absurd x

resend_tells_the_invited_example :
    ((e : VerificationError) × ((resend strict 70000 "275501" once_more asked).1 ≡ refused e)) ↔ (
      (v : Verification) × IsNewestLive "ana@example.org" password_reset asked v
      × (v.last_sent_at + 60000 ≤ 70000)
      × (1 ≤ count_sent_to_destination_since "ana@example.org" (70000 - one_hour_ms) asked))
resend_tells_the_invited_example =
    resend_tells_the_invited strict 70000 "275501" once_more asked one_code
