-- ===== src/Verification/Codes.antt =====
-- Issuing, verifying and resending a code, src/modules/auth/verification.service.ts. The settings of a
-- kind, the drawn secret and the keyed hash of a secret are arguments; one clock serves a call. Log lines
-- and the masked destination, which is for display, are left out.
use wh_api_unified_service.Prelude.{
  ◌+◌, ◌-◌, ◌/◌, Bool, Option, String, false, if◌then◌else◌, leb, ltb, none, not, some, str_eq,
  true, ◌||◌, ℕ,
}
use wh_api_unified_service.Verification.{
  CreateVerificationInput, DeliveryChannel, Verification, VerificationKind, VerificationSubjectKind,
  Verifications, consume, count_sent_to_destination_since, create_verification,
  find_live_by_destination, find_live_by_ref_id, record_resend, spend_attempt, supersede_live,
}

pub data VerificationSecretShape : Type 0 where
  numeric_code token : VerificationSecretShape

pub record VerificationKindConfig : Type 0 where
  pub secret_shape : VerificationSecretShape
  pub secret_size : ℕ
  pub expiry_ms : ℕ
  pub max_attempts : ℕ
  pub resend_cooldown_ms : ℕ
  pub hourly_destination_cap : ℕ

-- The configuration, and `hashSecret`.
pub record Environment : Type 0 where
  pub verification : VerificationKind → VerificationKindConfig
  pub realtime_enabled : Bool
  pub static_code : String
  pub hash_secret : String → String

pub record IssueVerificationInput : Type 0 where
  pub subject_kind : VerificationSubjectKind
  pub identity_id : Option ℕ
  pub customer_id : Option ℕ
  pub customer_identifier_id : Option ℕ
  pub enterprise_id : Option ℕ
  pub verification_kind : VerificationKind
  pub destination : String
  pub delivery_channel : DeliveryChannel
  pub requested_ip : Option String
  pub requested_user_agent : Option String

pub record PendingOtpDelivery : Type 0 where
  pub verification_ref_id : ℕ
  pub channel : DeliveryChannel
  pub destination : String
  pub purpose : VerificationKind
  pub otp_code : String
  pub expires_in_seconds : ℕ

pub record VerifiedSubject : Type 0 where
  pub identity_id : Option ℕ
  pub customer_id : Option ℕ
  pub enterprise_id : Option ℕ
  pub destination : String

-- The error codes that are thrown.
pub data VerificationError : Type 0 where
  verification_not_found auth_code_expired auth_code_attempts_exceeded : VerificationError
  auth_code_invalid auth_code_already_used auth_resend_too_soon : VerificationError

pub data Answer (A : Type 0) : Type 0 where
  refused : VerificationError → Answer A
  answered : A → Answer A

abbrev is_numeric : VerificationSecretShape → Bool
is_numeric numeric_code = true
is_numeric token = false

-- `drawn` is what `generateSecret` comes to.
unfoldable pub mint_secret : Environment → String → VerificationSecretShape → String
mint_secret env drawn shape =
    if env.realtime_enabled || not (is_numeric shape) then drawn else env.static_code

-- `verifySecret`: the digests are compared whole.
unfoldable pub verify_secret : Environment → String → String → Bool
verify_secret env stored submitted = str_eq stored (env.hash_secret submitted)

abbrev pub one_hour_ms : ℕ
one_hour_ms = 3600000

-- `assertWithinDestinationCap`, whether it passes.
unfoldable pub is_within_destination_cap : ℕ → String → ℕ → Verifications → Bool
is_within_destination_cap now destination cap t =
    ltb (count_sent_to_destination_since destination (now - one_hour_ms) t) cap

abbrev pub create_input :
    Environment → ℕ → String → IssueVerificationInput → CreateVerificationInput
create_input env now secret input =
    let params = env.verification input.verification_kind in
    record {
      subject_kind = input.subject_kind;
      identity_id = input.identity_id;
      enterprise_id = input.enterprise_id;
      customer_id = input.customer_id;
      customer_identifier_id = input.customer_identifier_id;
      verification_kind = input.verification_kind;
      delivery_channel = input.delivery_channel;
      destination = input.destination;
      secret_hash = env.hash_secret secret;
      expires_at = now + params.expiry_ms;
      max_attempts = params.max_attempts;
      requested_ip = input.requested_ip;
      requested_user_agent = input.requested_user_agent;
    }

abbrev pub delivery_of : Environment → String → IssueVerificationInput → ℕ → PendingOtpDelivery
delivery_of env secret input id = record {
  verification_ref_id = id;
  channel = input.delivery_channel;
  destination = input.destination;
  purpose = input.verification_kind;
  otp_code = secret;
  expires_in_seconds = (env.verification input.verification_kind).expiry_ms / 1000;
}

-- The transaction: supersede, then create.
unfoldable pub replace_live :
    Environment → ℕ → String → IssueVerificationInput → Verifications → Verifications × Verification
replace_live env now secret input t =
    create_verification now (create_input env now secret input)
      (supersede_live now input.identity_id input.customer_id input.verification_kind
        input.destination t).0

unfoldable pub issue :
    Environment
    → ℕ
    → String
    → IssueVerificationInput
    → Verifications
    → Verifications × Answer PendingOtpDelivery
issue env now drawn input t =
    let params = env.verification input.verification_kind in
    if not (is_within_destination_cap now input.destination params.hourly_destination_cap t)
    then (t, refused auth_resend_too_soon)
    else let secret = mint_secret env drawn params.secret_shape in
      let (t', v) = replace_live env now secret input t in
      (t', answered (delivery_of env secret input v.id))

abbrev pub subject_of : Verification → VerifiedSubject
subject_of v = record {
  identity_id = v.identity_id;
  customer_id = v.customer_id;
  enterprise_id = v.enterprise_id;
  destination = v.destination;
}

abbrev pub after_consume :
    Verification → Verifications × Bool → Verifications × Answer VerifiedSubject
after_consume v (t, true) = (t, answered (subject_of v))
after_consume v (t, false) = (t, refused auth_code_already_used)

-- By the attempts that the row then has.
unfoldable pub compare_secret :
    Environment
    → ℕ
    → String
    → Verification
    → Verifications × Option ℕ
    → Verifications × Answer VerifiedSubject
compare_secret env now submitted v (t, none) = (t, refused auth_code_attempts_exceeded)
compare_secret env now submitted v (t, some attempts) =
    if not (verify_secret env v.secret_hash submitted)
    then (
      t,
      refused
          (if leb v.max_attempts attempts then auth_code_attempts_exceeded else auth_code_invalid),
    )
    else after_consume v (consume now v.id t)

-- The row as it was read, and the table as it is after that: other requests may have come between.
unfoldable pub verify_row :
    Environment → ℕ → String → Verification → Verifications → Verifications × Answer VerifiedSubject
verify_row env now submitted v t =
    if leb v.expires_at now
    then (t, refused auth_code_expired)
    else compare_secret env now submitted v (spend_attempt v.id t)

abbrev pub verify_found :
    Environment
    → ℕ
    → String
    → Option Verification
    → Verifications
    → Verifications × Answer VerifiedSubject
verify_found env now submitted none t = (t, refused verification_not_found)
verify_found env now submitted (some v) t = verify_row env now submitted v t

unfoldable pub verify :
    Environment
    → ℕ
    → ℕ
    → String
    → VerificationKind
    → Verifications
    → Verifications × Answer VerifiedSubject
verify env now ref submitted kind t =
    verify_found env now submitted (find_live_by_ref_id ref kind t) t

abbrev pub verify_at :
    Environment
    → ℕ
    → String
    → VerificationKind
    → Option Verification
    → Verifications
    → Verifications × Answer VerifiedSubject
verify_at env now submitted kind none t = (t, refused verification_not_found)
verify_at env now submitted kind (some v) t = verify env now v.id submitted kind t

unfoldable pub verify_by_destination :
    Environment
    → ℕ
    → String
    → String
    → VerificationKind
    → Verifications
    → Verifications × Answer VerifiedSubject
verify_by_destination env now destination submitted kind t =
    verify_at env now submitted kind (find_live_by_destination destination kind t) t

pub record ResendInput : Type 0 where
  pub destination : String
  pub verification_kind : VerificationKind
  pub delivery_channel : DeliveryChannel
  pub requested_ip : Option String
  pub requested_user_agent : Option String

abbrev pub again_input : ResendInput → Verification → IssueVerificationInput
again_input input live = record {
  subject_kind = live.subject_kind;
  identity_id = live.identity_id;
  customer_id = live.customer_id;
  customer_identifier_id = live.customer_identifier_id;
  enterprise_id = live.enterprise_id;
  verification_kind = input.verification_kind;
  destination = input.destination;
  delivery_channel = input.delivery_channel;
  requested_ip = input.requested_ip;
  requested_user_agent = input.requested_user_agent;
}

abbrev pub after_issue :
    ℕ
    → ℕ
    → Verifications × Answer PendingOtpDelivery
    → Verifications × Answer (Option PendingOtpDelivery)
after_issue now old (t, refused e) = (t, refused e)
after_issue now old (t, answered d) = (record_resend now old t, answered (some d))

abbrev pub resend_live :
    Environment
    → ℕ
    → String
    → ResendInput
    → Option Verification
    → Verifications
    → Verifications × Answer (Option PendingOtpDelivery)
resend_live env now drawn input none t = (t, answered none)
resend_live env now drawn input (some live) t =
    if ltb now (live.last_sent_at + (env.verification input.verification_kind).resend_cooldown_ms)
    then (t, answered none)
    else after_issue now live.id (issue env now drawn (again_input input live) t)

-- `resend`: `answered none` sends nothing and says nothing.
unfoldable pub resend :
    Environment
    → ℕ
    → String
    → ResendInput
    → Verifications
    → Verifications × Answer (Option PendingOtpDelivery)
resend env now drawn input t =
    resend_live env now drawn input
      (find_live_by_destination input.destination input.verification_kind t) t
