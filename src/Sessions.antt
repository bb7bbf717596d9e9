-- ===== src/Sessions.antt =====
-- Sessions, src/database/repositories/session.repository.ts, with what src/modules/auth/auth.service.ts
-- does with them on signing in and out. The hash of a token is given; audit records, log lines and the
-- access token are left out.
mod Tests
pub mod Newest
use wh_api_unified_service.Prelude.{
  ◌&&◌, ◌+◌, ◌==◌, Bool, List, Option, String, [], any, false, filter, if◌then◌else◌, is_none, leb,
  length, ltb, none, not, some, sort, str_eq, suc, take, zero, ◌||◌, ℕ, ◌∷◌,
}

pub record Session : Type 0 where
  pub id : ℕ
  pub identity_id : ℕ
  pub refresh_token_hash : String
  pub device_info : Option String
  pub ip_address : Option String
  pub expires_at : ℕ
  pub revoked_at : Option ℕ
  pub created_at : ℕ
  pub is_deleted : Bool

pub record CreateSessionInput : Type 0 where
  pub identity_id : ℕ
  pub refresh_token_hash : String
  pub device_info : Option String
  pub ip_address : Option String
  pub expires_at : ℕ

pub record Sessions : Type 0 where
  pub rows : List Session
  pub next_id : ℕ

unfoldable pub new_session : ℕ → ℕ → CreateSessionInput → Session
new_session now id input = record {
  id = id;
  identity_id = input.identity_id;
  refresh_token_hash = input.refresh_token_hash;
  device_info = input.device_info;
  ip_address = input.ip_address;
  expires_at = input.expires_at;
  revoked_at = none;
  created_at = now;
  is_deleted = false;
}

-- `create`
unfoldable pub create_session : ℕ → CreateSessionInput → Sessions → Sessions
create_session now input t = record {
  rows = new_session now t.next_id input ∷ t.rows;
  next_id = t.next_id + 1;
}

-- `revoked_at IS NULL AND expires_at > now() AND is_deleted = false`
abbrev pub is_live_at : ℕ → Session → Bool
is_live_at now s = is_none s.revoked_at && ltb now s.expires_at && not s.is_deleted

abbrev first_session : List Session → Option Session
first_session [] = none
first_session (s ∷ ss) = some s

unfoldable pub find_live_by_token_hash : ℕ → String → Sessions → Option Session
find_live_by_token_hash now hash t =
    first_session (filter (λ s. str_eq s.refresh_token_hash hash && is_live_at now s) t.rows)

unfoldable pub revoke_where : ℕ → (Session → Bool) → List Session → List Session
revoke_where now p [] = []
revoke_where now p (s ∷ ss) =
    (if p s then record s { revoked_at = some now } else s) ∷ revoke_where now p ss

unfoldable pub revoke_session : ℕ → ℕ → Sessions → Sessions
revoke_session now id t = record t {
  rows = revoke_where now (λ s. (s.id == id) && is_none s.revoked_at) t.rows;
}

unfoldable pub revoke_all_for_identity : ℕ → ℕ → Sessions → Sessions × ℕ
revoke_all_for_identity now identity t =
    let p : Session → Bool = λ s. (s.identity_id == identity) && is_none s.revoked_at in
    (record t { rows = revoke_where now p t.rows }, length (filter p t.rows))

-- `ORDER BY created_at DESC, id DESC`
abbrev pub newer : Session → Session → Bool
newer a b = ltb b.created_at a.created_at || ((a.created_at == b.created_at) && leb b.id a.id)

-- `OFFSET n`
abbrev pub drop : {A : Type 0} → ℕ → List A → List A
drop zero xs = xs
drop (suc n) [] = []
drop (suc n) (x ∷ xs) = drop n xs

abbrev pub is_among : List Session → Session → Bool
is_among others s = any (λ o. o.id == s.id) others

abbrev pub is_live_of : ℕ → ℕ → Session → Bool
is_live_of now identity s = (s.identity_id == identity) && is_live_at now s

-- The rows that the subquery selects.
unfoldable pub beyond_newest : ℕ → ℕ → ℕ → Sessions → List Session
beyond_newest now identity keep t = drop keep (sort newer (filter (is_live_of now identity) t.rows))

unfoldable pub revoke_beyond_newest : ℕ → ℕ → ℕ → Sessions → Sessions
revoke_beyond_newest now identity keep t = record t {
  rows = revoke_where now (is_among (beyond_newest now identity keep t)) t.rows;
}

abbrev is_past : ℕ → Option ℕ → Bool
is_past cutoff none = false
is_past cutoff (some at) = ltb at cutoff

-- `deleteExpiredBefore`: the expired rows, then the revoked; the order in which a subquery meets its rows
-- is an argument.
unfoldable pub delete_expired_before : ℕ → List ℕ → List ℕ → ℕ → Sessions → Sessions
delete_expired_before cutoff expired_met revoked_met limit t =
    let kept =
      filter
        (λ s. not (
          ltb s.expires_at cutoff
          && is_none s.revoked_at
          && any (λ i. i == s.id) (take limit expired_met)))
        t.rows in
    record t {
      rows =
          filter
            (λ s.
              not (is_past cutoff s.revoked_at && any (λ i. i == s.id) (take limit revoked_met)))
            kept;
    }

abbrev pub max_sessions_per_identity : ℕ
max_sessions_per_identity = 10

-- `issueSession`, as far as the table goes.
unfoldable pub issue_session : ℕ → CreateSessionInput → Sessions → Sessions
issue_session now input t =
    revoke_beyond_newest now input.identity_id max_sessions_per_identity
      (create_session now input t)

unfoldable pub logout : ℕ → String → Sessions → Sessions
logout now hash t = elim (find_live_by_token_hash now hash t) [
  | none ↦ t
  | some s ↦ revoke_session now s.id t
]
