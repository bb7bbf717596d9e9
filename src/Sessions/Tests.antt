-- ===== src/Sessions/Tests.antt =====
-- The theorems on sessions at concrete sessions.
use wh_api_unified_service.Prelude.{[], arith, false, none, some, ◌∷◌, ◌≡◌, ◌≤◌}
use wh_api_unified_service.Sessions.{
  CreateSessionInput, Session, Sessions, find_live_by_token_hash, issue_session, new_session,
}
use wh_api_unified_service.Sessions.Newest.{issue_session_lem, live_sessions}

abbrev phone : CreateSessionInput
phone = record {
  identity_id = 4;
  refresh_token_hash = "5f0c";
  device_info = some "phone";
  ip_address = none;
  expires_at = 9000;
}

abbrev laptop : Session
laptop = record {
  id = 1;
  identity_id = 4;
  refresh_token_hash = "a71e";
  device_info = some "laptop";
  ip_address = none;
  expires_at = 8000;
  revoked_at = none;
  created_at = 500;
  is_deleted = false;
}

abbrev signed_in : Sessions
signed_in = record { rows = laptop ∷ []; next_id = 2 }

issue_session_lem_example :
    (live_sessions 1000 4 (issue_session 1000 phone signed_in) ≤ 10)
    × (find_live_by_token_hash 1000 "5f0c" (issue_session 1000 phone signed_in)
        ≡ some (new_session 1000 2 phone))
issue_session_lem_example =
    issue_session_lem 1000 phone signed_in ((omega arith, omega arith), tt) (omega arith)
