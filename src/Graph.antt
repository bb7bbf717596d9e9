-- ===== src/Graph.antt =====
-- What a failed Graph call means: src/modules/connections/graph/graph-api.error.ts and
-- src/modules/connections/graph/graph-error.mapper.ts.
pub mod Mapping
use Prim.Native.Char.{Char, code as code_point}
use Prim.Native.String
use wh_api_unified_service.Prelude.{
  ◌&&◌, ◌+◌, ◌<>◌, ◌==◌, Bool, Option, String, [], false, if◌then◌else◌, leb, none, some, str_eq,
  true, ◌||◌, ℕ, ◌∷◌,
}

pub record GraphApiError : Type 0 where
  pub http_status : ℕ
  pub code : Option ℕ
  pub subcode : Option ℕ
  pub type : Option String
  pub fb_trace_id : Option String
  pub message : String
  pub retry_after_minutes : Option ℕ

-- The members of `ErrorCode` that the mapper returns.
pub data ErrorCode : Type 0 where
  upstream_unavailable messaging_window_closed channel_reauth_required : ErrorCode
  upstream_rate_limited permission_denied upstream_contract_changed : ErrorCode

pub record MappedGraphError : Type 0 where
  pub code : ErrorCode
  pub requires_reauth : Bool
  pub retryable : Bool

abbrev pub from_schema : ℕ → String → String → GraphApiError
from_schema http_status path detail = record {
  http_status = http_status;
  code = none;
  subcode = none;
  type = some "schema";
  fb_trace_id = none;
  message = "graph " <> path <> " returned an unexpected shape: " <> detail;
  retry_after_minutes = none;
}

abbrev pub from_transport : String → GraphApiError
from_transport detail = record {
  http_status = 0;
  code = none;
  subcode = none;
  type = some "transport";
  fb_trace_id = none;
  message = detail;
  retry_after_minutes = none;
}

-- The numbers of `META` and `SUBCODE`.
abbrev pub oauth_exception : ℕ
oauth_exception = 190

abbrev pub permission_denied_code : ℕ
permission_denied_code = 10

abbrev pub application_rate_limit : ℕ
application_rate_limit = 4

abbrev pub user_request_limit : ℕ
user_request_limit = 17

abbrev pub page_rate_limit : ℕ
page_rate_limit = 32

abbrev pub custom_rate_limit : ℕ
custom_rate_limit = 613

abbrev pub buc_throttle_range_start : ℕ
buc_throttle_range_start = 80000

abbrev pub buc_throttle_range_end : ℕ
buc_throttle_range_end = 80099

abbrev pub temporary_issue : ℕ
temporary_issue = 2

abbrev pub capability_missing : ℕ
capability_missing = 3

abbrev pub token_expired : ℕ
token_expired = 463

abbrev pub token_invalidated : ℕ
token_invalidated = 467

abbrev pub messaging_window_closed_subcode : ℕ
messaging_window_closed_subcode = 2534022

abbrev pub buc_throttled : ℕ
buc_throttled = 2446079

-- `x === n`, where `x` may be null.
abbrev pub equals : Option ℕ → ℕ → Bool
equals none n = false
equals (some m) n = m == n

abbrev pub in_range : Option ℕ → ℕ → ℕ → Bool
in_range none low high = false
in_range (some m) low high = leb low m && leb m high

unfoldable pub is_rate_limit : GraphApiError → Bool
is_rate_limit e =
    equals e.code application_rate_limit
    || equals e.code user_request_limit
    || equals e.code page_rate_limit
    || equals e.code custom_rate_limit
    || in_range e.code buc_throttle_range_start buc_throttle_range_end
    || equals e.subcode buc_throttled

-- The flag `i` of a pattern of ASCII letters.
abbrev pub to_lower : ℕ → ℕ
to_lower c = if leb 65 c && leb c 90 then c + 32 else c

pub starts_with : String → String → Bool
starts_with String.[] s = true
starts_with (String.◌∷◌ p ps) String.[] = false
starts_with (String.◌∷◌ p ps) (String.◌∷◌ c s) =
    (to_lower (code_point p) == to_lower (code_point c)) && starts_with ps s

pub contains_text : String → String → Bool
unfolding starts_with
contains_text p String.[] = starts_with p ""
contains_text p (String.◌∷◌ c s) = starts_with p (String.◌∷◌ c s) || contains_text p s

-- `/allowed window|24[- ]?hour/i`
unfoldable pub names_the_window : String → Bool
unfolding contains_text
names_the_window s =
    contains_text "allowed window" s
    || contains_text "24-hour" s
    || contains_text "24 hour" s
    || contains_text "24hour" s

abbrev pub is_schema : Option String → Bool
is_schema none = false
is_schema (some t) = str_eq t "schema"

abbrev pub mapped : ErrorCode → Bool → Bool → MappedGraphError
mapped code reauth retryable = record {
  code = code;
  requires_reauth = reauth;
  retryable = retryable;
}

abbrev pub is_dead_token : GraphApiError → Bool
is_dead_token e =
    equals e.code oauth_exception
    || equals e.subcode token_expired
    || equals e.subcode token_invalidated

unfoldable pub map_graph_error : GraphApiError → MappedGraphError
map_graph_error e =
    if e.http_status == 0
    then mapped upstream_unavailable false true
    else if equals e.subcode messaging_window_closed_subcode
    then mapped messaging_window_closed false false
    else if is_dead_token e
    then mapped channel_reauth_required true false
    else if is_rate_limit e
    then mapped upstream_rate_limited false true
    else if equals e.code temporary_issue || leb 500 e.http_status
    then mapped upstream_unavailable false true
    else if equals e.code permission_denied_code
    then (if names_the_window e.message
        then mapped messaging_window_closed false false
        else mapped permission_denied false false)
    else if equals e.code capability_missing
    then mapped permission_denied false false
    else if is_schema e.type
    then mapped upstream_contract_changed false false
    else mapped upstream_unavailable false false

unfoldable pub is_ambiguous_failure : GraphApiError → Bool
is_ambiguous_failure e = (e.http_status == 0) || leb 500 e.http_status
