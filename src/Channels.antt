-- ===== src/Channels.antt =====
-- The channels that sends go through and the credentials behind them:
-- src/database/repositories/channel.repository.ts (`findSendContext`),
-- src/database/repositories/provider-connection.repository.ts (`markReauthRequired`) and
-- src/shared/enums/connection.enum.ts.
pub mod Revocation
use wh_api_unified_service.Prelude.{
  ◌&&◌, ◌==◌, Bool, List, Option, String, [], false, if◌then◌else◌, map, none, not, some, true,
  ◌||◌, ℕ, ◌∷◌,
}
use wh_api_unified_service.Outbound.{Platform}

pub data TokenStatus : Type 0 where
  valid expiring_soon token_has_expired token_revoked not_applicable : TokenStatus

pub data ConnectionStatus : Type 0 where
  connection_active connection_expired revoked : ConnectionStatus

pub data ChannelStatus : Type 0 where
  channel_active disconnected channel_expired channel_error : ChannelStatus

pub record Connection : Type 0 where
  pub id : ℕ
  pub enterprise_id : ℕ
  pub reauth_required : Bool
  pub token_status : TokenStatus
  pub status : ConnectionStatus

pub record Channel : Type 0 where
  pub id : ℕ
  pub enterprise_id : ℕ
  pub provider_connection_id : ℕ
  pub parent_channel_id : Option ℕ
  pub platform : Platform
  pub platform_channel_id : String
  pub access_token : Option String
  pub token_status : TokenStatus
  pub reauth_required : Bool
  pub is_managed : Bool
  pub is_deleted : Bool
  pub status : ChannelStatus

pub record ChannelSendContext : Type 0 where
  pub channel_id : ℕ
  pub provider_connection_id : ℕ
  pub platform : Platform
  pub platform_channel_id : String
  pub parent_platform_channel_id : Option String
  pub effective_access_token : Option String
  pub reauth_required : Bool
  pub is_managed : Bool

abbrev pub is_disconnected : ChannelStatus → Bool
is_disconnected disconnected = true
is_disconnected _ = false

-- `c.enterprise_id = $1 AND c.id = $2 AND c.is_deleted = false AND c.status <> 'disconnected'`
abbrev pub may_send : ℕ → ℕ → Channel → Bool
may_send enterprise id c =
    (c.enterprise_id == enterprise)
    && (c.id == id)
    && not c.is_deleted
    && not (is_disconnected c.status)

abbrev pub first_channel : (Channel → Bool) → List Channel → Option Channel
first_channel p [] = none
first_channel p (c ∷ cs) = if p c then some c else first_channel p cs

-- The LEFT JOIN: `parent.id = c.parent_channel_id AND parent.enterprise_id = c.enterprise_id`.
abbrev pub is_parent_of : Channel → Channel → Bool
is_parent_of c parent = elim c.parent_channel_id [
  | none ↦ false
  | some p ↦ (parent.id == p) && (parent.enterprise_id == c.enterprise_id)
]

abbrev pub first_token : Option String → Option String → Option String
first_token none other = other
first_token (some t) other = some t

abbrev pub send_context : Channel → Option Channel → ChannelSendContext
send_context c parent = record {
  channel_id = c.id;
  provider_connection_id = c.provider_connection_id;
  platform = c.platform;
  platform_channel_id = c.platform_channel_id;
  parent_platform_channel_id = elim parent [ none ↦ none | some p ↦ some p.platform_channel_id ];
  effective_access_token =
      first_token c.access_token (elim parent [ none ↦ none | some p ↦ p.access_token ]);
  reauth_required =
      c.reauth_required || (elim parent [ none ↦ false | some p ↦ p.reauth_required ]);
  is_managed = c.is_managed;
}

unfoldable pub find_send_context : ℕ → ℕ → List Channel → Option ChannelSendContext
find_send_context enterprise id channels = elim (first_channel (may_send enterprise id) channels) [
  | none ↦ none
  | some c ↦ some (send_context c (first_channel (is_parent_of c) channels))
]

abbrev pub revoked_connection : ℕ → ℕ → ConnectionStatus → Connection → Connection
revoked_connection enterprise id status c =
    if (c.id == id) && (c.enterprise_id == enterprise)
    then record c { reauth_required = true; token_status = token_revoked; status = status }
    else c

abbrev pub revoked_channel : ℕ → ℕ → Channel → Channel
revoked_channel enterprise connection c =
    if (c.provider_connection_id == connection)
      && (c.enterprise_id == enterprise)
      && not c.is_deleted
    then record c { reauth_required = true; token_status = token_revoked }
    else c

unfoldable pub mark_reauth_required :
    ℕ → ℕ → ConnectionStatus → List Connection → List Channel → List Connection × List Channel
mark_reauth_required enterprise connection status connections channels = (
  map (revoked_connection enterprise connection status) connections,
  map (revoked_channel enterprise connection) channels,
)
