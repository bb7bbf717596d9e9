-- ===== src/Relay.antt =====
-- The outbound relay, src/workers/outbound-relay.worker.ts: what it reads and writes. The Graph API,
-- the token cipher and the usage collector are arguments, and so are the clock, the random draws, what
-- other workers do to the ledger during a call and whether a write after it fails.
mod Tests
pub mod Sending
pub mod Settling
pub mod Delivery
pub mod Calls
pub mod Agreement
pub mod Outcome
pub mod Doubt
pub mod Credentials
pub mod Parking
use wh_api_unified_service.Prelude.{Bool, List, Option, String, ℕ}
use wh_api_unified_service.Channels.{Channel, Connection}
use wh_api_unified_service.Graph.{GraphApiError}
use wh_api_unified_service.Messages.{Message}
use wh_api_unified_service.Outbound.{Ledger, Platform}

-- The calls of the Graph client, each with its arguments.
pub data GraphCall : Type 0 where
  reply_to_comment : (comment_id message token : String) (platform : Platform) → GraphCall
  reply_to_mention :
      (user_id media_id : String) (comment_id : Option String) (message token : String) → GraphCall
  send_direct_message :
      (target recipient message token : String) (reply_to : Option String) → GraphCall
  hide_comment :
      (comment_id : String) (hidden : Bool) (token : String) (platform : Platform) → GraphCall
  delete_comment : (comment_id token : String) → GraphCall

-- What comes of a call: the platform's id, an error of Graph, or another exception.
pub data Response : Type 0 where
  replied : Option String → Response
  refused : GraphApiError → Response
  threw : String → Response

-- What the relay reaches: the tables, and the calls that were made so far, the last one first.
pub record World : Type 0 where
  pub ledger : Ledger
  pub messages : List Message
  pub connections : List Connection
  pub channels : List Channel
  pub calls : List GraphCall

-- The collaborators of the worker; a pressure is a percentage, 0 where nothing was measured.
pub record Services : Type 0 where
  pub respond : GraphCall → Response
  pub decrypt : String → Option String
  pub app_pressure : ℕ
  pub pressure_for : String → ℕ

-- The two writes that follow a send may fail.
pub data Fault : Type 0 where
  no_fault mark_sent_fails record_delivery_fails : Fault

-- One delivery: the time of the statements before the call and of those after it, the random draw,
-- what others do to the ledger during the call, and the fault.
pub record Circumstances : Type 0 where
  pub now : ℕ
  pub later : ℕ
  pub draw : ℕ
  pub meanwhile : Ledger → Ledger
  pub fault : Fault
