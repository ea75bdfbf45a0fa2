-- ===== src/Models.antt =====
-- src/models.ts: the message taxonomy and the records that the broker keeps. Times are whole
-- seconds; `T | null` and an absent optional field are both `none`. Strings are UTF-16 texts.
use claude_ipc.Base.{ℕ, Text, Bool, true, false, Option, none, List, []}

pub data Kind : Type 0 where
  inform query request response : Kind

pub data Status : Type 0 where
  ok error : Status

-- The type has five members, but nothing tests what comes in: `errorCode` of src/mcpServer.ts is any
-- string.
abbrev pub ErrorCode : Type 0
ErrorCode = Text

pub data ControlOp : Type 0 where
  register heartbeat leave cancel : ControlOp

pub data DeliveredVia : Type 0 where
  channel hook resume pull : DeliveredVia

pub data DeliveryState : Type 0 where
  queued delivered surfaced persisted consumed accepted declined : DeliveryState

pub record ContextPtr : Type 0 where
  pub session_id : Text
  pub transcript_path : Text
  pub cwd : Text

pub record Message : Type 0 where
  pub id : Text
  pub operation_id : Option Text
  pub kind : Kind
  pub from_alias : Text
  pub to_alias : Text
  pub body : Text
  pub conversation_id : Option Text
  pub corr_id : Option Text
  pub status : Option Status
  pub error_code : Option ErrorCode
  pub terminal : Bool
  pub op : Option ControlOp
  pub context_ptr : Option ContextPtr
  pub ttl_s : Option ℕ
  pub reply_by_s : Option ℕ
  pub ts : ℕ
  pub body_hidden : Bool

pub record Delivery : Type 0 where
  pub msg_id : Text
  pub to_alias : Text
  pub via : Option DeliveredVia
  pub state : DeliveryState
  pub ts : ℕ

pub data NudgeStage : Type 0 where
  zero one two : NudgeStage

pub data ClosedReason : Type 0 where
  responded timeout cancelled ghosted parked : ClosedReason

pub record Awaiting : Type 0 where
  pub origin_id : Text
  pub expires_at : Option ℕ
  pub closed : Bool
  pub reply_by_s : Option ℕ
  pub nudged_stage : NudgeStage
  pub nudge_from : ℕ
  pub closed_reason : Option ClosedReason

-- The arguments of a `send` as router.ts reads them. `reply_by_s` is `none` for undefined, and
-- `some none` for an explicit null.
pub record SendArgs : Type 0 where
  pub from_alias : Option Text
  pub to : Option Text
  pub kind : Option Kind
  pub body : Option Text
  pub conversation_id : Option Text
  pub ttl_s : Option ℕ
  pub reply_by_s : Option (Option ℕ)
  pub context_ptr : Option ContextPtr
  pub operation_id : Option Text
  pub message_id : Option Text

pub record OutboundIntent : Type 0 where
  pub operation_id : Text
  pub from_alias : Text
  pub args : SendArgs
  pub created_at : ℕ

pub data PeerStatus : Type 0 where
  live idle offline : PeerStatus

pub record RegistryEntry : Type 0 where
  pub alias : Text
  pub session_id : Text
  pub cwd : Text
  pub caps : List Text
  pub pid : Option ℕ
  pub tty : Option Text
  pub last_seen : ℕ
  pub status : PeerStatus
  pub session_aliases : Option (List Text)
  pub since_seen_s : Option ℕ
  pub succeeded_sid : Option Text
  pub service : Bool
  pub token : Option Text

-- The fields that every call of `makeMessage` gives, with its defaults for the others; a call that
-- gives more fields updates the result.
abbrev pub make_message : Text → Kind → Text → Text → ℕ → Message
make_message id kind from_alias to_alias ts = record {
  id = id;
  operation_id = none;
  kind = kind;
  from_alias = from_alias;
  to_alias = to_alias;
  body = [];
  conversation_id = none;
  corr_id = none;
  status = none;
  error_code = none;
  terminal = true;
  op = none;
  context_ptr = none;
  ttl_s = none;
  reply_by_s = none;
  ts = ts;
  body_hidden = false;
}

-- `m.kind === "query" || m.kind === "request"`, the test for a message that is an ask.
abbrev pub is_ask : Kind → Bool
is_ask query = true
is_ask request = true
is_ask _ = false
