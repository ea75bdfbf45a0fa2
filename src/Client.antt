-- ===== src/Client.antt =====
-- `degraded` of src/client.ts: what a client does with the database itself while the broker is down.
pub mod Sending
pub mod Outbox
use claude_ipc.Base.{
  ℕ, Text, ◌==◌, is_empty, txt, trim, contains, Bool, true, false, ◌&&◌, ◌||◌, not, Option, none,
  some, List, [], ◌∷◌, ◌++◌, map, keep, find, is_some, or_default, if◌then◌else◌,
}
use claude_ipc.Base.Map
use claude_ipc.Base.Map.{Map, values}
use claude_ipc.Models.{
  Message, Kind, DeliveredVia, hook, SendArgs, OutboundIntent, RegistryEntry, make_message, is_ask,
}
use claude_ipc.ProjectAddress.{
  is_project_address, project_address, project_path, normalize_project_path, same_lineage,
  within_project,
}
use claude_ipc.Storage.State.{Backend}
use claude_ipc.Storage.Messages.{
  append_routed, get_by_operation_id, route_for, queue_outbound, origin_of,
}
use claude_ipc.Storage.Inbox.{
  pending, pending_consume, recoverable, mark_consumed, mark_delivered, project_addresses,
}
use claude_ipc.Storage.Leases.{claim_for_delivery}
use claude_ipc.Storage.Asks.{open_awaiting, get_awaiting}
use claude_ipc.Storage.Projects.{project_standing, project_claim}
use claude_ipc.Storage.Upkeep.{load_registry}
use claude_ipc.Broker.{Env}
use claude_ipc.Registry.{truthy, text_is, is_offline, warm_start}
use claude_ipc.Router.Guards.{
  Code, bad_args, unauthorized, operation_conflict, not_registered, empty_send, no_peer, self_send,
  not_allowed, Response, ok, fail, is_passed,
}
use claude_ipc.Router.Send.{
  fan_out, pass_all, is_directed_ask, reply_by_or, or_else, deadline, same_payload, is_sendable,
  may_target, canonical,
}
pub use claude_ipc.Client.Sending.{
  stored_roster, session_of, session_in, same_session, awake_others, own_aliases, pass_session,
  open_ask, Queued, repeat_targets, is_own_session, thread_of, intent_args, offline_message,
}
unfoldable pub use claude_ipc.Client.Sending.{
  repeat_send, offline_refuses, queue_send, degraded_send,
}

-- `requireDegradedProjectMember`
unfoldable pub is_offline_member : Backend → Text → Option Text → Bool
is_offline_member b address acting = elim (truthy acting) [
  | none ↦ false
  | some self ↦ elim (find (λ e. e.alias == self) (load_registry b)) [
    | none ↦ false
    | some e ↦ not (is_empty e.cwd) && within_project e.cwd (project_path address)
  ]
]

abbrev pub causal_alias : Backend → Message → Option Text
causal_alias b m =
    if m.from_alias == txt "ipc" && is_some (truthy m.corr_id)
    then elim (origin_of b (or_default m.corr_id [])) [ none ↦ none | some o ↦ some o.from_alias ]
    else some m.from_alias

abbrev pub is_offline_row : Option RegistryEntry → Bool
is_offline_row none = false
is_offline_row (some e) = is_offline e.status

abbrev pub sent_by : Map RegistryEntry → Option Text → Option Text → Bool
sent_by roster none sender = false
sent_by roster (some sid) none = false
sent_by roster (some sid) (some sender) = same_session (session_in roster sender) sid

abbrev pub offline_owed : Backend → Map RegistryEntry → Text → Message → Bool
offline_owed b roster self m =
    not (sent_by roster (truthy (session_in roster self)) (truthy (causal_alias b m)))
    && not (is_passed (project_standing b m.id self))
    && elim (project_claim b m.id) [
      | none ↦ true
      | some owner ↦ owner == self || is_offline_row (Map.get roster owner)
    ]

abbrev pub messages_at : (Text → List Message) → List Text → List Message
messages_at read [] = []
messages_at read (a ∷ addresses) = read a ++ messages_at read addresses

-- `degradedProjectMessages`
unfoldable pub offline_project_messages : Backend → Text → Option Text → Bool → List Message
offline_project_messages b project acting consuming =
    let addresses =
      keep
        (λ address.
          if consuming
          then within_project project (project_path address)
          else same_lineage (project_path address) project)
        (project_addresses b) in
    let source = messages_at (λ a. if consuming then pending b a else recoverable b a) addresses in
    elim (truthy acting) [
      | none ↦ source
      | some self ↦ keep (offline_owed b (stored_roster b) self) source
    ]

abbrev pub consume_each : Backend → List Message → Backend
consume_each b [] = b
consume_each b (m ∷ ms) = consume_each (mark_consumed b m.id m.to_alias) ms

abbrev pub deliver_each : Backend → DeliveredVia → List Message → Backend
deliver_each b via [] = b
deliver_each b via (m ∷ ms) = deliver_each (mark_delivered b m.id m.to_alias (some via)) via ms

abbrev pub project_of : Text → Text
project_of p = if is_project_address p then project_path p else normalize_project_path p

unfoldable pub degraded_check :
    Backend → Text → Bool → Option Text → Option Text → Backend × Response (List Message)
unfolding is_offline_member offline_project_messages
degraded_check b address consume project acting = elim (truthy project) [
  | none ↦
      if consume
      then ((pending_consume b address).0, ok (pending_consume b address).1)
      else (b, ok (recoverable b address))
  | some p ↦
      let ms = offline_project_messages b (project_of p) acting consume in
      if consume && not (is_offline_member b (project_address (project_of p)) acting)
      then (b, fail unauthorized)
      else (if consume then consume_each b ms else b, ok ms)
]

unfoldable pub degraded_deliver :
    Backend
    → Text
    → Option DeliveredVia
    → Option Text
    → Option Text
    → Backend × Response (List Message)
unfolding is_offline_member offline_project_messages
degraded_deliver b address via project acting = elim (truthy project) [
  | none ↦ let (b', ms) = claim_for_delivery b address (some (or_default via hook)) in (b', ok ms)
  | some p ↦
      let ms = offline_project_messages b (project_of p) acting true in
      if not (is_offline_member b (project_address (project_of p)) acting)
      then (b, fail unauthorized)
      else (deliver_each b (or_default via hook) ms, ok ms)
]

-- The operations that are there without the broker, with the fields that they read.
pub data Call : Type 0 where
  sends : SendArgs → Text → Text → Text → Call
  checks : Text → Bool → Option Text → Call
  delivers : Text → Option DeliveredVia → Option Text → Call

pub data Answer : Type 0 where
  queued : Queued → Answer
  messages : List Message → Answer

abbrev pub answer_with :
    {A : Type 0} → (A → Answer) → Backend × Response A → Backend × Response Answer
answer_with f (b, ok a) = (b, ok (f a))
answer_with f (b, fail code) = (b, fail code)

-- In strict mode the client refuses to act as an alias whose token it does not hold.
abbrev pub may_act : Env → (Text → Bool) → Option Text → Bool
may_act env has_token identity = elim (truthy identity) [
  | none ↦ true
  | some self ↦ not env.strict || has_token self
]

unfoldable pub degraded :
    Env → (Text → Bool) → (Text → Text) → Backend → Call → Option Text → Backend × Response Answer
unfolding degraded_send degraded_check degraded_deliver
degraded env has_token hash b (sends a operation_id from to) acting =
    if not (may_act env has_token (some from))
    then (b, fail unauthorized)
    else answer_with queued (degraded_send env hash b a operation_id from to)
degraded env has_token hash b (checks address consume project) acting =
    if not (may_act env has_token acting)
    then (b, fail unauthorized)
    else answer_with messages (degraded_check b address consume project acting)
degraded env has_token hash b (delivers address via project) acting =
    if not (may_act env has_token acting)
    then (b, fail unauthorized)
    else answer_with messages (degraded_deliver b address via project acting)
