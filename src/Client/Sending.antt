-- ===== src/Client/Sending.antt =====
-- A send of `degraded` of src/client.ts, while the broker is down.
use claude_ipc.Base.{
  ℕ, Text, ◌==◌, is_empty, txt, trim, Bool, true, false, ◌&&◌, not, Option, none, some, List, [],
  ◌∷◌, ◌++◌, map, keep, is_some, or_default, if◌then◌else◌,
}
use claude_ipc.Base.Map
use claude_ipc.Base.Map.{Map, values}
use claude_ipc.Models.{Message, Kind, SendArgs, RegistryEntry, make_message}
use claude_ipc.ProjectAddress.{is_project_address}
use claude_ipc.Storage.State.{Backend}
use claude_ipc.Storage.Messages.{append_routed, get_by_operation_id, route_for, queue_outbound}
use claude_ipc.Storage.Asks.{open_awaiting, get_awaiting}
use claude_ipc.Storage.Upkeep.{load_registry}
use claude_ipc.Broker.{Env}
use claude_ipc.Registry.{truthy, is_offline, warm_start}
use claude_ipc.Router.Guards.{
  Code, bad_args, operation_conflict, not_registered, empty_send, no_peer, self_send, not_allowed,
  Response, ok, fail,
}
use claude_ipc.Router.Send.{
  fan_out, pass_all, is_directed_ask, reply_by_or, or_else, deadline, same_payload, is_sendable,
  may_target, canonical,
}

-- `new Map(db.loadRegistry().map((entry) => [entry.alias, entry]))`: the rows as they were stored.
abbrev pub stored_roster : Backend → Map RegistryEntry
stored_roster b = warm_start [] (load_registry b)

abbrev pub session_of : Option RegistryEntry → Option Text
session_of none = none
session_of (some e) = some e.session_id

abbrev pub session_in : Map RegistryEntry → Text → Option Text
session_in roster alias = session_of (Map.get roster alias)

abbrev pub same_session : Option Text → Text → Bool
same_session none sid = false
same_session (some s) sid = s == sid

-- The aliases, by the rows, that a broadcast reaches.
abbrev pub awake_others : Option Text → Map RegistryEntry → List Text
awake_others sid roster =
    map (λ e. e.alias)
      (keep (λ e. not (is_offline e.status) && not (same_session sid e.session_id)) (values roster))

-- `for (const entry of registry.values()) if (entry.sessionId === senderSid) …`
abbrev pub own_aliases : Option Text → Map RegistryEntry → List Text
own_aliases sid roster =
    map (λ e. e.alias) (keep (λ e. same_session sid e.session_id) (values roster))

abbrev pub pass_session : Backend → Text → Text → Option Text → Map RegistryEntry → Backend
pass_session b id to sid roster =
    if is_project_address to && is_some (truthy sid)
    then pass_all b id (own_aliases sid roster)
    else b

abbrev pub open_ask : Env → Backend → Text → Option ℕ → Option (Option ℕ) → ℕ → Backend
open_ask env b id ttl_s reply_by_s from =
    open_awaiting b id (deadline from (or_else ttl_s env.default_ttl_s))
      (reply_by_or reply_by_s env.default_reply_by_s) from

pub record Queued : Type 0 where
  pub msg_id : Text
  pub recipients : List Text
  pub idempotent_replay : Bool

-- A send whose operation id has its message already.
abbrev pub repeat_targets : Backend → Map RegistryEntry → Message → List Text
repeat_targets b roster m = elim (route_for b m.id) [
  | some targets ↦ targets
  | none ↦
      if m.to_alias == txt "*"
      then keep (λ alias. not (alias == m.from_alias))
          (awake_others (session_in roster m.from_alias) roster)
      else m.to_alias ∷ []
]

unfoldable pub repeat_send :
    Env → Backend → SendArgs → Text → Text → Message → Backend × Response Queued
repeat_send env b a from to m =
    let roster = stored_roster b in
    let targets = repeat_targets b roster m in
    let passed =
      pass_session (fan_out b m.id targets) m.id m.to_alias (session_in roster m.from_alias)
        roster in
    if not (m.from_alias == from && same_payload m a to) then (b, fail operation_conflict) else (
      if not (is_some (get_awaiting passed m.id)) && is_directed_ask m.to_alias m.kind
          then open_ask env passed m.id m.ttl_s a.reply_by_s m.ts
          else passed,
      ok (record { msg_id = m.id; recipients = targets; idempotent_replay = true }),
    )

abbrev pub is_own_session : Map RegistryEntry → Text → Text → Bool
is_own_session roster from to = elim (truthy (session_in roster from)) [
  | none ↦ false
  | some sid ↦
      not (to == txt "*") && not (is_project_address to) && same_session (session_in roster to) sid
]

-- The guards of a send that is new, in the order of the code.
unfoldable pub offline_refuses : Env → Map RegistryEntry → SendArgs → Text → Text → Option Code
offline_refuses env roster a from to =
    if not (elim a.kind [ none ↦ false | some k ↦ is_sendable k ])
    then some bad_args
    else if env.strict && not (is_some (Map.get roster from))
    then some not_registered
    else if not (is_project_address to) && not (to == txt "*") && not (is_some (Map.get roster to))
    then some no_peer
    else if is_own_session roster from to
    then some self_send
    else if not (may_target env to from)
    then some not_allowed
    else none

abbrev pub thread_of : SendArgs → Text → Kind → Text → Option Text
thread_of a to kind id = elim a.conversation_id [
  | some c ↦ some c
  | none ↦ if is_directed_ask to kind then some (txt "conv-" ++ id) else none
]

-- The arguments that are kept for the broker: the address in its canonical form, the thread and the
-- message id filled in.
abbrev pub intent_args : SendArgs → Text → Text → Kind → Text → SendArgs
intent_args a from to kind id = record a {
  from_alias = some from;
  to = some to;
  conversation_id = thread_of a to kind id;
  message_id = some id;
}

abbrev pub offline_message : Env → SendArgs → Text → Text → Text → Kind → Text → Message
offline_message env a operation_id from to kind id = record (make_message id kind from to env.now) {
  operation_id = some operation_id;
  body = or_default a.body [];
  conversation_id = thread_of a to kind id;
  context_ptr = a.context_ptr;
  ttl_s = a.ttl_s;
  reply_by_s =
      if is_directed_ask to kind then reply_by_or a.reply_by_s env.default_reply_by_s else none;
}

-- The intent, then the message with its route, then the deliveries.
unfoldable pub queue_send :
    Env → Backend → SendArgs → Text → Text → Text → Kind → Text → Backend × Response Queued
queue_send env b a operation_id from to kind id =
    let roster = stored_roster b in
    let sid = session_in roster from in
    let queued = queue_outbound b (record {
      operation_id = operation_id;
      from_alias = from;
      args = intent_args a from to kind id;
      created_at = env.now;
    }) in
    let targets = if to == txt "*" then awake_others sid roster else to ∷ [] in
    let appended =
      append_routed queued (offline_message env a operation_id from to kind id) targets in
    let passed = pass_session (fan_out appended id targets) id to sid roster in
    (
      if is_directed_ask to kind
          then open_ask env passed id a.ttl_s a.reply_by_s env.now
          else passed,
      ok (record { msg_id = id; recipients = targets; idempotent_replay = false }),
    )

-- `hash` is the first 16 hexadecimal digits of the SHA-256 of a text.
unfoldable pub degraded_send :
    Env → (Text → Text) → Backend → SendArgs → Text → Text → Text → Backend × Response Queued
unfolding repeat_send offline_refuses queue_send
degraded_send env hash b a operation_id from to =
    let address = canonical to in
    if is_empty (trim (or_default a.body []))
    then (b, fail empty_send)
    else if from == txt "ipc"
    then (b, fail bad_args)
    else elim (get_by_operation_id b operation_id) [
      | some m ↦ repeat_send env b a from address m
      | none ↦ elim (offline_refuses env (stored_roster b) a from address) [
        | some code ↦ (b, fail code)
        | none ↦ elim a.kind [
          | none ↦ (b, fail bad_args)
          | some kind ↦
              queue_send env b a operation_id from address kind
                (or_default a.message_id (txt "msg-" ++ hash operation_id))
        ]
      ]
    ]
