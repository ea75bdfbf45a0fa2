-- ===== src/Router/Send.antt =====
-- `send` of src/broker/router.ts: the guards in their order, the idempotent replay, the fan-out.
pub mod Payload
pub use claude_ipc.Router.Send.Payload.{
  PeerView, SendResult, is_hex, all_hex, is_message_id, kind_eq, kind_is, same_number, same_text,
  same_context, other_session, broadcast_targets, fan_out, pass_all, pass_own, is_directed_ask,
  reply_by_or, or_else, deadline, release_after, requested_reply_by, same_payload, replay_targets,
  reopen, awaited_reply_by,
}
use claude_ipc.Base.{
  ℕ, suc, ◌+◌, Text, ◌==◌, is_empty, txt, contains, trim, starts_with, drop, length, leb, eqb, Bool,
  true, false, ◌&&◌, ◌||◌, not, Option, none, some, List, [], ◌∷◌, ◌++◌, keep, is_some, or_default,
  if◌then◌else◌,
}
use claude_ipc.Base.Map
use claude_ipc.Models.{
  Message, Kind, inform, query, request, response, Awaiting, ContextPtr, SendArgs, RegistryEntry,
  PeerStatus, make_message, is_ask,
}
use claude_ipc.ProjectAddress.{is_project_address, project_address, project_path, within_project}
use claude_ipc.Storage.State.{Backend}
use claude_ipc.Storage.Messages.{append_routed, get_message, get_by_operation_id, route_for}
use claude_ipc.Storage.Inbox.{enqueue}
use claude_ipc.Storage.Asks.{open_awaiting, get_awaiting}
use claude_ipc.Storage.Projects.{pass_project}
use claude_ipc.Broker.{Broker, Env}
use claude_ipc.Registry
use claude_ipc.Registry.{truthy, text_is, is_offline, list, live_aliases, has_alias, touch_by_act}
use claude_ipc.Router.Guards.{
  Code, bad_args, unauthorized, operation_conflict, not_registered, empty_send, no_peer, self_send,
  not_allowed, message_conflict, Response, ok, fail, is_reserved, notify, notify_all, owns,
  session_boxes, session_id_of, in_session,
}

-- A retry under an operation id that has its message already.
unfoldable pub replay :
    Env → Broker → SendArgs → Text → Text → Message → Broker × Response SendResult
replay env b a from to m =
    if not (m.from_alias == from)
    then (b, fail operation_conflict)
    else if not (same_payload m a to)
    then (b, fail operation_conflict)
    else let targets = replay_targets env b m in
      let queued : Broker = record b { backend = fan_out b.backend m.id targets } in
      let reopened = reopen env (pass_own env queued m.id m.to_alias m.from_alias) m a in
      let reply_by = awaited_reply_by (get_awaiting reopened.backend m.id) in
      (
        notify_all reopened targets,
        ok (record {
          msg_id = m.id;
          recipients = targets;
          conversation_id = m.conversation_id;
          reply_by_s = reply_by;
          release_after_s = release_after env reply_by;
          recipient = none;
          idempotent_replay = true;
        }),
      )

abbrev pub is_sendable : Kind → Bool
is_sendable response = false
is_sendable _ = true

abbrev pub may_target : Env → Text → Text → Bool
may_target env to from = elim (Map.get env.allowlist to) [
  | none ↦ true
  | some allowed ↦ to == txt "*" || contains allowed from
]

abbrev pub is_self_send : Env → Broker → Text → Text → Bool
is_self_send env b from to = elim (truthy (session_id_of env b from)) [
  | none ↦ false
  | some sid ↦ not (to == txt "*") && not (is_project_address to) && in_session env b to sid
]

-- The guards from strict identity to the allowlist, in the order of the code.
unfoldable pub refuses : Env → Broker → SendArgs → Text → Text → Option Code
refuses env b a from to =
    if env.strict && not (has_alias b from)
    then some not_registered
    else if is_empty (trim (or_default a.body []))
    then some empty_send
    else if not (elim a.kind [ none ↦ false | some k ↦ is_sendable k ])
    then some bad_args
    else if not (is_project_address to) && not (to == txt "*") && not (has_alias b to)
    then some no_peer
    else if is_self_send env b from to
    then some self_send
    else if not (may_target env to from)
    then some not_allowed
    else none

-- The message that a send appends.
abbrev pub sent_message : Env → SendArgs → Text → Text → Kind → Text → Message
sent_message env a from to kind id = record (make_message id kind from to env.now) {
  operation_id = a.operation_id;
  body = or_default a.body [];
  conversation_id = elim a.conversation_id [
    | some c ↦ some c
    | none ↦ if is_directed_ask to kind then some (txt "conv-" ++ id) else none
  ];
  ttl_s = a.ttl_s;
  reply_by_s =
      if is_directed_ask to kind then reply_by_or a.reply_by_s env.default_reply_by_s else none;
  context_ptr = a.context_ptr;
}

-- The second look at the operation id, after the append.
abbrev pub committed_elsewhere : Broker → SendArgs → Message → Bool
committed_elsewhere b a m = elim (truthy a.operation_id) [
  | none ↦ false
  | some o ↦ elim (get_by_operation_id b.backend o) [
    | none ↦ true
    | some c ↦ not (
        c.id == m.id
        && c.from_alias == m.from_alias
        && c.to_alias == m.to_alias
        && kind_eq c.kind m.kind
        && c.body == m.body
        && same_text c.conversation_id m.conversation_id
        && same_number c.ttl_s m.ttl_s
        && same_number c.reply_by_s m.reply_by_s
        && same_context c.context_ptr m.context_ptr)
  ]
]

-- The live sessions that work in a project hear of its mail.
abbrev pub notify_members : Env → Broker → List RegistryEntry → Text → Broker
notify_members env b [] to = b
notify_members env b (e ∷ es) to =
    notify_members env
      (if not (is_offline e.status) && within_project e.cwd (project_path to)
        then notify b e.alias
        else b)
      es to

abbrev pub peer_view : Option RegistryEntry → Option PeerView
peer_view none = none
peer_view (some e) = some (record { status = e.status; last_seen = e.last_seen })

-- What a send leaves and answers once its message is appended.
unfoldable pub route :
    Env → Broker → SendArgs → Text → Text → Message → List Text → Broker × Response SendResult
route env b a from to m targets =
    let queued : Broker = record b { backend = fan_out b.backend m.id targets } in
    let told : Broker =
      if is_project_address to then notify_members env queued (list env queued) to else queued in
    let asked : Broker =
      if is_directed_ask to m.kind
      then record told {
        backend =
            open_awaiting told.backend m.id (deadline env.now (or_else a.ttl_s env.default_ttl_s))
              (reply_by_or a.reply_by_s env.default_reply_by_s) env.now;
      }
      else told in
    (
      notify_all asked targets,
      ok (record {
        msg_id = m.id;
        recipients = targets;
        conversation_id = m.conversation_id;
        reply_by_s = m.reply_by_s;
        release_after_s = release_after env m.reply_by_s;
        recipient =
            if not (to == txt "*") && not (is_project_address to)
            then peer_view (Registry.get env asked to)
            else none;
        idempotent_replay = false;
      }),
    )

unfoldable pub commit : Env → Broker → SendArgs → Text → Text → Kind → Broker × Response SendResult
unfolding route
commit env b a from to kind =
    let id = or_default a.message_id (env.new_id b.ids_drawn) in
    let drawn : Broker = record b {
      ids_drawn = if is_some a.message_id then b.ids_drawn else suc b.ids_drawn;
    } in
    if is_some (get_message b.backend id)
    then (drawn, fail message_conflict)
    else let m = sent_message env a from to kind id in
      let targets = if to == txt "*" then broadcast_targets env drawn from else to ∷ [] in
      let appended : Broker = record drawn { backend = append_routed drawn.backend m targets } in
      let passed = pass_own env appended id to from in
      if committed_elsewhere passed a m
      then (passed, fail operation_conflict)
      else route env passed a from to m targets

abbrev pub canonical : Text → Text
canonical to = if is_project_address to then project_address (project_path to) else to

abbrev pub bad_message_id : SendArgs → Bool
bad_message_id a = elim (truthy a.message_id) [ none ↦ false | some i ↦ not (is_message_id i) ]

abbrev pub existing_message : Broker → SendArgs → Option Message
existing_message b a = elim (truthy a.operation_id) [
  | none ↦ none
  | some o ↦ get_by_operation_id b.backend o
]

-- From the replay test on, for a caller that owns its alias.
unfoldable pub send_as : Env → Broker → SendArgs → Text → Text → Broker × Response SendResult
unfolding replay refuses commit
send_as env b a from to = elim (existing_message b a) [
  | some m ↦ replay env b a from to m
  | none ↦ elim (refuses env b a from to) [
    | some code ↦ (b, fail code)
    | none ↦ elim a.kind [ none ↦ (b, fail bad_args) | some kind ↦ commit env b a from to kind ]
  ]
]

unfoldable pub send_to :
    Env → Broker → SendArgs → Option Text → Text → Text → Broker × Response SendResult
unfolding send_as
send_to env b a token from to =
    if bad_message_id a
    then (b, fail bad_args)
    else if is_reserved from
    then (b, fail bad_args)
    else if not (owns b token from)
    then (b, fail unauthorized)
    else send_as env (touch_by_act env b from) a from (canonical to)

unfoldable pub send : Env → Broker → SendArgs → Option Text → Broker × Response SendResult
unfolding send_to
send env b a token = elim (truthy a.from_alias) [
  | none ↦ (b, fail bad_args)
  | some from ↦ elim (truthy a.to) [
    | none ↦ (b, fail bad_args)
    | some to ↦ send_to env b a token from to
  ]
]
