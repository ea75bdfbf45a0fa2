-- ===== src/Router/Sessions.antt =====
-- `register`, `heartbeat`, `leave`, `prune`, `supersede`, `reconcile` and `reconcilePendingOutbox` of
-- src/broker/router.ts.
use claude_ipc.Base.{
  ℕ, ◌-◌, ltb, eqb, Text, ◌==◌, txt, contains, Bool, true, false, ◌&&◌, not, Option, none, some,
  List, [], ◌∷◌, ◌++◌, length, or_default, if◌then◌else◌,
}
use claude_ipc.Models.{Message, OutboundIntent, ContextPtr}
use claude_ipc.Storage.Messages.{
  get_message, pending_outbound, pending_outbound_all, delete_outbound,
}
use claude_ipc.Storage.Projects.{mark_superseded}
use claude_ipc.Broker.{Broker, Env}
use claude_ipc.Aliases.{sanitize_alias}
use claude_ipc.Registry
use claude_ipc.Registry.{
  RegisterInfo, Registered, truthy, text_is, token_of, prune_offline, restore_outbox_owner,
  drop_restored_outbox_owner,
}
use claude_ipc.Router.Guards.{
  Code, bad_args, unauthorized, alias_taken, operation_conflict, empty_send, self_send, not_allowed,
  message_conflict, not_found, Response, ok, fail, is_reserved, owns, alias_of_token, session_boxes,
}
use claude_ipc.Router.Send.{SendResult, send}
use claude_ipc.Router.Consent.{with_backend}

pub record RegisterArgs : Type 0 where
  pub alias : Option Text
  pub session_id : Option Text
  pub cwd : Option Text
  pub caps : Option (List Text)
  pub pid : Option ℕ
  pub tty : Option Text
  pub service : Bool

-- `a.tty ?? (a.pid ? ttyForPid(a.pid) : null)`
abbrev pub tty_of : Env → Option Text → Option ℕ → Option Text
tty_of env (some t) pid = some t
tty_of env none none = none
tty_of env none (some p) = if eqb p 0 then none else env.tty_for_pid p

abbrev pub register_info : Env → RegisterArgs → Text → RegisterInfo
register_info env a session_id = record {
  session_id = session_id;
  cwd = or_default a.cwd [];
  caps = a.caps;
  pid = a.pid;
  tty = tty_of env a.tty a.pid;
  service = a.service;
}

-- The token goes back to the owner who just registered.
abbrev pub registered : Broker × Registered → Broker × Response Registered
registered (b, r) = (b, if r.ok then ok r else fail alias_taken)

unfoldable pub register_as :
    Env → Broker → RegisterArgs → Text → Text → Option Text → Broker × Response Registered
register_as env b a self session_id token =
    if is_reserved self
    then (b, fail bad_args)
    else if self == txt "user" && not a.service
    then (b, fail bad_args)
    else if not (text_is (sanitize_alias self) self)
    then (b, fail bad_args)
    else registered (Registry.register env b self (register_info env a session_id) token)

unfoldable pub register : Env → Broker → RegisterArgs → Option Text → Broker × Response Registered
unfolding register_as
register env b a token = elim (truthy a.alias) [
  | none ↦ (b, fail bad_args)
  | some self ↦ elim (truthy a.session_id) [
    | none ↦ (b, fail bad_args)
    | some sid ↦ register_as env b a self sid token
  ]
]

unfoldable pub heartbeat_as : Env → Broker → Option Text → Option Text → Broker × Response Bool
heartbeat_as env b alias token = elim (truthy alias) [
  | none ↦ (b, ok true)
  | some self ↦
      if not (owns b token self)
      then (b, fail unauthorized)
      else (Registry.heartbeat env b self, ok true)
]

unfoldable pub leave_as : Broker → Option Text → Option Text → Broker × Response Bool
leave_as b alias token = elim (truthy alias) [
  | none ↦ (b, ok true)
  | some self ↦
      if not (owns b token self) then (b, fail unauthorized) else (Registry.leave b self, ok true)
]

-- A time before the epoch is 0: no row was last seen before either.
unfoldable pub prune : Env → Broker → Option ℕ → Broker × ℕ
prune env b offline_for_s = prune_offline env b (env.now - or_default offline_for_s 86400)

abbrev pub own_boxes : Env → Broker → Option Text → List Text
own_boxes env b token = elim (truthy (alias_of_token env b token)) [
  | none ↦ []
  | some self ↦ session_boxes env b self
]

-- The guards of `supersede` once both messages are known to exist.
unfoldable pub supersede_with :
    Env → Broker → Text → Text → Message → Message → Option Text → Broker × Response Bool
supersede_with env b old by_id older later token =
    if ltb later.ts older.ts
    then (b, fail bad_args)
    else if not (
        contains (own_boxes env b token) older.from_alias
        && contains (own_boxes env b token) later.from_alias)
    then (b, fail unauthorized)
    else (with_backend b (mark_superseded b.backend old by_id), ok true)

unfoldable pub supersede_ids : Env → Broker → Text → Text → Option Text → Broker × Response Bool
unfolding supersede_with
supersede_ids env b old by_id token =
    if old == by_id then (b, fail bad_args) else elim (get_message b.backend old) [
      | none ↦ (b, fail not_found)
      | some older ↦ elim (get_message b.backend by_id) [
        | none ↦ (b, fail not_found)
        | some later ↦ supersede_with env b old by_id older later token
      ]
    ]

unfoldable pub supersede :
    Env → Broker → Option Text → Option Text → Option Text → Broker × Response Bool
unfolding supersede_ids
supersede env b old by_id token = elim (truthy old) [
  | none ↦ (b, fail bad_args)
  | some o ↦ elim (truthy by_id) [
    | none ↦ (b, fail bad_args)
    | some i ↦ supersede_ids env b o i token
  ]
]

-- The refusals that a retry cannot cure.
abbrev pub is_permanent : Code → Bool
is_permanent bad_args = true
is_permanent empty_send = true
is_permanent not_allowed = true
is_permanent self_send = true
is_permanent operation_conflict = true
is_permanent message_conflict = true
is_permanent _ = false

pub data Outcome : Type 0 where
  sent : Text → SendResult → Outcome
  refused : Text → Code → Bool → Outcome

abbrev pub drop_intent : Bool → Broker → Text → Broker
drop_intent true b operation_id = with_backend b (delete_outbound b.backend operation_id)
drop_intent false b operation_id = b

-- One intent, by what its send came to.
abbrev pub settle_intent : Text → Broker × Response SendResult → Broker × Outcome
settle_intent operation_id (b, ok r) = (drop_intent true b operation_id, sent operation_id r)
settle_intent operation_id (b, fail c) =
    (drop_intent (is_permanent c) b operation_id, refused operation_id c (is_permanent c))

unfoldable pub reconcile_each :
    Env → Broker → Option Text → List OutboundIntent → Broker × List Outcome
reconcile_each env b token [] = (b, [])
reconcile_each env b token (i ∷ intents) =
    let (b', o) = settle_intent i.operation_id (send env b i.args token) in
    let (b'', os) = reconcile_each env b' token intents in (b'', o ∷ os)

unfoldable pub reconcile_as :
    Env → Broker → Text → Option Text → Broker × Response (List Outcome × ℕ)
unfolding reconcile_each
reconcile_as env b alias token =
    let (b', os) = reconcile_each env b token (pending_outbound b.backend alias) in
    if not (owns b token alias)
    then (b, fail unauthorized)
    else (b', ok (os, length (pending_outbound b'.backend alias)))

unfoldable pub reconcile :
    Env → Broker → Option Text → Option Text → Broker × Response (List Outcome × ℕ)
unfolding reconcile_as
reconcile env b alias token = elim (truthy alias) [
  | none ↦ (b, fail bad_args)
  | some self ↦ reconcile_as env b self token
]

abbrev pub context_session : Text → Option ContextPtr → Text
context_session from none = txt "outbox:" ++ from
context_session from (some c) = c.session_id

abbrev pub context_cwd : Option ContextPtr → Text
context_cwd none = []
context_cwd (some c) = c.cwd

-- One intent of the outbox at start-up. `token_file` reads the file that keeps an alias's token.
unfoldable pub reconcile_intent : Env → (Text → Option Text) → Broker → OutboundIntent → Broker
unfolding reconcile
reconcile_intent env token_file b i = elim (token_of b i.from_alias) [
  | some t ↦ (reconcile env b (some i.from_alias) (some t)).0
  | none ↦
      let (b', t) =
        restore_outbox_owner env b i.from_alias (context_session i.from_alias i.args.context_ptr)
          (context_cwd i.args.context_ptr) (truthy (token_file i.from_alias)) in
      drop_restored_outbox_owner (reconcile env b' (some i.from_alias) (some t)).0 i.from_alias t
]

unfoldable pub reconcile_all : Env → (Text → Option Text) → Broker → List OutboundIntent → Broker
unfolding reconcile_intent
reconcile_all env token_file b [] = b
reconcile_all env token_file b (i ∷ intents) =
    reconcile_all env token_file (reconcile_intent env token_file b i) intents

-- How many intents were attempted, and how many remain.
unfoldable pub reconcile_pending_outbox : Env → (Text → Option Text) → Broker → Broker × (ℕ × ℕ)
unfolding reconcile_all
reconcile_pending_outbox env token_file b =
    let intents = pending_outbound_all b.backend in
    let b' = reconcile_all env token_file b intents in
    (b', (length intents, length (pending_outbound_all b'.backend)))
