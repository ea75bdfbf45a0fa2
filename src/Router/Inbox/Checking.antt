-- ===== src/Router/Inbox/Checking.antt =====
-- Looking into a mailbox through `check` of src/broker/router.ts.
use claude_ipc.Base.{
  Text, ◌==◌, txt, Bool, true, false, ◌&&◌, ◌||◌, not, Option, none, some, List, [], ◌∷◌, ◌++◌,
  or_default, if◌then◌else◌,
}
use claude_ipc.Models.{Message, ClosedReason, parked, Awaiting}
use claude_ipc.Storage.State.{Backend}
use claude_ipc.Storage.Inbox.{pending, pending_consume, recoverable, mark_consumed}
use claude_ipc.Storage.Asks.{get_awaiting}
use claude_ipc.Broker.{Broker, Env}
use claude_ipc.Registry.{truthy, session_has_capability, ipc_host}
use claude_ipc.Router.Guards.{
  bad_args, unauthorized, managed_consume, Response, ok, fail, notify_all, owns, alias_of_token,
  session_boxes, dedupe_by_id, project_mailboxes, is_project_member, still_owed_by,
}
use claude_ipc.Router.Consent.{with_backend}

-- `askState`: still open, or why the ask was closed.
pub data AskState : Type 0 where
  still_open : AskState
  closed_as : ClosedReason → AskState

pub record Annotated : Type 0 where
  pub message : Message
  pub ask_state : Option AskState

abbrev pub ask_state_of : Option Awaiting → AskState
ask_state_of none = still_open
ask_state_of (some a) =
    if a.closed then closed_as (or_default a.closed_reason parked) else still_open

abbrev pub annotate : Backend → Message → Annotated
annotate b m = record {
  message = m;
  ask_state =
      if not (m.from_alias == txt "ipc") || m.terminal then none else elim (truthy m.corr_id) [
        | none ↦ none
        | some c ↦ some (ask_state_of (get_awaiting b c))
      ];
}

unfoldable pub annotate_chases : Backend → List Message → List Annotated
annotate_chases b [] = []
annotate_chases b (m ∷ ms) = annotate b m ∷ annotate_chases b ms

-- `boxes.flatMap(…)` of an operation that changes the storage.
unfoldable pub over_boxes :
    (Backend → Text → Backend × List Message) → Backend → List Text → Backend × List Message
over_boxes read b [] = (b, [])
over_boxes read b (addr ∷ boxes) =
    let (b', ms) = read b addr in let (b'', rest) = over_boxes read b' boxes in (b'', ms ++ rest)

-- `boxes.flatMap(…)` of a reading.
unfoldable pub read_boxes : (Backend → Text → List Message) → Backend → List Text → List Message
read_boxes read b [] = []
read_boxes read b (addr ∷ boxes) = read b addr ++ read_boxes read b boxes

abbrev pub consume_each : Backend → List Message → Backend
consume_each b [] = b
consume_each b (m ∷ ms) = consume_each (mark_consumed b m.id m.to_alias) ms

abbrev pub is_managed_host : Env → Broker → Option Text → Bool
is_managed_host env b token = elim (truthy (alias_of_token env b token)) [
  | none ↦ false
  | some self ↦ session_has_capability b self ipc_host
]

-- Anyone may look into a project's mailboxes; a member, unless it is a managed host, may consume.
unfoldable pub check_project :
    Env → Broker → Text → Bool → Option Text → Broker × Response (List Annotated)
unfolding read_boxes annotate_chases
check_project env b dir true token =
    let visible =
      still_owed_by env b (read_boxes pending b.backend (project_mailboxes b dir false))
        (alias_of_token env b token) in
    let s = consume_each b.backend visible in
    if is_managed_host env b token
    then (b, fail managed_consume)
    else if not (is_project_member env b token dir)
    then (b, fail unauthorized)
    else (with_backend b s, ok (annotate_chases s visible))
check_project env b dir false token = (
  b,
  ok (
      annotate_chases b.backend (
        still_owed_by env b (read_boxes recoverable b.backend (project_mailboxes b dir true))
          (alias_of_token env b token))),
)

unfoldable pub check_own :
    Env → Broker → Text → Bool → Option Text → Broker × Response (List Annotated)
unfolding over_boxes read_boxes annotate_chases
check_own env b alias consume token =
    let boxes = session_boxes env b alias in
    let (s, taken) = over_boxes pending_consume b.backend boxes in
    if not (owns b token alias)
    then (b, fail unauthorized)
    else if consume && is_managed_host env b token
    then (b, fail managed_consume)
    else if consume
    then (notify_all (with_backend b s) boxes, ok (annotate_chases s (dedupe_by_id taken)))
    else (b, ok (annotate_chases b.backend (dedupe_by_id (read_boxes recoverable b.backend boxes))))

unfoldable pub check :
    Env
    → Broker
    → Option Text
    → Bool
    → Option Text
    → Option Text
    → Broker × Response (List Annotated)
unfolding check_project check_own
check env b alias consume project token = elim (truthy project) [
  | some dir ↦ check_project env b dir consume token
  | none ↦ elim (truthy alias) [
    | none ↦ (b, fail bad_args)
    | some self ↦ check_own env b self consume token
  ]
]
