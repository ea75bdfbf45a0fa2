-- ===== src/Router/Inbox.antt =====
-- Reading a mailbox through src/broker/router.ts: `check`, `deliver`, `lease` and `ackDelivery`, for
-- the boxes of a session and for those of a project.
pub mod Checking
use claude_ipc.Base.{
  ℕ, suc, ◌+◌, Text, ◌==◌, txt, contains, Bool, true, false, ◌&&◌, ◌||◌, not, Option, none, some,
  List, [], ◌∷◌, ◌++◌, keep, length, ltb, some_of, or_default, max, if◌then◌else◌,
}
use claude_ipc.Models.{Message, DeliveredVia, channel, hook, ClosedReason, parked, Awaiting}
use claude_ipc.Storage.State.{Backend, is_pending, last_event_seq}
use claude_ipc.Storage.Messages.{get_message}
use claude_ipc.Storage.Inbox.{pending, pending_consume, recoverable, mark_consumed, deliveries_for}
use claude_ipc.Storage.Leases
use claude_ipc.Storage.Leases.{claim_for_delivery, lease_for_delivery}
use claude_ipc.Storage.Asks.{get_awaiting}
use claude_ipc.Storage.Projects.{project_surfaced, mark_project_surfaced}
use claude_ipc.Broker.{Broker, Env}
use claude_ipc.Registry.{truthy, session_has_capability, ipc_host, has_alias}
use claude_ipc.Router.Guards.{
  bad_args, unauthorized, managed_consume, not_registered, Response, ok, fail, notify_all, owns,
  alias_of_token, session_boxes, dedupe_by_id, project_mailboxes, is_project_member, still_owed_by,
}
use claude_ipc.Router.Consent.{with_backend}
pub use claude_ipc.Router.Inbox.Checking.{
  AskState, still_open, closed_as, Annotated, ask_state_of, annotate, consume_each, is_managed_host,
}
unfoldable pub use claude_ipc.Router.Inbox.Checking.{
  annotate_chases, over_boxes, read_boxes, check_project, check_own, check,
}

abbrev pub claim_via : Option DeliveredVia → Backend → Text → Backend × List Message
claim_via via b addr = claim_for_delivery b addr (some (or_default via hook))

unfoldable pub deliver_project :
    Env → Broker → Text → Option DeliveredVia → Option Text → Broker × Response (List Annotated)
unfolding over_boxes annotate_chases
deliver_project env b dir via token =
    let (s, ms) = over_boxes (claim_via via) b.backend (project_mailboxes b dir false) in
    let c = with_backend b s in
    if not (is_project_member env b token dir)
    then (b, fail unauthorized)
    else (c, ok (annotate_chases s (still_owed_by env c ms (alias_of_token env c token))))

unfoldable pub deliver_own :
    Env → Broker → Text → Option DeliveredVia → Option Text → Broker × Response (List Annotated)
unfolding over_boxes annotate_chases
deliver_own env b alias via token =
    let boxes = session_boxes env b alias in
    let (s, ms) = over_boxes (claim_via via) b.backend boxes in
    if not (owns b token alias)
    then (b, fail unauthorized)
    else (notify_all (with_backend b s) boxes, ok (annotate_chases s (dedupe_by_id ms)))

unfoldable pub deliver :
    Env
    → Broker
    → Option Text
    → Option DeliveredVia
    → Option Text
    → Option Text
    → Broker × Response (List Annotated)
unfolding deliver_project deliver_own
deliver env b alias via project token = elim (truthy project) [
  | some dir ↦ deliver_project env b dir via token
  | none ↦ elim (truthy alias) [
    | none ↦ (b, fail bad_args)
    | some self ↦ deliver_own env b self via token
  ]
]

pub record Leased : Type 0 where
  pub lease_id : Text
  pub lease_until : ℕ
  pub messages : List Annotated

abbrev pub lease_until_of : Env → Option ℕ → ℕ
lease_until_of env lease_s = env.now + max 1 (or_default lease_s 30)

-- A lease of project mail sets nothing. The caller's alias is there once it has shown membership.
unfoldable pub lease_project :
    Env → Broker → Text → Text → ℕ → Option Text → Broker × Response Leased
unfolding read_boxes annotate_chases
lease_project env b dir lease_id until token =
    let self = or_default (alias_of_token env b token) [] in
    if not (is_project_member env b token dir) then (b, fail unauthorized) else (
      b,
      ok (record {
        lease_id = lease_id;
        lease_until = until;
        messages = annotate_chases b.backend (
            keep (λ m. not (project_surfaced b.backend m.id self))
              (still_owed_by env b (read_boxes pending b.backend (project_mailboxes b dir false))
                (some self)));
      }),
    )

abbrev pub lease_box :
    Env → Option DeliveredVia → Text → ℕ → Backend → Text → Backend × List Message
lease_box env via lease_id until b addr =
    lease_for_delivery b addr (some (or_default via channel)) lease_id env.now until

unfoldable pub lease_own :
    Env → Broker → Text → Option DeliveredVia → Text → ℕ → Option Text → Broker × Response Leased
unfolding over_boxes annotate_chases
lease_own env b alias via lease_id until token =
    let (s, ms) =
      over_boxes (lease_box env via lease_id until) b.backend (session_boxes env b alias) in
    if not (owns b token alias) then (b, fail unauthorized) else (
      with_backend b s,
      ok (record {
        lease_id = lease_id;
        lease_until = until;
        messages = annotate_chases s (dedupe_by_id ms);
      }),
    )

unfoldable pub lease :
    Env
    → Broker
    → Option Text
    → Option Text
    → Option DeliveredVia
    → Option Text
    → Option ℕ
    → Option Text
    → Broker × Response Leased
unfolding lease_project lease_own
lease env b alias project via lease_id lease_s token = elim (truthy lease_id) [
  | none ↦ (b, fail bad_args)
  | some id ↦ elim (truthy project) [
    | some dir ↦ lease_project env b dir id (lease_until_of env lease_s) token
    | none ↦ elim (truthy alias) [
      | none ↦ (b, fail bad_args)
      | some self ↦ lease_own env b self via id (lease_until_of env lease_s) token
    ]
  ]
]

-- Some delivery of the message to one of the boxes is out of the pending set.
abbrev pub is_past : Backend → List Text → Text → Bool
is_past b boxes msg_id =
    some_of (λ d. contains boxes d.to_alias && not (is_pending d.state)) (deliveries_for b msg_id)

-- One message id of a project acknowledgement: the storage, and whether it counts.
unfoldable pub ack_shared : Backend → List Text → Text → Text → Backend × Bool
ack_shared b boxes self msg_id = elim (get_message b msg_id) [
  | none ↦ (b, false)
  | some m ↦
      if is_past b (m.to_alias ∷ []) msg_id
      then (b, true)
      else if not (contains boxes m.to_alias) || project_surfaced b msg_id self
      then (b, false)
      else (mark_project_surfaced b msg_id self, true)
]

abbrev pub ack_boxes : Backend → List Text → Text → Text → Backend × ℕ
ack_boxes b [] lease_id msg_id = (b, 0)
ack_boxes b (addr ∷ boxes) lease_id msg_id =
    let (b', n) = Leases.ack_delivery b addr lease_id (msg_id ∷ []) in
    let (b'', rest) = ack_boxes b' boxes lease_id msg_id in (b'', n + rest)

-- One message id of a session's acknowledgement.
unfoldable pub ack_owned : Backend → List Text → Text → Text → Backend × Bool
ack_owned b boxes lease_id msg_id =
    let (b', n) = ack_boxes b boxes lease_id msg_id in
    (b', if ltb 0 n then true else is_past b' boxes msg_id)

unfoldable pub ack_each : (Backend → Text → Backend × Bool) → Backend → List Text → Backend × ℕ
ack_each ack b [] = (b, 0)
ack_each ack b (msg_id ∷ msg_ids) =
    let (b', counts) = ack b msg_id in
    let (b'', n) = ack_each ack b' msg_ids in (b'', if counts then suc n else n)

abbrev pub ack_project : Env → Broker → Text → List Text → Option Text → Broker × Response ℕ
ack_project env b dir msg_ids token =
    let self = or_default (alias_of_token env b token) [] in
    let boxes = project_mailboxes b dir false in
    let (s, n) = ack_each (λ t id. ack_shared t boxes self id) b.backend msg_ids in
    if not (is_project_member env b token dir)
    then (b, fail unauthorized)
    else (with_backend b s, ok n)

abbrev pub ack_session : Env → Broker → Text → Text → List Text → Option Text → Broker × Response ℕ
ack_session env b alias lease_id msg_ids token =
    let boxes = session_boxes env b alias in
    let (s, n) = ack_each (λ t id. ack_owned t boxes lease_id id) b.backend msg_ids in
    if not (owns b token alias) then (b, fail unauthorized) else (with_backend b s, ok n)

-- `ackDelivery`; `msg_ids` is `none` when it is not an array.
unfoldable pub acknowledge :
    Env
    → Broker
    → Option Text
    → Option Text
    → Option Text
    → Option (List Text)
    → Option Text
    → Broker × Response ℕ
unfolding ack_each ack_shared ack_owned
acknowledge env b alias project lease_id none token = (b, fail bad_args)
acknowledge env b alias project lease_id (some ids) token = elim (truthy lease_id) [
  | none ↦ (b, fail bad_args)
  | some id ↦ elim (truthy project) [
    | some dir ↦ ack_project env b dir ids token
    | none ↦ elim (truthy alias) [
      | none ↦ (b, fail bad_args)
      | some self ↦ ack_session env b self id ids token
    ]
  ]
]

pub record Count : Type 0 where
  pub count : ℕ
  pub seq : ℕ

abbrev pub count_boxes : Backend → List Text → Count
count_boxes b boxes = record {
  count = length (dedupe_by_id (read_boxes recoverable b boxes));
  seq = last_event_seq b boxes;
}

unfoldable pub count : Env → Broker → Option Text → Option Text → Option Text → Response Count
unfolding read_boxes
count env b alias project token = elim (truthy project) [
  | some dir ↦ ok (count_boxes b.backend (project_mailboxes b dir false))
  | none ↦ elim (truthy alias) [
    | none ↦ fail bad_args
    | some self ↦
        if not (has_alias b self)
        then fail not_registered
        else if not (owns b token self)
        then fail unauthorized
        else ok (count_boxes b.backend (session_boxes env b self))
  ]
]
