-- ===== src/Router/Consent.antt =====
-- `snooze`, `accept`, `decline` and `cancel` of src/broker/router.ts.
use claude_ipc.Base.{
  Text, ◌==◌, txt, Bool, true, false, ◌&&◌, not, Option, none, some, List, [], ◌∷◌, ◌++◌,
  or_default, if◌then◌else◌,
}
use claude_ipc.Models.{
  Message, Delivery, DeliveryState, queued, delivered, surfaced, persisted, Kind, inform, query,
  request, response, Status, responded, cancelled, make_message,
}
use claude_ipc.ProjectAddress.{is_project_address, project_path}
use claude_ipc.Storage.State.{Backend}
use claude_ipc.Storage.Messages.{get_message, origin_of}
use claude_ipc.Storage.Inbox.{mark_surfaced, set_consent, deliveries_for}
use claude_ipc.Storage.Asks.{close_awaiting, defer_nudge, is_awaiting_open}
use claude_ipc.Storage.Projects.{project_claim, claim_project, release_claim, pass_project}
use claude_ipc.Broker.{Broker, Env}
use claude_ipc.Registry.{touch_by_act, truthy, list}
use claude_ipc.Router.Guards.{
  bad_args, unauthorized, invalid_state, not_an_ask, no_message, Response, ok, fail, notify, owns,
  claim_still_held, not_actable,
}
use claude_ipc.Router.Send.{notify_members}
use claude_ipc.Router.Replies.{consume, post}

abbrev pub with_backend : Broker → Backend → Broker
with_backend b s = record b { backend = s }

-- The two arguments that the verbs on one's own mail share, with the guards up to `notActable`.
abbrev pub on_own_mail :
    {A : Type 0}
    → Env
    → Broker
    → Option Text
    → Option Text
    → Option Text
    → (Broker → Text → Text → Broker × Response A)
    → Broker × Response A
on_own_mail env b alias msg_id token act = elim (truthy alias) [
  | none ↦ (b, fail bad_args)
  | some self ↦ elim (truthy msg_id) [
    | none ↦ (b, fail bad_args)
    | some id ↦
        if not (owns b token self)
        then (b, fail unauthorized)
        else elim (not_actable env (touch_by_act env b self) id self) [
          | some code ↦ (touch_by_act env b self, fail code)
          | none ↦ act (touch_by_act env b self) self id
        ]
  ]
]

abbrev pub surface_own : Env → Broker → Text → Text → Broker × Response Bool
surface_own env b self id =
    let (s, done) = mark_surfaced b.backend id self in
    if not done
    then (with_backend b s, fail invalid_state)
    else (with_backend b (defer_nudge s id env.now), ok true)

unfoldable pub snooze :
    Env → Broker → Option Text → Option Text → Option Text → Broker × Response Bool
snooze env b alias msg_id token = on_own_mail env b alias msg_id token (surface_own env)

pub record AcceptResult : Type 0 where
  pub accepted : Bool
  pub claimed_by : Option Text

-- The claim of a session that has gone is freed.
unfoldable pub free_stale : Env → Broker → Text → Text → Backend
free_stale env b self id = elim (truthy (project_claim b.backend id)) [
  | none ↦ b.backend
  | some holder ↦
      if not (holder == self) && not (claim_still_held env b holder)
      then release_claim b.backend id
      else b.backend
]

unfoldable pub claim : Env → Broker → Text → Text → Broker × Response AcceptResult
unfolding free_stale
claim env b self id =
    let (s, won) = claim_project (free_stale env b self id) id self in
    (
      with_backend b s,
      ok (record { accepted = won; claimed_by = if won then some self else project_claim s id }),
    )

abbrev pub to_project : Option Message → Bool
to_project none = false
to_project (some m) = is_project_address m.to_alias

unfoldable pub accept_own : Env → Broker → Text → Text → Broker × Response AcceptResult
unfolding claim
accept_own env b self id = if to_project (get_message b.backend id) then claim env b self id else (
  with_backend b (set_consent b.backend id self true),
  ok (record { accepted = true; claimed_by = none }),
)

unfoldable pub accept :
    Env → Broker → Option Text → Option Text → Option Text → Broker × Response AcceptResult
unfolding accept_own
accept env b alias msg_id token = on_own_mail env b alias msg_id token (accept_own env)

pub data DeclineResult : Type 0 where
  passed declined : DeclineResult

-- A notice of the broker, or a refusal, about an ask: the fields that they share.
abbrev pub about : Env → Broker → Kind → Text → Text → Text → Message → Message
about env b kind from to corr origin =
    record (make_message (env.new_id b.ids_drawn) kind from to env.now) {
      corr_id = some corr;
      conversation_id = origin.conversation_id;
    }

abbrev pub passed_text : Text → Text → Option Text → Message → Text
passed_text from id reason origin =
    txt "[claude-ipc] PASSED — \""
    ++ from
    ++ txt "\" stepped back from "
    ++ id
    ++ elim (truthy reason) [ none ↦ [] | some r ↦ txt ": " ++ r ]
    ++ txt ". It was addressed to "
    ++ project_path origin.to_alias
    ++ txt ", not to them, so it stays open for the others."

abbrev pub passed_note : Env → Broker → Text → Text → Option Text → Message → Message
passed_note env b from id reason origin =
    record (about env b inform (txt "ipc") origin.from_alias id origin) {
      status = some Status.ok;
      terminal = false;
      body = passed_text from id reason origin;
    }

abbrev pub decline_message : Env → Broker → Text → Text → Option Text → Message → Message
decline_message env b from id reason origin =
    record (about env b response from origin.from_alias id origin) {
      status = some Status.error;
      error_code = some (txt "declined");
      terminal = true;
      body = or_default reason [];
    }

abbrev pub pass_on : Env → Broker → Text → Text → Option Text → Message → Broker
pass_on env b from id reason origin =
    let p = with_backend b (pass_project b.backend id from) in
    if is_awaiting_open p.backend id
    then notify (post p (passed_note env p from id reason origin)) origin.from_alias
    else p

abbrev pub refuse : Env → Broker → Text → Text → Option Text → Option Message → Broker
refuse env b from id reason none = with_backend b (set_consent b.backend id from false)
refuse env b from id reason (some origin) =
    let p = with_backend b (set_consent b.backend id from false) in
    let q = post p (decline_message env p from id reason origin) in
    if is_awaiting_open p.backend id
    then notify (with_backend q (close_awaiting q.backend id (some responded))) origin.from_alias
    else p

unfoldable pub decline_own :
    Env → Option Text → Broker → Text → Text → Broker × Response DeclineResult
decline_own env reason b from id = elim (origin_of b.backend id) [
  | none ↦ (refuse env b from id reason none, ok declined)
  | some origin ↦
      if is_project_address origin.to_alias
      then (pass_on env b from id reason origin, ok passed)
      else (refuse env b from id reason (some origin), ok declined)
]

unfoldable pub decline :
    Env
    → Broker
    → Option Text
    → Option Text
    → Option Text
    → Option Text
    → Broker × Response DeclineResult
unfolding decline_own
decline env b from_alias msg_id reason token =
    on_own_mail env b from_alias msg_id token (decline_own env reason)

abbrev pub kind_text : Kind → Text
kind_text inform = txt "inform"
kind_text query = txt "query"
kind_text request = txt "request"
kind_text response = txt "response"

abbrev pub cancelled_text : Text → Message → Text
cancelled_text corr origin =
    txt "[claude-ipc] CANCELLED — "
    ++ origin.from_alias
    ++ txt " withdrew "
    ++ kind_text origin.kind
    ++ txt " "
    ++ corr
    ++ txt "; no reply is owed. A reply to it now would be refused."

abbrev pub cancelled_note : Env → Broker → Text → Text → Message → Message
cancelled_note env b to corr origin = record (about env b response (txt "ipc") to corr origin) {
  status = some Status.ok;
  terminal = false;
  body = cancelled_text corr origin;
}

-- The states of a delivery that a cancellation consumes.
abbrev pub is_unsettled : DeliveryState → Bool
is_unsettled queued = true
is_unsettled delivered = true
is_unsettled surfaced = true
is_unsettled persisted = true
is_unsettled _ = false

abbrev pub is_unseen : DeliveryState → Bool
is_unseen queued = true
is_unseen _ = false

abbrev pub tell_cancelled : Env → Broker → Text → Message → Text → Broker
tell_cancelled env b corr origin to =
    let p = post b (cancelled_note env b to corr origin) in
    if is_project_address to then notify_members env p (list env p) to else notify p to

-- The loop over the deliveries, as they were when it began.
unfoldable pub cancel_each : Env → Broker → Text → Message → List Delivery → Broker
cancel_each env b corr origin [] = b
cancel_each env b corr origin (d ∷ ds) =
    let next : Broker =
      if not (is_unsettled d.state)
      then b
      else if is_unseen d.state
      then consume b corr d.to_alias
      else tell_cancelled env (consume b corr d.to_alias) corr origin d.to_alias in
    cancel_each env next corr origin ds

unfoldable pub cancel_ask : Env → Broker → Text → Message → Broker
unfolding cancel_each
cancel_ask env b corr origin =
    let closed = with_backend b (close_awaiting b.backend corr (some cancelled)) in
    if is_awaiting_open b.backend corr
    then cancel_each env closed corr origin (deliveries_for closed.backend corr)
    else closed

unfoldable pub cancel : Env → Broker → Option Text → Option Text → Broker × Response Bool
unfolding cancel_ask
cancel env b corr_id token = elim (truthy corr_id) [
  | none ↦ (b, fail bad_args)
  | some corr ↦ elim (origin_of b.backend corr) [
    | none ↦ elim (get_message b.backend corr) [
      | none ↦ (b, fail no_message)
      | some m ↦ (b, fail not_an_ask)
    ]
    | some origin ↦
        if not (owns b token origin.from_alias)
        then (b, fail unauthorized)
        else (cancel_ask env b corr origin, ok true)
  ]
]
