-- ===== src/Router/Replies.antt =====
-- `reply` and `replyToInform` of src/broker/router.ts.
use claude_ipc.Base.{
  suc, Text, ◌==◌, is_empty, trim, Bool, true, false, ◌&&◌, not, Option, none, some, [], or_default,
  if◌then◌else◌,
}
use claude_ipc.Models.{
  Message, inform, response, Status, error, ErrorCode, Awaiting, ClosedReason, responded, cancelled,
  make_message,
}
use claude_ipc.ProjectAddress.{is_project_address}
use claude_ipc.Storage.Messages.{append, get_message, origin_of}
use claude_ipc.Storage.Inbox.{enqueue, mark_consumed}
use claude_ipc.Storage.Asks.{get_awaiting, close_awaiting, defer_nudge}
use claude_ipc.Broker.{Broker, Env}
use claude_ipc.Registry
use claude_ipc.Registry.{touch_by_act, truthy}
use claude_ipc.Router.Guards.{
  bad_args, unauthorized, not_an_ask, no_origin, ask_cancelled, empty_reply, Response, ok, fail,
  is_reserved, notify, owns, session_id_of, in_session, not_actable,
}
use claude_ipc.Router.Send.{PeerView, peer_view, kind_eq}

pub record ReplyArgs : Type 0 where
  pub from_alias : Option Text
  pub corr_id : Option Text
  pub body : Option Text
  pub terminal : Option Bool
  pub status : Option Status
  pub error_code : Option ErrorCode

pub record ReplyResult : Type 0 where
  pub msg_id : Text
  pub terminal : Bool
  pub late : Bool
  pub asker : Option PeerView

abbrev pub consume : Broker → Text → Text → Broker
consume b msg_id alias = record b { backend = mark_consumed b.backend msg_id alias }

-- `append`, then `enqueue` to the recipient, of a message whose id was drawn for it.
abbrev pub post : Broker → Message → Broker
post b m = record b {
  backend = enqueue (append b.backend m) m.id m.to_alias;
  ids_drawn = suc b.ids_drawn;
}

abbrev pub is_error : Option Status → Bool
is_error (some error) = true
is_error _ = false

-- `status !== "error" && !(body ?? "").trim()`
abbrev pub says_nothing : ReplyArgs → Bool
says_nothing a = not (is_error a.status) && is_empty (trim (or_default a.body []))

abbrev pub reply_message : Env → Broker → ReplyArgs → Text → Text → Message → Message
reply_message env b a from corr origin =
    record (make_message (env.new_id b.ids_drawn) response from origin.from_alias env.now) {
      corr_id = some corr;
      status = some (or_default a.status Status.ok);
      error_code = a.error_code;
      terminal = or_default a.terminal true;
      body = or_default a.body [];
      conversation_id = origin.conversation_id;
    }

-- The recipient is another alias of the replier's session.
abbrev pub is_sibling_of : Env → Broker → Text → Text → Bool
is_sibling_of env b from to = elim (truthy (session_id_of env b from)) [
  | none ↦ false
  | some sid ↦ not (to == from) && not (is_project_address to) && in_session env b to sid
]

-- The replier's own copy of the message, and a sibling alias's, are consumed.
abbrev pub consume_own : Env → Broker → Text → Text → Message → Broker
consume_own env b from corr origin =
    if is_sibling_of env (consume b corr from) from origin.to_alias
    then consume (consume b corr from) corr origin.to_alias
    else consume b corr from

abbrev pub consume_project : Broker → Text → Message → Broker
consume_project b corr origin =
    if is_project_address origin.to_alias then consume b corr origin.to_alias else b

abbrev pub is_closed : Option Awaiting → Bool
is_closed none = false
is_closed (some a) = a.closed

abbrev pub is_cancelled_reason : Option ClosedReason → Bool
is_cancelled_reason (some cancelled) = true
is_cancelled_reason _ = false

-- `aw?.closed && aw.closedReason === "cancelled"`
abbrev pub is_cancelled : Option Awaiting → Bool
is_cancelled none = false
is_cancelled (some a) = a.closed && is_cancelled_reason a.closed_reason

abbrev pub close_if : Bool → Broker → Text → Broker
close_if true b corr = record b { backend = close_awaiting b.backend corr (some responded) }
close_if false b corr = b

abbrev pub defer_if : Bool → Env → Broker → Text → Broker
defer_if true env b corr = record b { backend = defer_nudge b.backend corr env.now }
defer_if false env b corr = b

-- An answer that passes all the guards.
unfoldable pub answer :
    Env → Broker → ReplyArgs → Text → Text → Message → Broker × Response ReplyResult
answer env b a from corr origin =
    let aw = get_awaiting b.backend corr in
    let terminal = or_default a.terminal true in
    let resp = reply_message env b a from corr origin in
    let closed = close_if (terminal && not (is_closed aw)) (post b resp) corr in
    let deferred = defer_if (not terminal) env closed corr in
    let consumed = consume_project (consume_own env deferred from corr origin) corr origin in
    let told = notify consumed origin.from_alias in
    (
      told,
      ok (record {
        msg_id = resp.id;
        terminal = terminal;
        late = is_closed aw;
        asker = peer_view (Registry.get env told origin.from_alias);
      }),
    )

unfoldable pub reply_to_ask :
    Env → Broker → ReplyArgs → Text → Text → Message → Broker × Response ReplyResult
unfolding answer
reply_to_ask env b a from corr origin =
    if is_cancelled (get_awaiting b.backend corr)
    then (consume_project (consume b corr from) corr origin, fail ask_cancelled)
    else if says_nothing a
    then (b, fail empty_reply)
    else answer env b a from corr origin

-- `replyToInform`.
unfoldable pub reply_to_inform :
    Env → Broker → ReplyArgs → Text → Text → Message → Broker × Response ReplyResult
reply_to_inform env b a from corr origin = elim (not_actable env b corr from) [
  | some code ↦ (b, fail code)
  | none ↦
      if says_nothing a
      then (b, fail empty_reply)
      else let resp = reply_message env b a from corr origin in
        let told = notify (consume_own env (post b resp) from corr origin) origin.from_alias in
        (
          told,
          ok (record {
            msg_id = resp.id;
            terminal = resp.terminal;
            late = false;
            asker = peer_view (Registry.get env told origin.from_alias);
          }),
        )
]

-- A reply to something that is not an ask.
unfoldable pub reply_to_other :
    Env → Broker → ReplyArgs → Text → Text → Option Message → Broker × Response ReplyResult
unfolding reply_to_inform
reply_to_other env b a from corr none = (b, fail no_origin)
reply_to_other env b a from corr (some m) =
    if kind_eq m.kind inform && not (m.from_alias == from)
    then reply_to_inform env b a from corr m
    else (b, fail not_an_ask)

unfoldable pub reply_as : Env → Broker → ReplyArgs → Text → Text → Broker × Response ReplyResult
unfolding reply_to_ask reply_to_other
reply_as env b a from corr = elim (origin_of b.backend corr) [
  | some origin ↦ reply_to_ask env b a from corr origin
  | none ↦ reply_to_other env b a from corr (get_message b.backend corr)
]

unfoldable pub reply : Env → Broker → ReplyArgs → Option Text → Broker × Response ReplyResult
unfolding reply_as
reply env b a token = elim (truthy a.from_alias) [
  | none ↦ (b, fail bad_args)
  | some from ↦ elim (truthy a.corr_id) [
    | none ↦ (b, fail bad_args)
    | some corr ↦
        if is_reserved from
        then (b, fail bad_args)
        else if not (owns b token from)
        then (b, fail unauthorized)
        else reply_as env (touch_by_act env b from) a from corr
  ]
]
