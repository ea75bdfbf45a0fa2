-- ===== src/Sweeper.antt =====
-- src/broker/sweeper.ts: parking asks whose time to live has passed, and chasing unanswered ones.
-- The clock is read once for a sweep.
pub mod Chasing
use claude_ipc.Base.{
  ℕ, zero, suc, ◌+◌, ◌-◌, ◌/◌, ◌%◌, Text, ◌==◌, txt, Bool, true, false, ◌&&◌, not, Option, none,
  some, List, [], ◌∷◌, ◌++◌, length, take, ltb, leb, if◌then◌else◌,
}
use claude_ipc.Models.{
  Message, Awaiting, NudgeStage, response, ClosedReason, parked, Status, make_message,
}
use claude_ipc.Storage.State.{Backend}
use claude_ipc.Storage.Messages.{append, origin_of}
use claude_ipc.Storage.Inbox.{enqueue}
use claude_ipc.Storage.Asks.{
  awaiting_past_ttl, open_awaitings, close_awaiting, mark_nudged, stage_before,
}
use claude_ipc.Storage.Upkeep.{purge, tombstone_stale}
use claude_ipc.Router.Consent.{kind_text}

-- The storage, how many ids have been drawn, and how many notices were posted.
pub record Sweep : Type 0 where
  pub backend : Backend
  pub ids_drawn : ℕ
  pub fired : ℕ

-- The clock, the id source and the grace of src/config.ts.
pub record Clock : Type 0 where
  pub now : ℕ
  pub new_id : ℕ → Text
  pub final_grace_s : ℕ

-- A notice of the broker to `to`, about an ask.
abbrev pub notice : Clock → ℕ → Text → Text → Text → Bool → Message → Message
notice c drawn corr to body terminal origin =
    record (make_message (c.new_id drawn) response (txt "ipc") to c.now) {
      corr_id = some corr;
      status = some Status.ok;
      terminal = terminal;
      body = body;
      conversation_id = origin.conversation_id;
    }

unfoldable pub post_notice : Clock → Message → Text → Sweep → Text → Text → Bool → Sweep
post_notice c origin corr s to body terminal = record {
  backend =
      enqueue (append s.backend (notice c s.ids_drawn corr to body terminal origin))
        (c.new_id s.ids_drawn) to;
  ids_drawn = suc s.ids_drawn;
  fired = suc s.fired;
}

abbrev pub parked_text : Message → Text
parked_text origin =
    txt "parked: \""
    ++ origin.to_alias
    ++ txt "\" hasn't answered your "
    ++ kind_text origin.kind
    ++ txt " yet. It's queued for their next turn/open, and their reply will still reach you."
    ++ txt " Escalate if it's urgent."

-- The asks whose time to live has passed, one after the other.
abbrev pub park_each : Clock → Sweep → List Awaiting → Sweep
park_each c s [] = s
park_each c s (a ∷ expired) =
    let closed : Sweep = record s {
      backend = close_awaiting s.backend a.origin_id (some parked);
    } in
    park_each c
      (elim (origin_of closed.backend a.origin_id) [
        | none ↦ closed
        | some origin ↦
            post_notice c origin a.origin_id closed origin.from_alias (parked_text origin) true
      ])
      expired

abbrev pub tombstone_if : Backend → ℕ → Option ℕ → Backend
tombstone_if b now none = b
tombstone_if b now (some tombstone_s) = (tombstone_stale b (now - tombstone_s)).0

abbrev pub purge_if : Backend → ℕ → Option ℕ → Backend
purge_if b now none = b
purge_if b now (some retention_s) = (purge b (now - retention_s)).0

-- The new state, and how many asks were parked. A time before the epoch is 0: nothing is older than
-- either.
unfoldable pub tick_sweeper : Clock → Sweep → Option ℕ → Option ℕ → Sweep × ℕ
unfolding post_notice
tick_sweeper c s retention_s tombstone_s =
    let kept : Sweep = record s {
      backend = purge_if (tombstone_if s.backend c.now tombstone_s) c.now retention_s;
    } in
    let expired = awaiting_past_ttl kept.backend c.now in (park_each c kept expired, length expired)

-- `${n}`, on fuel: a number has at most as many digits as its own value and one.
abbrev pub digits : ℕ → ℕ → Text → Text
digits zero n out = out
digits (suc fuel) n out =
    let rest = digits fuel (n / 10) ((b'0' + n % 10) ∷ out) in
    if ltb n 10 then (b'0' + n) ∷ out else rest

abbrev pub decimal : ℕ → Text
decimal n = digits (suc n) n []

abbrev pub preview : Text → Text
preview body = if ltb 120 (length body) then take 120 body ++ txt "…" else body

-- `Math.round(secs / 60)` of a whole number of seconds.
abbrev pub waited : ℕ → Text
waited secs = if ltb secs 90 then decimal secs ++ txt "s" else decimal ((secs + 30) / 60) ++ txt "m"

abbrev pub last_call_text : Clock → Message → Text
last_call_text c origin =
    txt "[claude-ipc] LAST CALL — "
    ++ origin.from_alias
    ++ txt " has been waiting "
    ++ waited (c.now - origin.ts)
    ++ txt " on "
    ++ kind_text origin.kind
    ++ txt " "
    ++ origin.id
    ++ txt ": \""
    ++ preview origin.body
    ++ txt "\". Their reply deadline has passed, so they may now act without your answer."
    ++ txt " Reply now if one is coming: claude-ipc reply "
    ++ origin.id
    ++ txt " --from <you> \"<answer>\""

abbrev pub acked_text : Bool → Text
acked_text true = txt " (they DID acknowledge it — a snooze or a partial — but haven't answered)"
acked_text false = []

abbrev pub no_reply_text : Clock → Awaiting → Message → Text
no_reply_text c a origin =
    txt "[claude-ipc] NO REPLY YET — "
    ++ origin.id
    ++ txt " to \""
    ++ origin.to_alias
    ++ txt "\", "
    ++ waited (c.now - origin.ts)
    ++ txt ", no final answer"
    ++ acked_text (ltb origin.ts a.nudge_from)
    ++ txt ". You set --reply-by, so you may proceed without one. It is NOT a verdict on them:"
    ++ txt " the ask stays open, and a late reply will still reach you."

abbrev pub nudge_text : Clock → Message → Text
nudge_text c origin =
    txt "[claude-ipc] NUDGE — "
    ++ origin.from_alias
    ++ txt " is waiting on "
    ++ kind_text origin.kind
    ++ txt " "
    ++ origin.id
    ++ txt " ("
    ++ waited (c.now - origin.ts)
    ++ txt "): \""
    ++ preview origin.body
    ++ txt "\". Reply: claude-ipc reply "
    ++ origin.id
    ++ txt " --from <you> \"<answer>\" — or snooze/decline it."

abbrev pub is_sender_due : Clock → Awaiting → ℕ → Message → Bool
is_sender_due c a reply_by origin =
    leb (origin.ts + reply_by + c.final_grace_s) c.now && stage_before a.nudged_stage NudgeStage.two

abbrev pub is_nudge_due : Clock → Awaiting → ℕ → Bool
is_nudge_due c a reply_by =
    leb (a.nudge_from + reply_by) c.now && stage_before a.nudged_stage NudgeStage.one

-- The last call to the recipient, the release of the sender, and the end of the ask.
unfoldable pub release : Clock → Sweep → Awaiting → Message → Sweep
unfolding post_notice
release c s a origin =
    let told = post_notice c origin origin.id s origin.to_alias (last_call_text c origin) false in
    let freed =
      post_notice c origin origin.id told origin.from_alias (no_reply_text c a origin) true in
    record freed {
      backend =
          close_awaiting (mark_nudged freed.backend origin.id NudgeStage.two) origin.id
            (some parked);
    }

unfoldable pub nudge : Clock → Sweep → Message → Sweep
unfolding post_notice
nudge c s origin =
    let told = post_notice c origin origin.id s origin.to_alias (nudge_text c origin) false in
    record told { backend = mark_nudged told.backend origin.id NudgeStage.one }

-- One open ask whose origin is known and which has a deadline.
unfoldable pub chase : Clock → Sweep → Awaiting → ℕ → Message → Sweep
unfolding release nudge
chase c s a reply_by origin =
    if is_sender_due c a reply_by origin
    then release c s a origin
    else if is_nudge_due c a reply_by
    then nudge c s origin
    else s

unfoldable pub sweep_one : Clock → Sweep → Awaiting → Sweep
unfolding chase
sweep_one c s a = elim a.reply_by_s [
  | none ↦ s
  | some reply_by ↦ elim (origin_of s.backend a.origin_id) [
    | none ↦ s
    | some origin ↦ chase c s a reply_by origin
  ]
]

abbrev pub sweep_each : Clock → Sweep → List Awaiting → Sweep
sweep_each c s [] = s
sweep_each c s (a ∷ asks) = sweep_each c (sweep_one c s a) asks

unfoldable pub sweep_reply_deadlines : Clock → Sweep → Sweep
unfolding sweep_one
sweep_reply_deadlines c s = sweep_each c s (open_awaitings s.backend)
