-- ===== src/Storage/Asks.antt =====
-- The sender's outstanding asks: `openAwaiting` to `openAwaitings` of src/storage/memoryBackend.ts.
use claude_ipc.Base.{
  ℕ, Text, Bool, true, false, ◌&&◌, not, Option, none, some, List, leb, keep, if◌then◌else◌,
}
use claude_ipc.Base.Map
use claude_ipc.Base.Map.{values}
use claude_ipc.Models.{Awaiting, NudgeStage, ClosedReason}
use claude_ipc.Storage.State.{Backend}

unfoldable pub open_awaiting : Backend → Text → Option ℕ → Option ℕ → ℕ → Backend
open_awaiting b origin_id expires_at reply_by_s nudge_from = record b {
  awaiting = Map.set b.awaiting origin_id (record {
    origin_id = origin_id;
    expires_at = expires_at;
    closed = false;
    reply_by_s = reply_by_s;
    nudged_stage = NudgeStage.zero;
    nudge_from = nudge_from;
    closed_reason = none;
  });
}

-- `a < b` on the stages 0, 1, 2
abbrev pub stage_before : NudgeStage → NudgeStage → Bool
stage_before NudgeStage.zero NudgeStage.one = true
stage_before NudgeStage.zero NudgeStage.two = true
stage_before NudgeStage.one NudgeStage.two = true
stage_before _ _ = false

unfoldable pub mark_nudged : Backend → Text → NudgeStage → Backend
mark_nudged b origin_id stage = elim (Map.get b.awaiting origin_id) [
  | none ↦ b
  | some a ↦
      if stage_before a.nudged_stage stage
      then record b { awaiting = Map.set b.awaiting origin_id (record a { nudged_stage = stage }) }
      else b
]

unfoldable pub defer_nudge : Backend → Text → ℕ → Backend
defer_nudge b origin_id from = elim (Map.get b.awaiting origin_id) [
  | none ↦ b
  | some a ↦ record b {
    awaiting =
        Map.set b.awaiting origin_id
          (record a { nudge_from = from; nudged_stage = NudgeStage.zero });
  }
]

abbrev pub get_awaiting : Backend → Text → Option Awaiting
get_awaiting b origin_id = Map.get b.awaiting origin_id

-- The first reason stays.
unfoldable pub close_awaiting : Backend → Text → Option ClosedReason → Backend
close_awaiting b origin_id reason = elim (Map.get b.awaiting origin_id) [
  | none ↦ b
  | some a ↦ if a.closed then b else record b {
    awaiting = Map.set b.awaiting origin_id (record a { closed = true; closed_reason = reason });
  }
]

unfoldable pub is_awaiting_open : Backend → Text → Bool
is_awaiting_open b origin_id = elim (Map.get b.awaiting origin_id) [
  | none ↦ false
  | some a ↦ not a.closed
]

abbrev pub past_ttl : ℕ → Awaiting → Bool
past_ttl now a = not a.closed && elim a.expires_at [ none ↦ false | some t ↦ leb t now ]

unfoldable pub awaiting_past_ttl : Backend → ℕ → List Awaiting
awaiting_past_ttl b now = keep (past_ttl now) (values b.awaiting)

unfoldable pub open_awaitings : Backend → List Awaiting
open_awaitings b = keep (λ a. not a.closed) (values b.awaiting)
