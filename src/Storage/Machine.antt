-- ===== src/Storage/Machine.antt =====
-- The writes of `MemoryBackend` as one data type, and a history of them: every method of
-- src/storage/memoryBackend.ts that changes a field.
use claude_ipc.Base.{ℕ, Text, Bool, true, false, Option, List, [], ◌∷◌}
use claude_ipc.Models.{
  Message, OutboundIntent, DeliveredVia, NudgeStage, ClosedReason, RegistryEntry,
}
use claude_ipc.Storage.State.{Backend}
use claude_ipc.Storage.Messages.{append, append_routed, queue_outbound, delete_outbound, save_route}
use claude_ipc.Storage.Inbox.{
  enqueue, pending_consume, mark_delivered, mark_consumed, mark_surfaced, set_consent,
}
use claude_ipc.Storage.Leases.{claim_for_delivery, lease_for_delivery, ack_delivery}
use claude_ipc.Storage.Asks.{open_awaiting, mark_nudged, defer_nudge, close_awaiting}
use claude_ipc.Storage.Projects.{
  mark_superseded, claim_project, release_claim, pass_project, mark_project_surfaced,
}
use claude_ipc.Storage.Upkeep.{save_registry, purge, tombstone_stale}

pub data Write : Type 0 where
  appends : Message → Write
  appends_routed : Message → List Text → Write
  queues_outbound : OutboundIntent → Write
  deletes_outbound : Text → Write
  saves_route : Text → List Text → Write
  enqueues : Text → Text → Write
  consumes_pending : Text → Write
  marks_delivered : Text → Text → Option DeliveredVia → Write
  marks_consumed : Text → Text → Write
  marks_surfaced : Text → Text → Write
  sets_consent : Text → Text → Bool → Write
  claims_delivery : Text → Option DeliveredVia → Write
  leases_delivery : Text → Option DeliveredVia → Text → ℕ → ℕ → Write
  acks_delivery : Text → Text → List Text → Write
  opens_awaiting : Text → Option ℕ → Option ℕ → ℕ → Write
  marks_nudged : Text → NudgeStage → Write
  defers_nudge : Text → ℕ → Write
  closes_awaiting : Text → Option ClosedReason → Write
  marks_superseded : Text → Text → Write
  claims_project : Text → Text → Write
  releases_claim : Text → Write
  passes_project : Text → Text → Write
  marks_project_surfaced : Text → Text → Write
  saves_registry : List RegistryEntry → Write
  purges : ℕ → Write
  tombstones : ℕ → Write

unfoldable pub apply : Backend → Write → Backend
apply b (appends m) = append b m
apply b (appends_routed m targets) = append_routed b m targets
apply b (queues_outbound intent) = queue_outbound b intent
apply b (deletes_outbound operation_id) = delete_outbound b operation_id
apply b (saves_route msg_id targets) = save_route b msg_id targets
apply b (enqueues msg_id alias) = enqueue b msg_id alias
apply b (consumes_pending alias) = (pending_consume b alias).0
apply b (marks_delivered msg_id alias via) = mark_delivered b msg_id alias via
apply b (marks_consumed msg_id alias) = mark_consumed b msg_id alias
apply b (marks_surfaced msg_id alias) = (mark_surfaced b msg_id alias).0
apply b (sets_consent msg_id alias granted) = set_consent b msg_id alias granted
apply b (claims_delivery alias via) = (claim_for_delivery b alias via).0
apply b (leases_delivery alias via lease_id now lease_until) =
    (lease_for_delivery b alias via lease_id now lease_until).0
apply b (acks_delivery alias lease_id msg_ids) = (ack_delivery b alias lease_id msg_ids).0
apply b (opens_awaiting origin_id expires_at reply_by_s nudge_from) =
    open_awaiting b origin_id expires_at reply_by_s nudge_from
apply b (marks_nudged origin_id stage) = mark_nudged b origin_id stage
apply b (defers_nudge origin_id from) = defer_nudge b origin_id from
apply b (closes_awaiting origin_id reason) = close_awaiting b origin_id reason
apply b (marks_superseded superseded_id by_id) = mark_superseded b superseded_id by_id
apply b (claims_project msg_id alias) = (claim_project b msg_id alias).0
apply b (releases_claim msg_id) = release_claim b msg_id
apply b (passes_project msg_id alias) = pass_project b msg_id alias
apply b (marks_project_surfaced msg_id alias) = mark_project_surfaced b msg_id alias
apply b (saves_registry entries) = save_registry b entries
apply b (purges older_than_ts) = (purge b older_than_ts).0
apply b (tombstones older_than_ts) = (tombstone_stale b older_than_ts).0

unfoldable pub run : Backend → List Write → Backend
unfolding apply
run b [] = b
run b (w ∷ ws) = run (apply b w) ws

-- The writes that delete rows.
abbrev pub is_purge : Write → Bool
is_purge (purges _) = true
is_purge _ = false
