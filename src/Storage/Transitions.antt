-- ===== src/Storage/Transitions.antt =====
-- The life of one delivery row over a history of writes.
use claude_ipc.Base.{
  ℕ, Text, Bool, true, false, Option, none, some, List, [], ◌∷◌, ◌≡◌, refl, arith, if◌then◌else◌,
  is_some, some_of, ◌∙◌,
}
use claude_ipc.Base.Map
use claude_ipc.Base.Map.{Map, has, update_values, get-set}
use claude_ipc.Base.Map.Entries.{get-update_values}
use claude_ipc.Models.{Message, Delivery, DeliveredVia}
use claude_ipc.Storage.State.{Backend, Lease, bump_seq, del_key}
use claude_ipc.Storage.Messages.{append, append_routed, queue_outbound, delete_outbound, save_route}
use claude_ipc.Storage.Inbox.{
  enqueue, pending_consume, mark_delivered, mark_consumed, mark_surfaced, set_consent, consume_if,
  pends_for,
}
use claude_ipc.Storage.Leases.{
  claim_for_delivery, lease_for_delivery, lease_loop, ack_delivery, ack_one, deliver_if, queued_for,
  leasable,
}
use claude_ipc.Storage.Asks.{open_awaiting, mark_nudged, defer_nudge, close_awaiting}
use claude_ipc.Storage.Projects.{
  mark_superseded, claim_project, release_claim, pass_project, mark_project_surfaced,
}
use claude_ipc.Storage.Upkeep.{save_registry, tombstone_stale, is_stale}
use claude_ipc.Storage.Machine.{
  Write, appends, appends_routed, queues_outbound, deletes_outbound, saves_route, enqueues,
  consumes_pending, marks_delivered, marks_consumed, marks_surfaced, sets_consent, claims_delivery,
  leases_delivery, acks_delivery, opens_awaiting, marks_nudged, defers_nudge, closes_awaiting,
  marks_superseded, claims_project, releases_claim, passes_project, marks_project_surfaced,
  saves_registry, purges, tombstones, apply, run, is_purge,
}
use claude_ipc.Storage.Rows.{
  is_settled, legal, legal_refl, row, enqueue-Legal, mark_delivered-Legal, mark_consumed-Legal,
  mark_surfaced-Legal, set_consent-Legal, pending_consume-Legal, claim_for_delivery-Legal,
  lease_for_delivery-Legal, ack_delivery-Legal, ack_one-keeps, purge-Legal, tombstone_stale-Legal,
  bump_each-deliveries,
}

-- Every write of the backend makes, on every row, a change that the table of delivery states
-- allows: a row that is created is queued, and a row that stays keeps its message id, its alias and
-- its time.
pub apply-Legal :
    (b : Backend) (w : Write) (k : Text)
    → legal (Map.get b.deliveries k) (Map.get (apply b w).deliveries k) ≡ true
unfolding apply
apply-Legal b (appends m) k = unfold append in ground (arith, legal_refl (row b k))
apply-Legal b (appends_routed m targets) k =
    unfold append_routed in ground (arith, legal_refl (row b k))
apply-Legal b (queues_outbound intent) k =
    unfold queue_outbound in ground (arith, legal_refl (row b k))
apply-Legal b (deletes_outbound operation_id) k = unfold delete_outbound in legal_refl (row b k)
apply-Legal b (saves_route msg_id targets) k =
    unfold save_route in ground (arith, legal_refl (row b k))
apply-Legal b (enqueues msg_id alias) k = enqueue-Legal b msg_id alias k
apply-Legal b (consumes_pending alias) k = pending_consume-Legal b alias k
apply-Legal b (marks_delivered msg_id alias via) k = mark_delivered-Legal b msg_id alias via k
apply-Legal b (marks_consumed msg_id alias) k = mark_consumed-Legal b msg_id alias k
apply-Legal b (marks_surfaced msg_id alias) k = mark_surfaced-Legal b msg_id alias k
apply-Legal b (sets_consent msg_id alias granted) k = set_consent-Legal b msg_id alias granted k
apply-Legal b (claims_delivery alias via) k = claim_for_delivery-Legal b alias via k
apply-Legal b (leases_delivery alias via id now until) k =
    lease_for_delivery-Legal b alias via id now until k
apply-Legal b (acks_delivery alias id msg_ids) k = ack_delivery-Legal b alias id msg_ids k
apply-Legal b (opens_awaiting o e r n) k = unfold open_awaiting in legal_refl (row b k)
apply-Legal b (marks_nudged o s) k = unfold mark_nudged in ground (arith, legal_refl (row b k))
apply-Legal b (defers_nudge o n) k = unfold defer_nudge in ground (arith, legal_refl (row b k))
apply-Legal b (closes_awaiting o r) k =
    unfold close_awaiting in ground (arith, legal_refl (row b k))
apply-Legal b (marks_superseded o n) k = unfold mark_superseded in legal_refl (row b k)
apply-Legal b (claims_project m a) k = unfold claim_project in ground (arith, legal_refl (row b k))
apply-Legal b (releases_claim m) k = unfold release_claim in legal_refl (row b k)
apply-Legal b (passes_project m a) k = unfold pass_project in legal_refl (row b k)
apply-Legal b (marks_project_surfaced m a) k = unfold mark_project_surfaced in legal_refl (row b k)
apply-Legal b (saves_registry entries) k = unfold save_registry in legal_refl (row b k)
apply-Legal b (purges t) k = purge-Legal b t k
apply-Legal b (tombstones t) k = tombstone_stale-Legal b t k

-- The row is there and settled.
abbrev pub settled_at : Backend → Text → Bool
settled_at b k = elim (Map.get b.deliveries k) [ none ↦ false | some d ↦ is_settled d.state ]

settled-Legal :
    (o p : Option Delivery)
    → legal o p ≡ true
    → elim o [ none ↦ false | some d ↦ is_settled d.state ] ≡ true
    → is_some p ≡ true
    → elim p [ none ↦ false | some d ↦ is_settled d.state ] ≡ true
settled-Legal o p h s k = ground arith

lease_loop-keeps :
    (ms : Map Message) (alias : Text) (via : Option DeliveredVia) (id : Text) (now until : ℕ)
    (ls : Map Lease) (ds : Map Delivery) (k : Text)
    → is_some (Map.get (lease_loop ms alias via id now until ls ds).deliveries k)
      ≡ is_some (Map.get ds k)
unfolding lease_loop Map.get
lease_loop-keeps ms alias via id now until ls [] k = refl
lease_loop-keeps ms alias via id now until ls ((i, d) ∷ ds) k = ground (
  arith,
  lease_loop-keeps ms alias via id now until
      (if leasable ls alias now d
        then Map.set ls (del_key d.msg_id alias) (record { id = id; until = until })
        else ls)
      ds k,
)

ack_delivery-keeps :
    (b : Backend) (alias id : Text) (msg_ids : List Text) (k : Text)
    → is_some (row (ack_delivery b alias id msg_ids).0 k) ≡ is_some (row b k)
unfolding ack_delivery
ack_delivery-keeps b alias id [] k = refl
ack_delivery-keeps b alias id (m ∷ ms) k =
    ack_delivery-keeps (ack_one b alias id m).0 alias id ms k ∙ ack_one-keeps b alias id m k

-- No write but a purge takes a row away.
apply-keeps :
    (b : Backend) (w : Write) (k : Text)
    → is_purge w ≡ false
    → is_some (row b k) ≡ true
    → is_some (row (apply b w) k) ≡ true
unfolding apply
apply-keeps b (appends m) k p h = unfold append in ground arith
apply-keeps b (appends_routed m targets) k p h = unfold append_routed in ground arith
apply-keeps b (queues_outbound intent) k p h = unfold queue_outbound in ground arith
apply-keeps b (deletes_outbound operation_id) k p h = unfold delete_outbound in h
apply-keeps b (saves_route msg_id targets) k p h = unfold save_route in ground arith
apply-keeps b (enqueues msg_id alias) k p h = unfold enqueue bump_seq in grind (arith, get-set)
apply-keeps b (consumes_pending alias) k p h =
    unfold pending_consume bump_seq in
    ground (arith, get-update_values (consume_if (pends_for alias)) b.deliveries k)
apply-keeps b (marks_delivered msg_id alias via) k p h =
    unfold mark_delivered in grind (arith, get-set)
apply-keeps b (marks_consumed msg_id alias) k p h =
    unfold mark_consumed bump_seq in grind (arith, get-set)
apply-keeps b (marks_surfaced msg_id alias) k p h =
    unfold mark_surfaced bump_seq in grind (arith, get-set)
apply-keeps b (sets_consent msg_id alias granted) k p h =
    unfold set_consent bump_seq in grind (arith, get-set)
apply-keeps b (claims_delivery alias via) k p h =
    unfold claim_for_delivery in
    ground (arith, get-update_values (deliver_if (queued_for alias) via) b.deliveries k)
apply-keeps b (leases_delivery alias via id now until) k p h =
    unfold lease_for_delivery in
    lease_loop-keeps b.messages alias via id now until b.leases b.deliveries k ∙ h
apply-keeps b (acks_delivery alias id msg_ids) k p h = ack_delivery-keeps b alias id msg_ids k ∙ h
apply-keeps b (opens_awaiting o e r n) k p h = unfold open_awaiting in h
apply-keeps b (marks_nudged o s) k p h = unfold mark_nudged in ground arith
apply-keeps b (defers_nudge o n) k p h = unfold defer_nudge in ground arith
apply-keeps b (closes_awaiting o r) k p h = unfold close_awaiting in ground arith
apply-keeps b (marks_superseded o n) k p h = unfold mark_superseded in h
apply-keeps b (claims_project m a) k p h = unfold claim_project in ground arith
apply-keeps b (releases_claim m) k p h = unfold release_claim in h
apply-keeps b (passes_project m a) k p h = unfold pass_project in h
apply-keeps b (marks_project_surfaced m a) k p h = unfold mark_project_surfaced in h
apply-keeps b (saves_registry entries) k p h = unfold save_registry in h
apply-keeps b (purges t) k p h = cc
apply-keeps b (tombstones t) k p h =
    unfold tombstone_stale in
    rw bump_each-deliveries
      (ground (arith, get-update_values (consume_if (is_stale t)) b.deliveries k))

-- Over any history of writes with no purge in it, a row that is consumed, accepted or declined
-- stays one of the three.
pub run-settled :
    (b : Backend) (ws : List Write) (k : Text)
    → some_of is_purge ws ≡ false
    → settled_at b k ≡ true
    → settled_at (run b ws) k ≡ true
unfolding run
run-settled b [] k p h = h
run-settled b (w ∷ ws) k p h = ground (
  arith,
  run-settled (apply b w) ws k,
  settled-Legal (row b k) (row (apply b w) k) (apply-Legal b w k),
  apply-keeps b w k,
)
