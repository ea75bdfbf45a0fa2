-- ===== src/Storage/Keys.antt =====
-- The keys of the delivery map. `delKey` joins the two parts with U+0000, so that keys can be told
-- apart as long as no message id holds that character.
use claude_ipc.Base.{
  ℕ, Text, ◌==◌, Bool, true, ◌&&◌, not, Option, List, [], ◌∷◌, ◌≡◌, refl, arith, if◌then◌else◌, eqb,
  keep,
}
use claude_ipc.Base.Map
use claude_ipc.Base.Map.{Map, update_values, get-set}
use claude_ipc.Base.Map.Entries.{All, All-set, All-delete, All-get}
use claude_ipc.Models.{Message, Delivery, DeliveredVia}
use claude_ipc.Storage.State.{Backend, Lease, bump_seq, del_key}
use claude_ipc.Storage.Messages.{append, append_routed, queue_outbound, delete_outbound, save_route}
use claude_ipc.Storage.Inbox.{
  enqueue, pending_consume, mark_delivered, mark_consumed, mark_surfaced, set_consent, consume_if,
  pends_for,
}
use claude_ipc.Storage.Leases.{
  claim_for_delivery, lease_for_delivery, lease_loop, ack_delivery, ack_one, deliver_if, queued_for,
  leasable,
}
use claude_ipc.Storage.Asks.{open_awaiting, mark_nudged, defer_nudge, close_awaiting}
use claude_ipc.Storage.Projects.{
  mark_superseded, claim_project, release_claim, pass_project, mark_project_surfaced,
}
use claude_ipc.Storage.Upkeep.{
  save_registry, purge, purge_one, purge_all, delete_deliveries, tombstone_stale, is_stale,
  purgeable,
}
use claude_ipc.Storage.Machine.{
  Write, appends, appends_routed, queues_outbound, deletes_outbound, saves_route, enqueues,
  consumes_pending, marks_delivered, marks_consumed, marks_surfaced, sets_consent, claims_delivery,
  leases_delivery, acks_delivery, opens_awaiting, marks_nudged, defers_nudge, closes_awaiting,
  marks_superseded, claims_project, releases_claim, passes_project, marks_project_surfaced,
  saves_registry, purges, tombstones, apply,
}
use claude_ipc.Storage.Rows.{bump_each-deliveries}

abbrev pub nul_free : Text → Bool
nul_free [] = true
nul_free (c ∷ s) = not (eqb c 0) && nul_free s

-- Two keys are equal only when both their parts are, if the ids hold no U+0000.
pub del_key-injective :
    (id id' alias alias' : Text)
    → nul_free id ≡ true
    → nul_free id' ≡ true
    → del_key id alias ≡ del_key id' alias'
    → (id ≡ id') × (alias ≡ alias')
del_key-injective [] [] alias alias' h h' e = (refl, cc)
del_key-injective [] (c ∷ s') alias alias' h h' e = ground arith
del_key-injective (c ∷ s) [] alias alias' h h' e = ground arith
del_key-injective (c ∷ s) (c' ∷ s') alias alias' h h' e =
    ground (arith, del_key-injective s s' alias alias')

-- Every entry stands under the key of its own address, and its id holds no U+0000.
pub record KeyOk (k : Text) (d : Delivery) : Type 0 where
  pub keyed : k ≡ del_key d.msg_id d.to_alias
  pub clean : nul_free d.msg_id ≡ true

abbrev pub KeysOk : Backend → Type 0
KeysOk b = All KeyOk b.deliveries

-- The message ids that a write puts into a delivery.
abbrev pub clean_ids : Write → Bool
clean_ids (enqueues msg_id alias) = nul_free msg_id
clean_ids _ = true

All-update :
    (f : Delivery → Delivery) (m : Map Delivery)
    → ((k : Text) (d : Delivery) → KeyOk k d → KeyOk k (f d))
    → All KeyOk m
    → All KeyOk (update_values f m)
All-update f [] keeps a = tt
All-update f ((k, d) ∷ m) keeps a = (keeps k d a.0, All-update f m keeps a.1)

lease_loop-KeysOk :
    (ms : Map Message) (alias : Text) (via : Option DeliveredVia) (id : Text) (now until : ℕ)
    (ls : Map Lease) (ds : Map Delivery)
    → All KeyOk ds
    → All KeyOk (lease_loop ms alias via id now until ls ds).deliveries
unfolding lease_loop
lease_loop-KeysOk ms alias via id now until ls [] a = tt
lease_loop-KeysOk ms alias via id now until ls ((k, d) ∷ ds) a = (
  ground (arith, a.0),
  lease_loop-KeysOk ms alias via id now until
      (if leasable ls alias now d
        then Map.set ls (del_key d.msg_id alias) (record { id = id; until = until })
        else ls)
      ds a.1,
)

ack_one-KeysOk : (b : Backend) (alias id m : Text) → KeysOk b → KeysOk (ack_one b alias id m).0
unfolding ack_one
ack_one-KeysOk b alias id m a = grind (arith, All-set, All-get)

ack_delivery-KeysOk :
    (b : Backend) (alias id : Text) (msg_ids : List Text)
    → KeysOk b
    → KeysOk (ack_delivery b alias id msg_ids).0
unfolding ack_delivery
ack_delivery-KeysOk b alias id [] a = a
ack_delivery-KeysOk b alias id (m ∷ ms) a =
    ack_delivery-KeysOk (ack_one b alias id m).0 alias id ms (ack_one-KeysOk b alias id m a)

delete_deliveries-KeysOk :
    (ds : Map Delivery) (id : Text) (rest : Map Delivery)
    → All KeyOk ds
    → All KeyOk (delete_deliveries ds id rest)
unfolding delete_deliveries
delete_deliveries-KeysOk ds id [] a = a
delete_deliveries-KeysOk ds id ((i, d) ∷ rest) a =
    delete_deliveries-KeysOk (if d.msg_id == id then Map.delete ds i else ds) id rest
      (grind (arith, All-delete))

pub purge_all-KeysOk : (b : Backend) (ms : List Message) → KeysOk b → KeysOk (purge_all b ms)
unfolding purge_one
purge_all-KeysOk b [] a = a
purge_all-KeysOk b (m ∷ ms) a =
    purge_all-KeysOk (purge_one b m.id) ms
      (delete_deliveries-KeysOk b.deliveries m.id b.deliveries a)

-- If every delivery stands under the key of its own message id and alias, and no id holds U+0000,
-- then this is so after every write, unless it enqueues an id that holds U+0000.
pub apply-KeysOk : (b : Backend) (w : Write) → clean_ids w ≡ true → KeysOk b → KeysOk (apply b w)
unfolding apply
apply-KeysOk b (appends m) c a = unfold append in ground arith
apply-KeysOk b (appends_routed m targets) c a = unfold append_routed in ground arith
apply-KeysOk b (queues_outbound intent) c a = unfold queue_outbound in ground arith
apply-KeysOk b (deletes_outbound operation_id) c a = unfold delete_outbound in a
apply-KeysOk b (saves_route msg_id targets) c a = unfold save_route in ground arith
apply-KeysOk b (enqueues msg_id alias) c a = unfold enqueue bump_seq in grind (arith, All-set)
apply-KeysOk b (consumes_pending alias) c a =
    unfold pending_consume bump_seq in
    ground
      (arith, All-update (consume_if (pends_for alias)) b.deliveries (λ k d h. ground (arith, h)) a)
apply-KeysOk b (marks_delivered msg_id alias via) c a =
    unfold mark_delivered in grind (arith, All-set, All-get)
apply-KeysOk b (marks_consumed msg_id alias) c a =
    unfold mark_consumed bump_seq in grind (arith, All-set, All-get)
apply-KeysOk b (marks_surfaced msg_id alias) c a =
    unfold mark_surfaced bump_seq in grind (arith, All-set, All-get)
apply-KeysOk b (sets_consent msg_id alias granted) c a =
    unfold set_consent bump_seq in grind (arith, All-set, All-get)
apply-KeysOk b (claims_delivery alias via) c a =
    unfold claim_for_delivery in
    All-update (deliver_if (queued_for alias) via) b.deliveries (λ k d h. ground (arith, h)) a
apply-KeysOk b (leases_delivery alias via id now until) c a =
    unfold lease_for_delivery in
    lease_loop-KeysOk b.messages alias via id now until b.leases b.deliveries a
apply-KeysOk b (acks_delivery alias id msg_ids) c a = ack_delivery-KeysOk b alias id msg_ids a
apply-KeysOk b (opens_awaiting o e r n) c a = unfold open_awaiting in a
apply-KeysOk b (marks_nudged o s) c a = unfold mark_nudged in ground arith
apply-KeysOk b (defers_nudge o n) c a = unfold defer_nudge in ground arith
apply-KeysOk b (closes_awaiting o r) c a = unfold close_awaiting in ground arith
apply-KeysOk b (marks_superseded o n) c a = unfold mark_superseded in a
apply-KeysOk b (claims_project m x) c a = unfold claim_project in ground arith
apply-KeysOk b (releases_claim m) c a = unfold release_claim in a
apply-KeysOk b (passes_project m x) c a = unfold pass_project in a
apply-KeysOk b (marks_project_surfaced m x) c a = unfold mark_project_surfaced in a
apply-KeysOk b (saves_registry entries) c a = unfold save_registry in a
apply-KeysOk b (purges t) c a =
    unfold purge in purge_all-KeysOk b (keep (purgeable b t) (Map.values b.messages)) a
apply-KeysOk b (tombstones t) c a =
    unfold tombstone_stale in
    rw bump_each-deliveries
      (All-update (consume_if (is_stale t)) b.deliveries (λ k d h. ground (arith, h)) a)
