-- ===== src/Storage/Rows.antt =====
-- The life of one delivery row, as a table of the changes that a write may make to it, and what
-- each operation on deliveries does to the row at a key.
use claude_ipc.Base.{
  ℕ, Text, ◌==◌, Bool, true, false, ◌&&◌, Option, none, some, List, [], ◌∷◌, ◌≡◌, refl, ◌⊎◌, inr,
  arith, if◌then◌else◌, eqb, is_some, keep,
}
use claude_ipc.Base.Map
use claude_ipc.Base.Map.{Map, has, update_values, get-set}
use claude_ipc.Base.Map.Entries.{get-update_values, get-delete}
use claude_ipc.Models.{
  Message, Delivery, DeliveredVia, DeliveryState, queued, delivered, surfaced, persisted, consumed,
  accepted, declined,
}
use claude_ipc.Storage.State.{Backend, Lease, bump_seq, del_key}
use claude_ipc.Storage.Inbox.{
  enqueue, pending_consume, mark_delivered, mark_consumed, mark_surfaced, set_consent, put_delivery,
  is_queued, consume_if, pends_for,
}
use claude_ipc.Storage.Leases.{
  claim_for_delivery, lease_for_delivery, lease_loop, ack_delivery, ack_one, deliver_if, queued_for,
  leasable,
}
use claude_ipc.Storage.Upkeep.{
  purge, purge_one, purge_all, delete_deliveries, tombstone_stale, bump_each, is_stale, purgeable,
}

-- The states in which the recipient has nothing left to do.
abbrev pub is_settled : DeliveryState → Bool
is_settled consumed = true
is_settled accepted = true
is_settled declined = true
is_settled _ = false

-- What may follow what. Consent and consumption reach every state; a settled row stays settled.
abbrev pub may_become : DeliveryState → DeliveryState → Bool
may_become _ consumed = true
may_become _ accepted = true
may_become _ declined = true
may_become queued _ = true
may_become delivered queued = false
may_become delivered _ = true
may_become persisted persisted = true
may_become persisted surfaced = true
may_become persisted _ = false
may_become surfaced surfaced = true
may_become surfaced _ = false
may_become _ _ = false

-- A row may also be created, queued, and be deleted; its address and its time never change.
abbrev pub legal : Option Delivery → Option Delivery → Bool
legal none none = true
legal none (some d) = is_queued d.state
legal (some d) none = true
legal (some d) (some e) =
    e.msg_id == d.msg_id && e.to_alias == d.to_alias && eqb e.ts d.ts && may_become d.state e.state

pub legal_refl : (o : Option Delivery) → legal o o ≡ true
legal_refl none = refl
legal_refl (some d) = ground arith

may_become_refl : (s : DeliveryState) → may_become s s ≡ true
may_become_refl s = ground arith

may_become-queued : (s t : DeliveryState) → is_queued s ≡ true → may_become s t ≡ true
may_become-queued s t h = ground arith

may_become_trans :
    (s t u : DeliveryState) → may_become s t ≡ true → may_become t u ≡ true → may_become s u ≡ true
may_become_trans s t u h k = ground arith

-- Two changes that neither create nor delete the row in between.
legal_trans :
    (o p q : Option Delivery)
    → legal o p ≡ true
    → legal p q ≡ true
    → is_some p ≡ is_some o
    → legal o q ≡ true
legal_trans none p q h k n = ground arith
legal_trans (some c) (some d) (some e) h k n =
    ground (arith, may_become_trans c.state d.state e.state)
legal_trans (some c) (some d) none h k n = refl
legal_trans (some c) none q h k n = cc

abbrev pub row : Backend → Text → Option Delivery
row b k = Map.get b.deliveries k

abbrev pub Legal : Backend → Backend → Type 0
Legal b c = (k : Text) → legal (row b k) (row c k) ≡ true

pub put_delivery-Legal :
    (b : Backend) (msg_id alias : Text) (d e : Delivery)
    → row b (del_key msg_id alias) ≡ some d
    → legal (some d) (some e) ≡ true
    → Legal b (put_delivery b msg_id alias e)
unfolding put_delivery
put_delivery-Legal b msg_id alias d e h l k = rw get-set (ground (arith, legal_refl (row b k)))

pub enqueue-Legal : (b : Backend) (msg_id alias : Text) → Legal b (enqueue b msg_id alias)
unfolding enqueue bump_seq
enqueue-Legal b msg_id alias k = grind (arith, legal_refl, get-set)

pub mark_delivered-Legal :
    (b : Backend) (msg_id alias : Text) (via : Option DeliveredVia)
    → Legal b (mark_delivered b msg_id alias via)
unfolding mark_delivered
mark_delivered-Legal b msg_id alias via k = grind (arith, legal_refl, get-set)

pub mark_consumed-Legal :
    (b : Backend) (msg_id alias : Text) → Legal b (mark_consumed b msg_id alias)
unfolding mark_consumed bump_seq
mark_consumed-Legal b msg_id alias k = grind (arith, legal_refl, get-set)

pub mark_surfaced-Legal :
    (b : Backend) (msg_id alias : Text) → Legal b (mark_surfaced b msg_id alias).0
unfolding mark_surfaced bump_seq
mark_surfaced-Legal b msg_id alias k = grind (arith, legal_refl, get-set)

pub set_consent-Legal :
    (b : Backend) (msg_id alias : Text) (granted : Bool)
    → Legal b (set_consent b msg_id alias granted)
unfolding set_consent bump_seq
set_consent-Legal b msg_id alias granted k = grind (arith, legal_refl, get-set)

pub pending_consume-Legal : (b : Backend) (alias : Text) → Legal b (pending_consume b alias).0
unfolding pending_consume bump_seq
pending_consume-Legal b alias k =
    ground (arith, get-update_values (consume_if (pends_for alias)) b.deliveries k)

pub claim_for_delivery-Legal :
    (b : Backend) (alias : Text) (via : Option DeliveredVia)
    → Legal b (claim_for_delivery b alias via).0
unfolding claim_for_delivery
claim_for_delivery-Legal b alias via k =
    ground (arith, get-update_values (deliver_if (queued_for alias) via) b.deliveries k)

pub lease_loop-Legal :
    (ms : Map Message) (alias : Text) (via : Option DeliveredVia) (id : Text) (now until : ℕ)
    (ls : Map Lease) (ds : Map Delivery) (k : Text)
    → legal (Map.get ds k) (Map.get (lease_loop ms alias via id now until ls ds).deliveries k)
      ≡ true
unfolding lease_loop Map.get
lease_loop-Legal ms alias via id now until ls [] k = refl
lease_loop-Legal ms alias via id now until ls ((i, d) ∷ ds) k = ground (
  arith,
  lease_loop-Legal ms alias via id now until
      (if leasable ls alias now d
        then Map.set ls (del_key d.msg_id alias) (record { id = id; until = until })
        else ls)
      ds k,
  may_become_refl d.state,
)

pub lease_for_delivery-Legal :
    (b : Backend) (alias : Text) (via : Option DeliveredVia) (id : Text) (now until : ℕ)
    → Legal b (lease_for_delivery b alias via id now until).0
unfolding lease_for_delivery
lease_for_delivery-Legal b alias via id now until k =
    lease_loop-Legal b.messages alias via id now until b.leases b.deliveries k

pub ack_one-Legal : (b : Backend) (alias id msg_id : Text) → Legal b (ack_one b alias id msg_id).0
unfolding ack_one
ack_one-Legal b alias id msg_id k = grind (arith, legal_refl, get-set)

-- An acknowledgement neither creates a row nor takes one away.
pub ack_one-keeps :
    (b : Backend) (alias id msg_id k : Text)
    → is_some (row (ack_one b alias id msg_id).0 k) ≡ is_some (row b k)
unfolding ack_one
ack_one-keeps b alias id msg_id k = grind (arith, get-set)

pub ack_delivery-Legal :
    (b : Backend) (alias id : Text) (msg_ids : List Text)
    → Legal b (ack_delivery b alias id msg_ids).0
unfolding ack_delivery
ack_delivery-Legal b alias id [] k = legal_refl (row b k)
ack_delivery-Legal b alias id (m ∷ ms) k =
    let b' = (ack_one b alias id m).0 in
    legal_trans (row b k) (row b' k) _ (ack_one-Legal b alias id m k)
      (ack_delivery-Legal b' alias id ms k) (ack_one-keeps b alias id m k)

pub delete_deliveries-Legal :
    (ds : Map Delivery) (id : Text) (rest : Map Delivery) (k : Text)
    → (Map.get (delete_deliveries ds id rest) k ≡ none)
      ⊎ (Map.get (delete_deliveries ds id rest) k ≡ Map.get ds k)
unfolding delete_deliveries
delete_deliveries-Legal ds id [] k = inr refl
delete_deliveries-Legal ds id ((i, d) ∷ rest) k = ground (
  arith,
  delete_deliveries-Legal (if d.msg_id == id then Map.delete ds i else ds) id rest k,
  get-delete ds i k,
)

-- A purge deletes rows and changes none.
pub purge_all-row :
    (b : Backend) (ms : List Message) (k : Text)
    → (row (purge_all b ms) k ≡ none) ⊎ (row (purge_all b ms) k ≡ row b k)
unfolding purge_one
purge_all-row b [] k = inr refl
purge_all-row b (m ∷ ms) k = ground (
  arith,
  purge_all-row (purge_one b m.id) ms k,
  delete_deliveries-Legal b.deliveries m.id b.deliveries k,
)

pub purge-Legal : (b : Backend) (t : ℕ) → Legal b (purge b t).0
unfolding purge
purge-Legal b t k =
    ground (
      arith,
      purge_all-row b (keep (purgeable b t) (Map.values b.messages)) k,
      legal_refl (row b k),
    )

pub bump_each-deliveries :
    (b : Backend) (addresses : List Text) → (bump_each b addresses).deliveries ≡ b.deliveries
unfolding bump_seq
bump_each-deliveries b [] = refl
bump_each-deliveries b (a ∷ addresses) = bump_each-deliveries (bump_seq b a) addresses

pub tombstone_stale-Legal : (b : Backend) (t : ℕ) → Legal b (tombstone_stale b t).0
unfolding tombstone_stale
tombstone_stale-Legal b t k =
    rw bump_each-deliveries
      (ground (arith, get-update_values (consume_if (is_stale t)) b.deliveries k))
