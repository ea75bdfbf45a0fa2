-- ===== src/Storage/Leases.antt =====
-- Handing messages to a host: `claimForDelivery`, `leaseForDelivery` and `ackDelivery` of
-- src/storage/memoryBackend.ts.
use claude_ipc.Base.{
  ℕ, suc, Text, ◌==◌, Bool, true, false, ◌&&◌, not, Option, none, some, List, [], ◌∷◌, ltb, sort_on,
  if◌then◌else◌,
}
use claude_ipc.Base.Map
use claude_ipc.Base.Map.{Map, values, update_values}
use claude_ipc.Models.{Message, Delivery, DeliveredVia, DeliveryState, queued, delivered, persisted}
use claude_ipc.Storage.State.{Backend, Lease, del_key}
use claude_ipc.Storage.Inbox.{messages_of, push_found, is_queued}

abbrev pub queued_for : Text → Delivery → Bool
queued_for alias d = d.to_alias == alias && is_queued d.state

abbrev pub deliver_if : (Delivery → Bool) → Option DeliveredVia → Delivery → Delivery
deliver_if test via d = if test d then record d { state = delivered; via = via } else d

unfoldable pub claim_for_delivery : Backend → Text → Option DeliveredVia → Backend × List Message
unfolding messages_of
claim_for_delivery b alias via = (
  record b { deliveries = update_values (deliver_if (queued_for alias) via) b.deliveries },
  sort_on (λ m. m.ts) (messages_of b.messages (queued_for alias) (values b.deliveries)),
)

-- `queued` or `delivered`: what a host may still be handed.
abbrev pub can_lease : DeliveryState → Bool
can_lease queued = true
can_lease delivered = true
can_lease _ = false

abbrev pub lease_held : ℕ → Option Lease → Bool
lease_held now none = false
lease_held now (some lease) = ltb now lease.until

-- The loop's test: this alias, a state that can be leased, and no lease that still runs.
abbrev pub leasable : Map Lease → Text → ℕ → Delivery → Bool
leasable leases alias now d =
    d.to_alias == alias
    && can_lease d.state
    && not (lease_held now (Map.get leases (del_key d.msg_id alias)))

pub record LeaseLoop : Type 0 where
  pub leases : Map Lease
  pub deliveries : Map Delivery
  pub out : List Message

-- One round after another over the deliveries. The leases that a round sets are seen by the next.
unfoldable pub lease_loop :
    Map Message → Text → Option DeliveredVia → Text → ℕ → ℕ → Map Lease → Map Delivery → LeaseLoop
lease_loop ms alias via lease_id now lease_until leases [] = record {
  leases = leases;
  deliveries = [];
  out = [];
}
lease_loop ms alias via lease_id now lease_until leases ((k, d) ∷ ds) =
    let take_it = leasable leases alias now d in
    let rest =
      lease_loop ms alias via lease_id now lease_until
        (if take_it
          then Map.set leases (del_key d.msg_id alias)
              (record { id = lease_id; until = lease_until })
          else leases)
        ds in
    record {
      leases = rest.leases;
      deliveries =
          (k, if take_it then record d { via = via; state = delivered } else d) ∷ rest.deliveries;
      out = if take_it then push_found (Map.get ms d.msg_id) rest.out else rest.out;
    }

unfoldable pub lease_for_delivery :
    Backend → Text → Option DeliveredVia → Text → ℕ → ℕ → Backend × List Message
unfolding lease_loop
lease_for_delivery b alias via lease_id now lease_until =
    let r = lease_loop b.messages alias via lease_id now lease_until b.leases b.deliveries in
    (record b { leases = r.leases; deliveries = r.deliveries }, sort_on (λ m. m.ts) r.out)

-- `this.leases.get(key)?.id === leaseId`
abbrev pub lease_is : Option Lease → Text → Bool
lease_is none lease_id = false
lease_is (some lease) lease_id = lease.id == lease_id

-- What follows once the lease has been found: the row is settled if it still could be leased.
unfoldable pub ack_row : Backend → Text → Option Delivery → Backend × Bool
ack_row b key none = (b, false)
ack_row b key (some d) =
    if can_lease d.state
    then (record b { deliveries = Map.set b.deliveries key (record d { state = persisted }) }, true)
    else (b, false)

-- One message id of an acknowledgement: the new state, and whether it counts.
unfoldable pub ack_one : Backend → Text → Text → Text → Backend × Bool
unfolding ack_row
ack_one b alias lease_id msg_id =
    if lease_is (Map.get b.leases (del_key msg_id alias)) lease_id
    then ack_row (record b { leases = Map.delete b.leases (del_key msg_id alias) })
        (del_key msg_id alias) (Map.get b.deliveries (del_key msg_id alias))
    else (b, false)

unfoldable pub ack_delivery : Backend → Text → Text → List Text → Backend × ℕ
unfolding ack_one
ack_delivery b alias lease_id [] = (b, 0)
ack_delivery b alias lease_id (msg_id ∷ msg_ids) =
    let (b', counts) = ack_one b alias lease_id msg_id in
    let (b'', acknowledged) = ack_delivery b' alias lease_id msg_ids in
    (b'', if counts then suc acknowledged else acknowledged)
