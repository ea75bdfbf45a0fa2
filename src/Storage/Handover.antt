-- ===== src/Storage/Handover.antt =====
-- Who is handed a message, and how often: claims, leases and acknowledgements of
-- src/storage/memoryBackend.ts.
use claude_ipc.Base.{
  ℕ, ◌<◌, Text, ◌==◌, Bool, true, false, Option, none, some, List, [], ◌∷◌, ◌≡◌, refl, ap, ◌∙◌,
  arith, if◌then◌else◌, some_of, sort_on, some_of-sort_on,
}
use claude_ipc.Base.Map
use claude_ipc.Base.Map.{Map, values, update_values, get-set}
use claude_ipc.Base.Map.Entries.{get-delete}
use claude_ipc.Models.{Message, Delivery, DeliveredVia, queued, delivered}
use claude_ipc.Storage.State.{Backend, Lease, bump_seq, del_key}
use claude_ipc.Storage.Inbox.{messages_of, pending, pending_consume, pends_for, consume_if, enqueue}
use claude_ipc.Storage.Leases.{
  claim_for_delivery, deliver_if, queued_for, lease_for_delivery, lease_loop, leasable, lease_held,
  lease_is, ack_one, ack_delivery,
}

-- A loop whose test passes nowhere pushes nothing.
none_left :
    (ms : Map Message) (test : Delivery → Bool) (f : Delivery → Delivery) (ds : Map Delivery)
    → ((d : Delivery) → test (f d) ≡ false)
    → messages_of ms test (values (update_values f ds)) ≡ []
unfolding messages_of
none_left ms test f [] h = refl
none_left ms test f ((k, d) ∷ ds) h = ground (arith, h d, none_left ms test f ds h)

-- After one claim for delivery of an alias, a second claim hands out nothing.
pub claim-claim :
    (b : Backend) (alias : Text) (via via' : Option DeliveredVia)
    → (claim_for_delivery (claim_for_delivery b alias via).0 alias via').1 ≡ []
unfolding claim_for_delivery sort_on
claim-claim b alias via via' = ap (sort_on (λ m. m.ts)) (
    none_left b.messages (queued_for alias) (deliver_if (queued_for alias) via) b.deliveries
      (λ d. ground arith))

-- An inbox that was read with `consume` is empty.
pub pending-pending_consume :
    (b : Backend) (alias : Text) → pending (pending_consume b alias).0 alias ≡ []
unfolding pending pending_consume sort_on bump_seq
pending-pending_consume b alias = ground (
  arith,
  ap (sort_on (λ m. m.ts)) (
      none_left b.messages (pends_for alias) (consume_if (pends_for alias)) b.deliveries
        (λ d. ground arith)),
)

-- A lease that runs is never taken away by a later round.
lease_loop-held :
    (ms : Map Message) (alias : Text) (via : Option DeliveredVia) (id : Text) (now until : ℕ)
    (ls : Map Lease) (ds : Map Delivery) (q : Text)
    → now < until
    → lease_held now (Map.get ls q) ≡ true
    → lease_held now (Map.get (lease_loop ms alias via id now until ls ds).leases q) ≡ true
unfolding lease_loop
lease_loop-held ms alias via id now until ls [] q r h = h
lease_loop-held ms alias via id now until ls ((k, d) ∷ ds) q r h =
    lease_loop-held ms alias via id now until
      (if leasable ls alias now d
        then Map.set ls (del_key d.msg_id alias) (record { id = id; until = until })
        else ls)
      ds q r (grind (arith, get-set))

abbrev handed : Map Lease → Text → Option DeliveredVia → ℕ → Delivery → Delivery
handed ls alias via now d =
    if leasable ls alias now d then record d { via = via; state = delivered } else d

abbrev leased : Map Lease → Text → Text → ℕ → ℕ → Delivery → Map Lease
leased ls alias id now until d =
    if leasable ls alias now d
    then Map.set ls (del_key d.msg_id alias) (record { id = id; until = until })
    else ls

-- After its round, a row is held or cannot be leased.
handed-leasable :
    (ls held : Map Lease) (alias id : Text) (via : Option DeliveredVia) (now until : ℕ)
    (d : Delivery)
    → now < until
    → (lease_held now (Map.get (leased ls alias id now until d) (del_key d.msg_id alias)) ≡ true
        → lease_held now (Map.get held (del_key d.msg_id alias)) ≡ true)
    → leasable held alias now (handed ls alias via now d) ≡ false
handed-leasable ls held alias id via now until d r h = ground (
  arith,
  get-set ls (del_key d.msg_id alias) (del_key d.msg_id alias) (record { id = id; until = until }),
)

-- A second round of leasing, under leases that keep all that the first one set, takes nothing.
lease_loop-again :
    (ms : Map Message) (alias : Text) (via via' : Option DeliveredVia) (id id' : Text)
    (now until until' : ℕ) (ls held : Map Lease) (ds : Map Delivery)
    → now < until
    → ((q : Text)
        → lease_held now (Map.get (lease_loop ms alias via id now until ls ds).leases q) ≡ true
        → lease_held now (Map.get held q) ≡ true)
    → (lease_loop ms alias via' id' now until' held
        (lease_loop ms alias via id now until ls ds).deliveries).out
      ≡ []
unfolding lease_loop
lease_loop-again ms alias via via' id id' now until until' ls held [] r h = refl
lease_loop-again ms alias via via' id id' now until until' ls held ((k, d) ∷ ds) r h =
    rw
      (handed-leasable ls held alias id via now until d r (λ e. h (del_key d.msg_id alias) (
        lease_loop-held ms alias via id now until (leased ls alias id now until d) ds
          (del_key d.msg_id alias) r e)))
      (lease_loop-again ms alias via via' id id' now until until' (leased ls alias id now until d)
        held ds r h)

-- A second round of leasing for the same mailbox at the same moment hands out nothing, under whatever
-- lease id and by whatever way, if the first round's leases end later than that moment.
pub lease-lease :
    (b : Backend) (alias : Text) (via via' : Option DeliveredVia) (id id' : Text)
    (now until until' : ℕ)
    → now < until
    → (lease_for_delivery
        (lease_for_delivery b alias via id now until).0
        alias
        via'
        id'
        now
        until').1
      ≡ []
unfolding lease_for_delivery sort_on
lease-lease b alias via via' id id' now until until' r = ap (sort_on (λ m. m.ts)) (
    lease_loop-again b.messages alias via via' id id' now until until' b.leases
      (lease_loop b.messages alias via id now until b.leases b.deliveries).leases b.deliveries r
      (λ q h. h))

-- No message id in the list is held at this alias under the lease.
abbrev pub Foreign : Backend → Text → Text → List Text → Type 0
Foreign b alias lease_id [] = Unit
Foreign b alias lease_id (m ∷ ms) =
    (lease_is (Map.get b.leases (del_key m alias)) lease_id ≡ false) × Foreign b alias lease_id ms

-- An acknowledgement under a lease that holds none of its messages at the alias changes nothing, and
-- counts 0.
pub ack_delivery-Foreign :
    (b : Backend) (alias lease_id : Text) (ms : List Text)
    → Foreign b alias lease_id ms
    → ack_delivery b alias lease_id ms ≡ (b, 0)
unfolding ack_delivery ack_one
ack_delivery-Foreign b alias lease_id [] f = refl
ack_delivery-Foreign b alias lease_id (m ∷ ms) f =
    rw f.0 (ground (arith, ack_delivery-Foreign b alias lease_id ms f.1))

-- What an acknowledgement of one message leaves to be acknowledged.
ack_one-lease :
    (b : Backend) (alias id m q : Text)
    → lease_is (Map.get (ack_one b alias id m).0.leases q) id ≡ true
    → lease_is (Map.get b.leases q) id ≡ true
unfolding ack_one
ack_one-lease b alias id m q h = ground (arith, get-delete b.leases (del_key m alias) q)

ack_one-done :
    (b : Backend) (alias id m : Text)
    → lease_is (Map.get (ack_one b alias id m).0.leases (del_key m alias)) id ≡ false
unfolding ack_one
ack_one-done b alias id m = ground (arith, get-delete b.leases (del_key m alias) (del_key m alias))

ack_delivery-lease :
    (b : Backend) (alias id : Text) (ms : List Text) (q : Text)
    → lease_is (Map.get (ack_delivery b alias id ms).0.leases q) id ≡ true
    → lease_is (Map.get b.leases q) id ≡ true
unfolding ack_delivery
ack_delivery-lease b alias id [] q h = h
ack_delivery-lease b alias id (m ∷ ms) q h =
    ack_one-lease b alias id m q (ack_delivery-lease (ack_one b alias id m).0 alias id ms q h)

ack_delivery-done :
    (b : Backend) (alias id : Text) (ms : List Text)
    → Foreign (ack_delivery b alias id ms).0 alias id ms
unfolding ack_delivery
ack_delivery-done b alias id [] = tt
ack_delivery-done b alias id (m ∷ ms) = (
  ground (
    arith,
    ack_delivery-lease (ack_one b alias id m).0 alias id ms (del_key m alias),
    ack_one-done b alias id m,
  ),
  ack_delivery-done (ack_one b alias id m).0 alias id ms,
)

-- At the storage, an acknowledgement of the same messages for the same alias under the same lease
-- changes nothing the second time, and counts 0.
pub ack_delivery-ack_delivery :
    (b : Backend) (alias lease_id : Text) (ms : List Text)
    → let b' = (ack_delivery b alias lease_id ms).0 in ack_delivery b' alias lease_id ms ≡ (b', 0)
ack_delivery-ack_delivery b alias lease_id ms =
    ack_delivery-Foreign (ack_delivery b alias lease_id ms).0 alias lease_id ms
      (ack_delivery-done b alias lease_id ms)

-- The message of a row that passes the test is among those that the loop pushes.
messages_of-get :
    (ms : Map Message) (test : Delivery → Bool) (p : Message → Bool) (ds : Map Delivery) (k : Text)
    (d : Delivery) (m : Message)
    → Map.get ds k ≡ some d
    → test d ≡ true
    → Map.get ms d.msg_id ≡ some m
    → p m ≡ true
    → some_of p (messages_of ms test (values ds)) ≡ true
unfolding messages_of Map.get
messages_of-get ms test p [] k d m e t f h = cc
messages_of-get ms test p ((i, w) ∷ ds) k d m e t f h =
    ground (arith, messages_of-get ms test p ds k d m)

-- A row that is pending for an alias puts its message into the alias's inbox.
pub pending-get :
    (b : Backend) (alias k : Text) (d : Delivery) (m : Message)
    → Map.get b.deliveries k ≡ some d
    → pends_for alias d ≡ true
    → Map.get b.messages d.msg_id ≡ some m
    → some_of (λ x. x.id == m.id) (pending b alias) ≡ true
unfolding pending
pending-get b alias k d m e t f =
    some_of-sort_on (λ x. x.ts) (λ x. x.id == m.id) _
    ∙ messages_of-get b.messages (pends_for alias) (λ x. x.id == m.id) b.deliveries k d m e t f
        (ground arith)

abbrev new_row : Message → Text → Delivery
new_row m alias = record { msg_id = m.id; to_alias = alias; via = none; state = queued; ts = m.ts }

enqueue-row :
    (b : Backend) (alias : Text) (m : Message)
    → Map.get b.messages m.id ≡ some m
    → Map.get b.deliveries (del_key m.id alias) ≡ none
    → (Map.get (enqueue b m.id alias).deliveries (del_key m.id alias) ≡ some (new_row m alias))
      × ((enqueue b m.id alias).messages ≡ b.messages)
unfolding enqueue bump_seq
enqueue-row b alias m e f =
    ground (arith, get-set b.deliveries (del_key m.id alias) (del_key m.id alias) (new_row m alias))

-- A message that is stored under its id and enqueued to an alias for the first time is pending
-- there.
pub pending-enqueue :
    (b : Backend) (alias : Text) (m : Message)
    → Map.get b.messages m.id ≡ some m
    → Map.get b.deliveries (del_key m.id alias) ≡ none
    → some_of (λ x. x.id == m.id) (pending (enqueue b m.id alias) alias) ≡ true
pending-enqueue b alias m e f =
    let (r, s) = enqueue-row b alias m e f in
    pending-get (enqueue b m.id alias) alias (del_key m.id alias) (new_row m alias) m r
      (ground arith) (rw s e)
