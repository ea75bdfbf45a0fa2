-- ===== src/Examples/Mailboxes.antt =====
-- A small store, with one ask from `ann` to `bob`, and what the theorems on storage say of it.
use claude_ipc.Base.{sort_on, txt, true, false, none, some, [], ◌∷◌, ◌≡◌, refl, arith}
use claude_ipc.Base.Map
use claude_ipc.Base.Map.{values}
use claude_ipc.Models.{Message, make_message, query, channel, delivered}
use claude_ipc.Storage.State.{Backend, init, del_key, bump_seq, seq_of, last_event_seq}
use claude_ipc.Storage.Inbox.{messages_of, pending, enqueue, mark_consumed}
use claude_ipc.Storage.Leases.{lease_for_delivery, lease_loop, ack_delivery}
use claude_ipc.Storage.Upkeep.{purge, purgeable, tombstone_stale}
use claude_ipc.Storage.Machine.{
  enqueues, consumes_pending, marks_consumed, marks_surfaced, tombstones, apply, run,
}
use claude_ipc.Storage.Rows.{row, legal}
use claude_ipc.Storage.Transitions.{apply-Legal, settled_at, run-settled}
use claude_ipc.Storage.Keys.{KeysOk, apply-KeysOk}
use claude_ipc.Storage.Cursor.{CursorOk, apply-Later}
use claude_ipc.Storage.Events.{Announced, pends, apply-Announced, ack-not-Announced}
use claude_ipc.Storage.Handover.{lease-lease, ack_delivery-ack_delivery}
use claude_ipc.Storage.Retention.{
  facts, no_facts, facts-purge_gone, facts-purge_kept, stays, pending-tombstone_stale,
}

abbrev pub ask : Message
ask = record (make_message (txt "m1") query (txt "ann") (txt "bob") 5) { body = txt "ready?" }

-- The ask is stored but not yet enqueued.
abbrev stored : Backend
stored = record (init 0) { messages = (txt "m1", ask) ∷ [] }

-- The ask is in bob's inbox.
abbrev sent : Backend
unfolding enqueue bump_seq
sent = enqueue stored (txt "m1") (txt "bob")

-- The ask has been leased to bob's host until 20.
abbrev leased_out : Backend
unfolding lease_for_delivery lease_loop
leased_out = (lease_for_delivery sent (txt "bob") (some channel) (txt "lease") 10 20).0

-- The ask has been read and its row has been consumed.
abbrev settled : Backend
unfolding mark_consumed bump_seq
settled = mark_consumed sent (txt "m1") (txt "bob")

stored-CursorOk : CursorOk stored
unfolding Map.get
stored-CursorOk a = omega arith

sent-CursorOk : CursorOk sent
unfolding apply sent enqueue
sent-CursorOk = (apply-Later stored (enqueues (txt "m1") (txt "bob")) stored-CursorOk).ok

stored-KeysOk : KeysOk stored
stored-KeysOk = tt

sent-KeysOk : KeysOk sent
unfolding apply sent enqueue
sent-KeysOk = apply-KeysOk stored (enqueues (txt "m1") (txt "bob")) refl stored-KeysOk

-- The cursor of bob's address after one enqueue.
sent-cursor : last_event_seq sent (txt "bob" ∷ txt "ann" ∷ []) ≡ 1
unfolding last_event_seq Map.get sent Map.set
sent-cursor = refl

apply-Announced_example :
    Announced sent (apply sent (consumes_pending (txt "bob"))) (txt "m1") (txt "bob")
apply-Announced_example =
    apply-Announced sent (consumes_pending (txt "bob")) (txt "m1") (txt "bob") sent-CursorOk
      sent-KeysOk refl refl refl

ack-not-Announced_example :
    (pends leased_out (txt "m1") (txt "bob") ≡ true)
    × (pends
          (ack_delivery leased_out (txt "bob") (txt "lease") (txt "m1" ∷ [])).0
          (txt "m1")
          (txt "bob")
        ≡ false)
    × (seq_of (ack_delivery leased_out (txt "bob") (txt "lease") (txt "m1" ∷ [])).0 (txt "bob")
        ≡ seq_of leased_out (txt "bob"))
unfolding Map.get leased_out sent Map.set
ack-not-Announced_example =
    ack-not-Announced leased_out (txt "bob") (txt "lease") (txt "m1")
      (record { id = txt "lease"; until = 20 })
      (record {
        msg_id = txt "m1";
        to_alias = txt "bob";
        via = some channel;
        state = delivered;
        ts = 5;
      })
      refl refl refl refl

apply-Legal_example :
    legal
      (row sent (del_key (txt "m1") (txt "bob")))
      (row (apply sent (marks_consumed (txt "m1") (txt "bob"))) (del_key (txt "m1") (txt "bob")))
    ≡ true
apply-Legal_example =
    apply-Legal sent (marks_consumed (txt "m1") (txt "bob")) (del_key (txt "m1") (txt "bob"))

run-settled_example :
    settled_at
      (run settled (
        enqueues (txt "m1") (txt "bob")
        ∷ marks_surfaced (txt "m1") (txt "bob")
        ∷ tombstones 9
        ∷ []))
      (del_key (txt "m1") (txt "bob"))
    ≡ true
unfolding Map.get settled sent Map.set
run-settled_example =
    run-settled settled
      (enqueues (txt "m1") (txt "bob") ∷ marks_surfaced (txt "m1") (txt "bob") ∷ tombstones 9 ∷ [])
      (del_key (txt "m1") (txt "bob")) refl refl

apply-KeysOk_example : KeysOk (apply sent (consumes_pending (txt "bob")))
apply-KeysOk_example = apply-KeysOk sent (consumes_pending (txt "bob")) refl sent-KeysOk

lease-lease_example :
    (lease_for_delivery
      (lease_for_delivery sent (txt "bob") (some channel) (txt "l1") 10 20).0
      (txt "bob")
      none
      (txt "l2")
      10
      30).1
    ≡ []
lease-lease_example =
    lease-lease sent (txt "bob") (some channel) none (txt "l1") (txt "l2") 10 20 30 (omega arith)

ack_delivery-ack_delivery_example :
    ack_delivery
      (ack_delivery leased_out (txt "bob") (txt "lease") (txt "m1" ∷ [])).0
      (txt "bob")
      (txt "lease")
      (txt "m1" ∷ [])
    ≡ ((ack_delivery leased_out (txt "bob") (txt "lease") (txt "m1" ∷ [])).0, 0)
ack_delivery-ack_delivery_example =
    ack_delivery-ack_delivery leased_out (txt "bob") (txt "lease") (txt "m1" ∷ [])

facts-purge_gone_example : facts (purge settled 9).0 (txt "m1") ≡ no_facts
unfolding purgeable Map.get settled sent Map.set
facts-purge_gone_example = facts-purge_gone settled 9 (txt "m1") ask refl refl

facts-purge_kept_example : facts (purge sent 9).0 (txt "m1") ≡ facts sent (txt "m1")
unfolding sent Map.get Map.set
facts-purge_kept_example = facts-purge_kept sent 9 (txt "m1") refl

pending-tombstone_stale_example :
    pending (tombstone_stale sent 9).0 (txt "bob")
    ≡ sort_on (λ m. m.ts) (messages_of sent.messages (stays (txt "bob") 9) (values sent.deliveries))
pending-tombstone_stale_example = pending-tombstone_stale sent 9 (txt "bob")
