-- ===== src/Storage/Inbox.antt =====
-- Deliveries: `enqueue`, `pending`, `recoverable`, the `mark…` operations, `setConsent` and the
-- address listings of src/storage/memoryBackend.ts.
use claude_ipc.Base.{
  ℕ, Text, ◌==◌, Bool, true, false, ◌&&◌, Option, none, some, List, [], ◌∷◌, keep, some_of, sort_on,
  add, starts_with, txt, if◌then◌else◌,
}
use claude_ipc.Base.Map
use claude_ipc.Base.Map.{Map, has, values, update_values}
use claude_ipc.Models.{
  Message, Delivery, DeliveredVia, DeliveryState, queued, delivered, surfaced, persisted, consumed,
  accepted, declined, is_ask,
}
use claude_ipc.Storage.State.{Backend, del_key, is_pending, bump_seq}
use claude_ipc.Storage.Asks.{is_awaiting_open}

abbrev pub message_ts : Option Message → ℕ
message_ts none = 0
message_ts (some m) = m.ts

unfoldable pub enqueue : Backend → Text → Text → Backend
enqueue b msg_id alias =
    if has b.deliveries (del_key msg_id alias)
    then b
    else bump_seq
        (record b {
          deliveries = Map.set b.deliveries (del_key msg_id alias) (record {
            msg_id = msg_id;
            to_alias = alias;
            via = none;
            state = queued;
            ts = message_ts (Map.get b.messages msg_id);
          });
        })
        alias

-- `if (m) out.push(m)`
abbrev pub push_found : Option Message → List Message → List Message
push_found none out = out
push_found (some m) out = m ∷ out

-- A loop over deliveries that pushes the message of each one that passes a test.
unfoldable pub messages_of : Map Message → (Delivery → Bool) → List Delivery → List Message
messages_of ms test [] = []
messages_of ms test (d ∷ ds) =
    let rest = messages_of ms test ds in
    if test d then push_found (Map.get ms d.msg_id) rest else rest

abbrev pub pends_for : Text → Delivery → Bool
pends_for alias d = d.to_alias == alias && is_pending d.state

abbrev pub consume_if : (Delivery → Bool) → Delivery → Delivery
consume_if test d = if test d then record d { state = consumed } else d

unfoldable pub pending : Backend → Text → List Message
unfolding messages_of
pending b alias =
    sort_on (λ m. m.ts) (messages_of b.messages (pends_for alias) (values b.deliveries))

-- `pending(alias, { consume: true })`
unfoldable pub pending_consume : Backend → Text → Backend × List Message
pending_consume b alias =
    let out = pending b alias in
    let b' = record b { deliveries = update_values (consume_if (pends_for alias)) b.deliveries } in
    if some_of (pends_for alias) (values b.deliveries) then (bump_seq b' alias, out) else (b', out)

-- An ask that the host persisted and that still awaits a reply.
abbrev pub owed_ask : Backend → Delivery → Option Message → Bool
owed_ask b d none = false
owed_ask b d (some m) = is_ask m.kind && is_awaiting_open b m.id

abbrev pub is_persisted : DeliveryState → Bool
is_persisted persisted = true
is_persisted _ = false

abbrev pub recovers : Backend → Delivery → Bool
recovers b d = is_persisted d.state && owed_ask b d (Map.get b.messages d.msg_id)

-- `out.set(message.id, message)` for each message in turn
abbrev pub set_all : Map Message → List Message → Map Message
set_all out [] = out
set_all out (m ∷ ms) = set_all (Map.set out m.id m) ms

unfoldable pub recoverable : Backend → Text → List Message
unfolding pending
recoverable b alias =
    sort_on (λ m. m.ts)
      (values (
        set_all (set_all [] (pending b alias)) (
          messages_of b.messages (λ d. d.to_alias == alias && recovers b d) (values b.deliveries))))

unfoldable pub put_delivery : Backend → Text → Text → Delivery → Backend
put_delivery b msg_id alias d = record b {
  deliveries = Map.set b.deliveries (del_key msg_id alias) d;
}

abbrev pub is_queued : DeliveryState → Bool
is_queued queued = true
is_queued _ = false

unfoldable pub mark_delivered : Backend → Text → Text → Option DeliveredVia → Backend
unfolding put_delivery
mark_delivered b msg_id alias via = elim (Map.get b.deliveries (del_key msg_id alias)) [
  | none ↦ b
  | some d ↦
      if is_queued d.state
      then put_delivery b msg_id alias (record d { state = delivered; via = via })
      else b
]

-- Only leaving the pending set is an event.
abbrev pub bump_if : Bool → Backend → Text → Backend
bump_if event b alias = if event then bump_seq b alias else b

unfoldable pub mark_consumed : Backend → Text → Text → Backend
unfolding put_delivery
mark_consumed b msg_id alias = elim (Map.get b.deliveries (del_key msg_id alias)) [
  | none ↦ b
  | some d ↦
      put_delivery (bump_if (is_pending d.state) b alias) msg_id alias
        (record d { state = consumed })
]

abbrev pub can_surface : DeliveryState → Bool
can_surface queued = true
can_surface delivered = true
can_surface persisted = true
can_surface _ = false

unfoldable pub mark_surfaced : Backend → Text → Text → Backend × Bool
unfolding put_delivery
mark_surfaced b msg_id alias = elim (Map.get b.deliveries (del_key msg_id alias)) [
  | none ↦ (b, false)
  | some d ↦
      if can_surface d.state
      then (
        bump_if (is_persisted d.state)
            (put_delivery (record b { leases = Map.delete b.leases (del_key msg_id alias) }) msg_id
              alias (record d { state = surfaced }))
            alias,
        true,
      )
      else (b, false)
]

unfoldable pub set_consent : Backend → Text → Text → Bool → Backend
unfolding put_delivery
set_consent b msg_id alias granted = elim (Map.get b.deliveries (del_key msg_id alias)) [
  | none ↦ b
  | some d ↦
      put_delivery (bump_if (is_pending d.state) b alias) msg_id alias
        (record d { state = if granted then accepted else declined })
]

unfoldable pub deliveries_for : Backend → Text → List Delivery
deliveries_for b msg_id = keep (λ d. d.msg_id == msg_id) (values b.deliveries)

-- `for (const d of …) if (test) out.add(d.toAlias)`
abbrev pub collect_aliases : (Delivery → Bool) → List Text → List Delivery → List Text
collect_aliases test out [] = out
collect_aliases test out (d ∷ ds) =
    collect_aliases test (if test d then add out d.to_alias else out) ds

unfoldable pub project_addresses : Backend → List Text
project_addresses b =
    collect_aliases (λ d. starts_with d.to_alias (txt "proj:") && is_pending d.state) []
      (values b.deliveries)

unfoldable pub pending_addresses : Backend → List Text
pending_addresses b = collect_aliases (λ d. is_pending d.state) [] (values b.deliveries)

unfoldable pub recoverable_addresses : Backend → List Text
unfolding pending_addresses
recoverable_addresses b = collect_aliases (recovers b) (pending_addresses b) (values b.deliveries)
