-- ===== src/Storage/Events.antt =====
-- The promise of src/storage/base.ts that the cursor moves with every change of a pending set.
use claude_ipc.Base.{
  ℕ, suc, ◌<◌, Text, Bool, true, false, Option, none, some, [], ◌∷◌, ◌≡◌, refl, ap, ◌⊎◌, inl, inr,
  arith, keep, Bool-cases, subst, Option-cases, or_default, contains,
}
use claude_ipc.Base.Map
use claude_ipc.Base.Map.{Map, update_values, get-set, values}
use claude_ipc.Base.Map.Entries.{get-update_values, some_of-get}
use claude_ipc.Models.{Delivery, DeliveredVia}
use claude_ipc.Storage.State.{Backend, Lease, bump_seq, del_key, seq_of, is_pending}
use claude_ipc.Storage.Messages.{append, append_routed, queue_outbound, delete_outbound, save_route}
use claude_ipc.Storage.Inbox.{
  enqueue, pending_consume, mark_delivered, mark_consumed, mark_surfaced, set_consent, consume_if,
  pends_for,
}
use claude_ipc.Storage.Leases.{
  claim_for_delivery, lease_for_delivery, ack_delivery, deliver_if, queued_for, can_lease,
}
use claude_ipc.Storage.Asks.{open_awaiting, mark_nudged, defer_nudge, close_awaiting}
use claude_ipc.Storage.Projects.{
  mark_superseded, claim_project, release_claim, pass_project, mark_project_surfaced,
}
use claude_ipc.Storage.Upkeep.{
  save_registry, purge, tombstone_stale, is_stale, purgeable, consume_stale, stale_addresses,
}
use claude_ipc.Storage.Machine.{
  Write, appends, appends_routed, queues_outbound, deletes_outbound, saves_route, enqueues,
  consumes_pending, marks_delivered, marks_consumed, marks_surfaced, sets_consent, claims_delivery,
  leases_delivery, acks_delivery, opens_awaiting, marks_nudged, defers_nudge, closes_awaiting,
  marks_superseded, claims_project, releases_claim, passes_project, marks_project_surfaced,
  saves_registry, purges, tombstones, apply,
}
use claude_ipc.Storage.Rows.{purge_all-row, row, bump_each-deliveries}
use claude_ipc.Storage.Keys.{KeysOk, nul_free, del_key-injective}
use claude_ipc.Storage.Cursor.{CursorOk, ack_delivery-cursor}
use claude_ipc.Storage.Loops.{
  row_address, lease_loop-pends, collect-get, bump_each-raises, purge_all-keeps_row,
  purgeable-Others,
}

-- Message `id` is pending in the inbox of `a`.
abbrev pub pends : Backend → Text → Text → Bool
pends b id a = elim (row b (del_key id a)) [ none ↦ false | some d ↦ is_pending d.state ]

-- Nothing changed for this message and address, or the address's cursor went up.
abbrev pub Announced : Backend → Backend → Text → Text → Type 0
Announced b c id a = (pends c id a ≡ pends b id a) ⊎ (seq_of b a < seq_of c a)

-- The message ids that a write names.
abbrev pub clean : Write → Bool
clean (enqueues msg_id alias) = nul_free msg_id
clean (marks_delivered msg_id alias via) = nul_free msg_id
clean (marks_consumed msg_id alias) = nul_free msg_id
clean (marks_surfaced msg_id alias) = nul_free msg_id
clean (sets_consent msg_id alias granted) = nul_free msg_id
clean _ = true

abbrev pub is_ack : Write → Bool
is_ack (acks_delivery _ _ _) = true
is_ack _ = false

module _ (b : Backend) (id a : Text) (h : CursorOk b) (n : nul_free id ≡ true) where
  enqueue-Announced : (m x : Text) → nul_free m ≡ true → Announced b (enqueue b m x) id a
  unfolding enqueue bump_seq
  enqueue-Announced m x c = grind (arith, get-set, del_key-injective m id x a, h a)

  mark_consumed-Announced :
      (m x : Text) → nul_free m ≡ true → Announced b (mark_consumed b m x) id a
  unfolding mark_consumed bump_seq
  mark_consumed-Announced m x c = grind (arith, get-set, del_key-injective m id x a, h a)

  mark_surfaced-Announced :
      (m x : Text) → nul_free m ≡ true → Announced b (mark_surfaced b m x).0 id a
  unfolding mark_surfaced bump_seq
  mark_surfaced-Announced m x c = grind (arith, get-set, del_key-injective m id x a, h a)

  set_consent-Announced :
      (m x : Text) (g : Bool) → nul_free m ≡ true → Announced b (set_consent b m x g) id a
  unfolding set_consent bump_seq
  set_consent-Announced m x g c = grind (arith, get-set, del_key-injective m id x a, h a)

  mark_delivered-Announced :
      (m x : Text) (via : Option DeliveredVia)
      → nul_free m ≡ true
      → Announced b (mark_delivered b m x via) id a
  unfolding mark_delivered
  mark_delivered-Announced m x via c = grind (arith, get-set, del_key-injective m id x a)

module _ (b : Backend) (id a : Text) (h : CursorOk b) (keys : KeysOk b)
    (n : nul_free id ≡ true) where
  pending_consume-Announced : (x : Text) → Announced b (pending_consume b x).0 id a
  unfolding pending_consume
  pending_consume-Announced x = elim (Option-cases (row b (del_key id a))) [
    | inl e ↦
        unfold bump_seq in
        ground (arith, get-update_values (consume_if (pends_for x)) b.deliveries (del_key id a))
    | inr (d, e) ↦
        unfold bump_seq in
        ground (
          arith,
          get-update_values (consume_if (pends_for x)) b.deliveries (del_key id a),
          row_address b id a d keys n e,
          some_of-get (pends_for x) b.deliveries (del_key id a) {v = d} e,
          get-set b.addr_seq x a (suc b.seq_counter),
          h a,
        )
  ]

  claim_for_delivery-Announced :
      (x : Text) (via : Option DeliveredVia) → Announced b (claim_for_delivery b x via).0 id a
  unfolding claim_for_delivery
  claim_for_delivery-Announced x via =
      ground (arith, get-update_values (deliver_if (queued_for x) via) b.deliveries (del_key id a))

module _ (b : Backend) (id a : Text) (h : CursorOk b) (keys : KeysOk b)
    (n : nul_free id ≡ true) where
  purge-keeps_pends : (t : ℕ) → pends (purge b t).0 id a ≡ pends b id a
  unfolding purge
  purge-keeps_pends t = elim (Option-cases (row b (del_key id a))) [
    | inl e ↦
        ground (arith, purge_all-row b (keep (purgeable b t) (values b.messages)) (del_key id a))
    | inr (d, e) ↦ elim (Bool-cases (is_pending d.state)) [
      | inl p ↦
          ap (λ (o : Option Delivery). elim o [ none ↦ false | some d ↦ is_pending d.state ])
            (purge_all-keeps_row b (keep (purgeable b t) (values b.messages)) id a n keys (
              purgeable-Others b t id (values b.messages) (
                some_of-get _ b.deliveries (del_key id a) {v = d} e
                  (ground (arith, row_address b id a d keys n e)))))
      | inr p ↦
          ground (arith, purge_all-row b (keep (purgeable b t) (values b.messages)) (del_key id a))
    ]
  ]

  tombstone_stale-row :
      (t : ℕ)
      → row (tombstone_stale b t).0 (del_key id a)
        ≡ Map.get (update_values (consume_if (is_stale t)) b.deliveries) (del_key id a)
  unfolding tombstone_stale
  tombstone_stale-row t =
      ap (λ m. Map.get m (del_key id a))
        (bump_each-deliveries (consume_stale b t) (stale_addresses b t))

  tombstone_stale-Announced : (t : ℕ) → Announced b (tombstone_stale b t).0 id a
  unfolding tombstone_stale
  tombstone_stale-Announced t = elim (Option-cases (row b (del_key id a))) [
    | inl e ↦ inl (
        ground (
          arith,
          tombstone_stale-row t,
          get-update_values (consume_if (is_stale t)) b.deliveries (del_key id a),
        ))
    | inr (d, e) ↦ elim (Bool-cases (is_stale t d)) [
      | inl p ↦ inr (
          bump_each-raises (consume_stale b t) (stale_addresses b t) a h (
            subst (λ x. contains (stale_addresses b t) x ≡ true) (row_address b id a d keys n e).1
              (collect-get (is_stale t) [] b.deliveries (del_key id a) d e p)))
      | inr p ↦ inl (
          ground (
            arith,
            tombstone_stale-row t,
            get-update_values (consume_if (is_stale t)) b.deliveries (del_key id a),
          ))
    ]
  ]

-- After a write other than an acknowledgement, a message is pending at an address exactly if it was
-- before, or the address's cursor has gone up. No address may be ahead of the counter before, each
-- delivery must stand under its own key, and no message id involved may hold U+0000.
pub apply-Announced :
    (b : Backend) (w : Write) (id a : Text)
    → CursorOk b
    → KeysOk b
    → clean w ≡ true
    → nul_free id ≡ true
    → is_ack w ≡ false
    → Announced b (apply b w) id a
unfolding apply
apply-Announced b (appends m) id a h keys c n k = unfold append in ground arith
apply-Announced b (appends_routed m targets) id a h keys c n k =
    unfold append_routed in ground arith
apply-Announced b (queues_outbound i) id a h keys c n k = unfold queue_outbound in ground arith
apply-Announced b (deletes_outbound o) id a h keys c n k = unfold delete_outbound in inl refl
apply-Announced b (saves_route m targets) id a h keys c n k = unfold save_route in ground arith
apply-Announced b (enqueues m x) id a h keys c n k = enqueue-Announced b id a h n m x c
apply-Announced b (consumes_pending x) id a h keys c n k =
    pending_consume-Announced b id a h keys n x
apply-Announced b (marks_delivered m x via) id a h keys c n k =
    mark_delivered-Announced b id a h n m x via c
apply-Announced b (marks_consumed m x) id a h keys c n k = mark_consumed-Announced b id a h n m x c
apply-Announced b (marks_surfaced m x) id a h keys c n k = mark_surfaced-Announced b id a h n m x c
apply-Announced b (sets_consent m x g) id a h keys c n k = set_consent-Announced b id a h n m x g c
apply-Announced b (claims_delivery x via) id a h keys c n k =
    claim_for_delivery-Announced b id a h keys n x via
apply-Announced b (leases_delivery x via l now until) id a h keys c n k =
    unfold lease_for_delivery in
    inl (lease_loop-pends b.messages x via l now until b.leases b.deliveries (del_key id a))
apply-Announced b (acks_delivery x l ms) id a h keys c n k = cc
apply-Announced b (opens_awaiting o e r f) id a h keys c n k = unfold open_awaiting in inl refl
apply-Announced b (marks_nudged o s) id a h keys c n k = unfold mark_nudged in ground arith
apply-Announced b (defers_nudge o f) id a h keys c n k = unfold defer_nudge in ground arith
apply-Announced b (closes_awaiting o r) id a h keys c n k = unfold close_awaiting in ground arith
apply-Announced b (marks_superseded o s) id a h keys c n k = unfold mark_superseded in inl refl
apply-Announced b (claims_project m x) id a h keys c n k = unfold claim_project in ground arith
apply-Announced b (releases_claim m) id a h keys c n k = unfold release_claim in inl refl
apply-Announced b (passes_project m x) id a h keys c n k = unfold pass_project in inl refl
apply-Announced b (marks_project_surfaced m x) id a h keys c n k =
    unfold mark_project_surfaced in inl refl
apply-Announced b (saves_registry entries) id a h keys c n k = unfold save_registry in inl refl
apply-Announced b (purges t) id a h keys c n k = inl (purge-keeps_pends b id a h keys n t)
apply-Announced b (tombstones t) id a h keys c n k = tombstone_stale-Announced b id a h keys n t

-- An acknowledgement is silent: when an alias holds a queued or delivered message under a lease, it
-- takes the message out of the alias's pending set, and the alias's cursor stays where it was.
pub ack-not-Announced :
    (b : Backend) (alias lease_id id : Text) (l : Lease) (d : Delivery)
    → Map.get b.leases (del_key id alias) ≡ some l
    → l.id ≡ lease_id
    → row b (del_key id alias) ≡ some d
    → can_lease d.state ≡ true
    → (pends b id alias ≡ true)
      × (pends (ack_delivery b alias lease_id (id ∷ [])).0 id alias ≡ false)
      × (seq_of (ack_delivery b alias lease_id (id ∷ [])).0 alias ≡ seq_of b alias)
unfolding ack_delivery
ack-not-Announced b alias lease_id id l d e p r s = (
  ground arith,
  grind (arith, get-set),
  ap (λ m. or_default (Map.get m alias) 0) (ack_delivery-cursor b alias lease_id (id ∷ [])).0,
)
