-- ===== src/Storage/Cursor.antt =====
-- The event cursor: `bumpSeq` and `lastEventSeq` of src/storage/memoryBackend.ts, and the promise
-- of src/storage/base.ts that the cursor moves with every change of a pending set.
use claude_ipc.Base.{
  ℕ, suc, ◌≤◌, Text, ◌==◌, Bool, List, [], ◌∷◌, ◌≡◌, refl, arith, if◌then◌else◌, keep, ◌∙◌,
}
use claude_ipc.Base.Map.{update_values, get-set, values}
use claude_ipc.Models.{Message}
use claude_ipc.Storage.State.{Backend, bump_seq, seq_of, last_event_seq}
use claude_ipc.Storage.Messages.{append, append_routed, queue_outbound, delete_outbound, save_route}
use claude_ipc.Storage.Inbox.{
  enqueue, pending_consume, mark_delivered, mark_consumed, mark_surfaced, set_consent, consume_if,
  collect_aliases,
}
use claude_ipc.Storage.Leases.{claim_for_delivery, lease_for_delivery, ack_delivery, ack_one}
use claude_ipc.Storage.Asks.{open_awaiting, mark_nudged, defer_nudge, close_awaiting}
use claude_ipc.Storage.Projects.{
  mark_superseded, claim_project, release_claim, pass_project, mark_project_surfaced,
}
use claude_ipc.Storage.Upkeep.{
  save_registry, purge, purge_one, purge_all, tombstone_stale, bump_each, is_stale, purgeable,
}
use claude_ipc.Storage.Machine.{
  Write, appends, appends_routed, queues_outbound, deletes_outbound, saves_route, enqueues,
  consumes_pending, marks_delivered, marks_consumed, marks_surfaced, sets_consent, claims_delivery,
  leases_delivery, acks_delivery, opens_awaiting, marks_nudged, defers_nudge, closes_awaiting,
  marks_superseded, claims_project, releases_claim, passes_project, marks_project_surfaced,
  saves_registry, purges, tombstones, apply, run,
}

-- No address has a number above the counter.
abbrev pub CursorOk : Backend → Type 0
CursorOk b = (a : Text) → seq_of b a ≤ b.seq_counter

-- The counter and every address's number only grow.
pub record Later (b c : Backend) : Type 0 where
  pub counter : b.seq_counter ≤ c.seq_counter
  pub cursors : (a : Text) → seq_of b a ≤ seq_of c a
  pub ok : CursorOk c

still :
    (b c : Backend)
    → CursorOk b
    → c.addr_seq ≡ b.addr_seq
    → c.seq_counter ≡ b.seq_counter
    → Later b c
still b c h e n = record {
  counter = omega arith;
  cursors = λ a. rw e (omega arith);
  ok = λ a. rw (e, n) (h a);
}

Later-trans : (b c d : Backend) → Later b c → Later c d → Later b d
Later-trans b c d h k = record {
  counter = omega (arith, h.counter, k.counter);
  cursors = λ a. omega (arith, h.cursors a, k.cursors a);
  ok = k.ok;
}

-- A bump puts the address above its old number.
pub seq_of-bump_seq :
    (b : Backend) (a x : Text)
    → seq_of (bump_seq b a) x ≡ (if a == x then suc b.seq_counter else seq_of b x)
unfolding bump_seq
seq_of-bump_seq b a x = rw get-set (ground arith)

pub bump_seq-Later : (b : Backend) (a : Text) → CursorOk b → Later b (bump_seq b a)
bump_seq-Later b a h = record {
  counter = unfold bump_seq in omega arith;
  cursors = λ x. rw seq_of-bump_seq (ground (arith, h x));
  ok = λ x. rw seq_of-bump_seq (unfold bump_seq in ground (arith, h x));
}

bump_of :
    (b b' : Backend) (a : Text)
    → b'.addr_seq ≡ b.addr_seq
    → b'.seq_counter ≡ b.seq_counter
    → CursorOk b
    → Later b (bump_seq b' a)
bump_of b b' a e n h =
    let s = still b b' h e n in Later-trans b b' (bump_seq b' a) s (bump_seq-Later b' a s.ok)

enqueue-Later : (b : Backend) (m a : Text) → CursorOk b → Later b (enqueue b m a)
unfolding enqueue
enqueue-Later b m a h = grind (arith, still, bump_of)

pending_consume-Later : (b : Backend) (a : Text) → CursorOk b → Later b (pending_consume b a).0
unfolding pending_consume
pending_consume-Later b a h = grind (arith, still, bump_of)

module _ (b : Backend) (h : CursorOk b) where
  mark_consumed-Later : (m a : Text) → Later b (mark_consumed b m a)
  unfolding mark_consumed bump_seq
  mark_consumed-Later m a = record {
    counter = ground arith;
    cursors = λ x. grind (arith, get-set, h x);
    ok = λ x. grind (arith, get-set, h x);
  }

  mark_surfaced-Later : (m a : Text) → Later b (mark_surfaced b m a).0
  unfolding mark_surfaced bump_seq
  mark_surfaced-Later m a = record {
    counter = ground arith;
    cursors = λ x. grind (arith, get-set, h x);
    ok = λ x. grind (arith, get-set, h x);
  }

  set_consent-Later : (m a : Text) (granted : Bool) → Later b (set_consent b m a granted)
  unfolding set_consent bump_seq
  set_consent-Later m a granted = record {
    counter = ground arith;
    cursors = λ x. grind (arith, get-set, h x);
    ok = λ x. grind (arith, get-set, h x);
  }

-- What a purge, an acknowledgement and a loop of bumps do to the cursor.
pub purge_all-cursor :
    (b : Backend) (ms : List Message)
    → ((purge_all b ms).addr_seq ≡ b.addr_seq) × ((purge_all b ms).seq_counter ≡ b.seq_counter)
unfolding purge_one
purge_all-cursor b [] = (refl, refl)
purge_all-cursor b (m ∷ ms) = purge_all-cursor (purge_one b m.id) ms

ack_one-cursor :
    (b : Backend) (alias id m : Text)
    → ((ack_one b alias id m).0.addr_seq ≡ b.addr_seq)
      × ((ack_one b alias id m).0.seq_counter ≡ b.seq_counter)
unfolding ack_one
ack_one-cursor b alias id m = ground arith

pub ack_delivery-cursor :
    (b : Backend) (alias id : Text) (ms : List Text)
    → ((ack_delivery b alias id ms).0.addr_seq ≡ b.addr_seq)
      × ((ack_delivery b alias id ms).0.seq_counter ≡ b.seq_counter)
unfolding ack_delivery
ack_delivery-cursor b alias id [] = (refl, refl)
ack_delivery-cursor b alias id (m ∷ ms) =
    let (e, n) = ack_one-cursor b alias id m in
    let (e', n') = ack_delivery-cursor (ack_one b alias id m).0 alias id ms in (e' ∙ e, n' ∙ n)

pub bump_each-Later : (b : Backend) (xs : List Text) → CursorOk b → Later b (bump_each b xs)
bump_each-Later b [] h = still b b h refl refl
bump_each-Later b (a ∷ xs) h =
    let l = bump_seq-Later b a h in
    Later-trans b (bump_seq b a) _ l (bump_each-Later (bump_seq b a) xs l.ok)

tombstone_stale-Later : (b : Backend) (t : ℕ) → CursorOk b → Later b (tombstone_stale b t).0
unfolding tombstone_stale
tombstone_stale-Later b t h =
    let b' : Backend = record b {
      deliveries = update_values (consume_if (is_stale t)) b.deliveries;
    } in
    let s = still b b' h refl refl in
    Later-trans b b' _ s
      (bump_each-Later b' (collect_aliases (is_stale t) [] (values b.deliveries)) s.ok)

-- Whatever is written, no cursor is ever set back, and no address gets ahead of the counter.
pub apply-Later : (b : Backend) (w : Write) → CursorOk b → Later b (apply b w)
unfolding apply
apply-Later b (appends m) h = unfold append in grind (arith, still)
apply-Later b (appends_routed m targets) h = unfold append_routed in grind (arith, still)
apply-Later b (queues_outbound intent) h = unfold queue_outbound in grind (arith, still)
apply-Later b (deletes_outbound operation_id) h = unfold delete_outbound in still b _ h refl refl
apply-Later b (saves_route msg_id targets) h = unfold save_route in grind (arith, still)
apply-Later b (enqueues msg_id alias) h = enqueue-Later b msg_id alias h
apply-Later b (consumes_pending alias) h = pending_consume-Later b alias h
apply-Later b (marks_delivered msg_id alias via) h = unfold mark_delivered in grind (arith, still)
apply-Later b (marks_consumed msg_id alias) h = mark_consumed-Later b h msg_id alias
apply-Later b (marks_surfaced msg_id alias) h = mark_surfaced-Later b h msg_id alias
apply-Later b (sets_consent msg_id alias granted) h = set_consent-Later b h msg_id alias granted
apply-Later b (claims_delivery alias via) h = unfold claim_for_delivery in still b _ h refl refl
apply-Later b (leases_delivery alias via id now until) h =
    unfold lease_for_delivery in still b _ h refl refl
apply-Later b (acks_delivery alias id ms) h =
    let (e, n) = ack_delivery-cursor b alias id ms in still b _ h e n
apply-Later b (opens_awaiting o e r n) h = unfold open_awaiting in still b _ h refl refl
apply-Later b (marks_nudged o s) h = unfold mark_nudged in grind (arith, still)
apply-Later b (defers_nudge o n) h = unfold defer_nudge in grind (arith, still)
apply-Later b (closes_awaiting o r) h = unfold close_awaiting in grind (arith, still)
apply-Later b (marks_superseded o n) h = unfold mark_superseded in still b _ h refl refl
apply-Later b (claims_project m a) h = unfold claim_project in grind (arith, still)
apply-Later b (releases_claim m) h = unfold release_claim in still b _ h refl refl
apply-Later b (passes_project m a) h = unfold pass_project in still b _ h refl refl
apply-Later b (marks_project_surfaced m a) h = unfold mark_project_surfaced in still b _ h refl refl
apply-Later b (saves_registry entries) h = unfold save_registry in still b _ h refl refl
apply-Later b (purges t) h =
    unfold purge in
    let (e, n) = purge_all-cursor b (keep (purgeable b t) (values b.messages)) in still b _ h e n
apply-Later b (tombstones t) h = tombstone_stale-Later b t h

last_event_seq_mono :
    (b c : Backend) (xs : List Text)
    → ((a : Text) → seq_of b a ≤ seq_of c a)
    → last_event_seq b xs ≤ last_event_seq c xs
unfolding last_event_seq
last_event_seq_mono b c [] h = omega arith
last_event_seq_mono b c (a ∷ xs) h = omega (arith, h a, last_event_seq_mono b c xs h)

run-Later : (b : Backend) (ws : List Write) → CursorOk b → Later b (run b ws)
unfolding run
run-Later b [] h = still b b h refl refl
run-Later b (w ∷ ws) h =
    let l = apply-Later b w h in Later-trans b (apply b w) _ l (run-Later (apply b w) ws l.ok)

-- Over any history of writes, the cursor of any list of addresses never goes back, if at the start
-- no address is ahead of the counter.
pub last_event_seq-run :
    (b : Backend) (ws : List Write) (addresses : List Text)
    → CursorOk b
    → last_event_seq b addresses ≤ last_event_seq (run b ws) addresses
last_event_seq-run b ws addresses h =
    last_event_seq_mono b (run b ws) addresses (run-Later b ws h).cursors
