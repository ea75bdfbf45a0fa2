-- ===== src/Storage/Retention.antt =====
-- What a purge and a tombstone sweep of src/storage/memoryBackend.ts remove, and what they keep.
use claude_ipc.Base.{
  ℕ, Text, ◌==◌, Bool, true, false, ◌||◌, Option, none, some, List, [], ◌∷◌, ◌≡◌, ◌≢◌, refl, ap,
  arith, if◌then◌else◌, keep, some_of, sort_on, leb, ◌&&◌,
}
use claude_ipc.Base.Map
use claude_ipc.Base.Map.{Map, values, update_values, get-set}
use claude_ipc.Base.Map.Entries.{get-delete}
use claude_ipc.Models.{Message, Delivery, Awaiting}
use claude_ipc.Storage.State.{Backend, bump_seq}
use claude_ipc.Storage.Inbox.{consume_if, pends_for, messages_of, pending}
use claude_ipc.Storage.Rows.{bump_each-deliveries}
use claude_ipc.Storage.Upkeep.{
  purge, purge_one, purge_all, purgeable, still_pending, awaiting_open, tombstone_stale, is_stale,
  bump_each, consume_stale, stale_addresses,
}

-- The three tables that a purge deletes from by message id, read at one id.
abbrev pub facts : Backend → Text → Option Message × Option Awaiting × Option (List Text)
facts b id = (Map.get b.messages id, Map.get b.awaiting id, Map.get b.routes id)

abbrev Differ : Text → List Message → Type 0
Differ id [] = Unit
Differ id (m ∷ ms) = (id ≢ m.id) × Differ id ms

abbrev pub no_facts : Option Message × Option Awaiting × Option (List Text)
no_facts = (none, none, none)

purge_one-facts :
    (b : Backend) (other id : Text)
    → facts (purge_one b other) id ≡ (if other == id then no_facts else facts b id)
unfolding purge_one
purge_one-facts b other id = ground (
  arith,
  get-delete b.messages other id,
  get-delete b.awaiting other id,
  get-delete b.routes other id,
)

purge_all-facts :
    (b : Backend) (ms : List Message) (id : Text)
    → facts (purge_all b ms) id ≡ (if some_of (λ m. m.id == id) ms then no_facts else facts b id)
purge_all-facts b [] id = refl
purge_all-facts b (m ∷ ms) id =
    ground (arith, purge_all-facts (purge_one b m.id) ms id, purge_one-facts b m.id id)

some_of-keep :
    (test p : Message → Bool) (ms : Map Message) (k : Text) (m : Message)
    → Map.get ms k ≡ some m
    → test m ≡ true
    → p m ≡ true
    → some_of p (keep test (values ms)) ≡ true
unfolding Map.get
some_of-keep test p [] k m e h i = cc
some_of-keep test p ((j, w) ∷ ms) k m e h i = ground (arith, some_of-keep test p ms k m)

-- Of a message that a purge may take, under its own id neither a message, nor an awaiting record,
-- nor a route is left after the purge.
pub facts-purge_gone :
    (b : Backend) (t : ℕ) (k : Text) (m : Message)
    → Map.get b.messages k ≡ some m
    → purgeable b t m ≡ true
    → facts (purge b t).0 m.id ≡ no_facts
unfolding purge
facts-purge_gone b t k m e p =
    rw purge_all-facts
      (rw (some_of-keep (purgeable b t) (λ x. x.id == m.id) b.messages k m e p (ground arith)) refl)

purgeable-id :
    (b : Backend) (t : ℕ) (id : Text) (m : Message)
    → (still_pending b id || awaiting_open (Map.get b.awaiting id)) ≡ true
    → purgeable b t m ≡ true
    → m.id ≢ id
unfolding purgeable
purgeable-id b t id m h p e =
    ground (arith, ap (λ x. still_pending b x || awaiting_open (Map.get b.awaiting x)) e)

kept_by_purge :
    (b : Backend) (t : ℕ) (id : Text) (ms : List Message)
    → (still_pending b id || awaiting_open (Map.get b.awaiting id)) ≡ true
    → some_of (λ m. m.id == id) (keep (purgeable b t) ms) ≡ false
kept_by_purge b t id [] h = refl
kept_by_purge b t id (m ∷ ms) h = ground (arith, kept_by_purge b t id ms h, purgeable-id b t id m h)

-- A purge takes no message that is still pending at some address or whose ask is still open,
-- whatever its age: the message, its awaiting record and its route stay.
pub facts-purge_kept :
    (b : Backend) (t : ℕ) (id : Text)
    → (still_pending b id || awaiting_open (Map.get b.awaiting id)) ≡ true
    → facts (purge b t).0 id ≡ facts b id
unfolding purge
facts-purge_kept b t id h =
    rw purge_all-facts (rw (kept_by_purge b t id (values b.messages) h) refl)

-- The row of a message that stays in the inbox after a sweep.
abbrev pub stays : Text → ℕ → Delivery → Bool
stays alias t d = pends_for alias d && leb t d.ts

messages_of-consume_if :
    (ms : Map Message) (alias : Text) (t : ℕ) (ds : Map Delivery)
    → messages_of ms (pends_for alias) (values (update_values (consume_if (is_stale t)) ds))
      ≡ messages_of ms (stays alias t) (values ds)
unfolding messages_of
messages_of-consume_if ms alias t [] = refl
messages_of-consume_if ms alias t ((k, d) ∷ ds) =
    ground (arith, messages_of-consume_if ms alias t ds)

bump_each-messages :
    (b : Backend) (addresses : List Text) → (bump_each b addresses).messages ≡ b.messages
unfolding bump_seq
bump_each-messages b [] = refl
bump_each-messages b (a ∷ addresses) = bump_each-messages (bump_seq b a) addresses

-- After a tombstone sweep an inbox holds, in its order, exactly those of its messages whose delivery
-- is not older than the limit.
pub pending-tombstone_stale :
    (b : Backend) (t : ℕ) (alias : Text)
    → pending (tombstone_stale b t).0 alias
      ≡ sort_on (λ m. m.ts) (messages_of b.messages (stays alias t) (values b.deliveries))
unfolding tombstone_stale pending
pending-tombstone_stale b t alias =
    let noted = stale_addresses b t in
    rw (bump_each-messages (consume_stale b t) noted) (
      rw (bump_each-deliveries (consume_stale b t) noted)
        (ap (sort_on (λ m. m.ts)) (messages_of-consume_if b.messages alias t b.deliveries)))
