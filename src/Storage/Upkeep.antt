-- ===== src/Storage/Upkeep.antt =====
-- The registry snapshot, the restart set, `purge` and `tombstoneStale` of
-- src/storage/memoryBackend.ts.
use claude_ipc.Base.{
  ℕ, Text, ◌==◌, Bool, false, ◌&&◌, not, Option, none, some, List, [], ◌∷◌, ltb, length, keep,
  some_of, if◌then◌else◌,
}
use claude_ipc.Base.Map
use claude_ipc.Base.Map.{Map, values, update_values}
use claude_ipc.Models.{Message, Delivery, Awaiting, RegistryEntry}
use claude_ipc.Storage.State.{Backend, is_pending, bump_seq}
use claude_ipc.Storage.Inbox.{consume_if, collect_aliases}

unfoldable pub save_registry : Backend → List RegistryEntry → Backend
save_registry b entries = record b { registry = entries }

abbrev pub load_registry : Backend → List RegistryEntry
load_registry b = b.registry

unfoldable pub replay_inflight : Backend → List Delivery × List Awaiting
replay_inflight b = (
  keep (λ d. is_pending d.state) (values b.deliveries),
  keep (λ a. not a.closed) (values b.awaiting),
)

abbrev pub still_pending : Backend → Text → Bool
still_pending b id = some_of (λ d. d.msg_id == id && is_pending d.state) (values b.deliveries)

abbrev pub awaiting_open : Option Awaiting → Bool
awaiting_open none = false
awaiting_open (some a) = not a.closed

-- The tests of the loop in `purge`: old, not pending anywhere, not awaited.
unfoldable pub purgeable : Backend → ℕ → Message → Bool
purgeable b older_than_ts m =
    ltb m.ts older_than_ts
    && not (still_pending b m.id)
    && not (awaiting_open (Map.get b.awaiting m.id))

-- `for (const [k, d] of this.deliveries) if (d.msgId === id) this.deliveries.delete(k)`
unfoldable pub delete_deliveries : Map Delivery → Text → Map Delivery → Map Delivery
delete_deliveries ds id [] = ds
delete_deliveries ds id ((k, d) ∷ rest) =
    delete_deliveries (if d.msg_id == id then Map.delete ds k else ds) id rest

unfoldable pub purge_one : Backend → Text → Backend
unfolding delete_deliveries
purge_one b id = record b {
  messages = Map.delete b.messages id;
  awaiting = Map.delete b.awaiting id;
  routes = Map.delete b.routes id;
  deliveries = delete_deliveries b.deliveries id b.deliveries;
}

abbrev pub purge_all : Backend → List Message → Backend
purge_all b [] = b
purge_all b (m ∷ ms) = purge_all (purge_one b m.id) ms

unfoldable pub purge : Backend → ℕ → Backend × ℕ
unfolding purge_one purgeable
purge b older_than_ts =
    let ms = keep (purgeable b older_than_ts) (values b.messages) in (purge_all b ms, length ms)

abbrev pub is_stale : ℕ → Delivery → Bool
is_stale older_than_ts d = is_pending d.state && ltb d.ts older_than_ts

abbrev pub bump_each : Backend → List Text → Backend
bump_each b [] = b
bump_each b (a ∷ addresses) = bump_each (bump_seq b a) addresses

-- The rows after the loop, and the addresses that it noted.
abbrev pub consume_stale : Backend → ℕ → Backend
consume_stale b older_than_ts = record b {
  deliveries = update_values (consume_if (is_stale older_than_ts)) b.deliveries;
}

abbrev pub stale_addresses : Backend → ℕ → List Text
stale_addresses b older_than_ts = collect_aliases (is_stale older_than_ts) [] (values b.deliveries)

unfoldable pub tombstone_stale : Backend → ℕ → Backend × ℕ
tombstone_stale b older_than_ts = (
  bump_each (consume_stale b older_than_ts) (stale_addresses b older_than_ts),
  length (keep (is_stale older_than_ts) (values b.deliveries)),
)
