-- ===== src/Storage/State.antt =====
-- The fields of `MemoryBackend` (src/storage/memoryBackend.ts), and the event cursor.
use claude_ipc.Base.{ℕ, suc, Text, Bool, true, false, List, [], ◌∷◌, ◌++◌, max, or_default}
use claude_ipc.Base.Map
use claude_ipc.Base.Map.{Map}
use claude_ipc.Models.{
  Message, Delivery, DeliveryState, Awaiting, RegistryEntry, OutboundIntent, queued, delivered,
  surfaced, persisted, consumed, accepted, declined,
}

pub record Lease : Type 0 where
  pub id : Text
  pub until : ℕ

pub record Backend : Type 0 where
  pub messages : Map Message
  pub deliveries : Map Delivery
  pub awaiting : Map Awaiting
  pub registry : List RegistryEntry
  pub seq_counter : ℕ
  pub addr_seq : Map ℕ
  pub leases : Map Lease
  pub outbound : Map OutboundIntent
  pub project_surfaces : List Text
  pub routes : Map (List Text)
  pub claims : Map Text
  pub passes : List Text
  pub superseded_by_map : Map Text

abbrev pub init : ℕ → Backend
init seq_floor = record {
  messages = [];
  deliveries = [];
  awaiting = [];
  registry = [];
  seq_counter = seq_floor;
  addr_seq = [];
  leases = [];
  outbound = [];
  project_surfaces = [];
  routes = [];
  claims = [];
  passes = [];
  superseded_by_map = [];
}

-- The two parts of a key, with U+0000 between them.
abbrev pub del_key : Text → Text → Text
del_key msg_id alias = msg_id ++ 0 ∷ alias

-- The states that count as actionable in a recipient's inbox.
abbrev pub is_pending : DeliveryState → Bool
is_pending queued = true
is_pending delivered = true
is_pending surfaced = true
is_pending persisted = false
is_pending consumed = false
is_pending accepted = false
is_pending declined = false

unfoldable pub bump_seq : Backend → Text → Backend
bump_seq b addr = record b {
  addr_seq = Map.set b.addr_seq addr (suc b.seq_counter);
  seq_counter = suc b.seq_counter;
}

abbrev pub seq_of : Backend → Text → ℕ
seq_of b addr = or_default (Map.get b.addr_seq addr) 0

-- `addresses.reduce((max, a) => Math.max(max, …), 0)`
unfoldable pub last_event_seq : Backend → List Text → ℕ
last_event_seq b [] = 0
last_event_seq b (a ∷ addresses) = max (last_event_seq b addresses) (seq_of b a)
