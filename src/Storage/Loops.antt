-- ===== src/Storage/Loops.antt =====
-- What the loops of src/storage/memoryBackend.ts over all deliveries do to the row at one key, and
-- which addresses they collect.
use claude_ipc.Base.{
  ℕ, ◌<◌, Text, ◌==◌, Bool, true, false, Option, none, some, List, [], ◌∷◌, ◌≡◌, ◌≢◌, refl, ap, inl,
  inr, arith, if◌then◌else◌, keep, Bool-cases, ◌∙◌, sym, contains, add, contains-add,
}
use claude_ipc.Base.Map
use claude_ipc.Base.Map.{Map, update_values, get-set, values}
use claude_ipc.Base.Map.Entries.{All, All-get, get-delete}
use claude_ipc.Models.{Message, Delivery, DeliveredVia}
use claude_ipc.Storage.State.{Backend, Lease, bump_seq, del_key, seq_of, is_pending}
use claude_ipc.Storage.Inbox.{collect_aliases}
use claude_ipc.Storage.Leases.{lease_loop, leasable}
use claude_ipc.Storage.Upkeep.{
  purge_one, purge_all, delete_deliveries, bump_each, purgeable, still_pending,
}
use claude_ipc.Storage.Rows.{row}
use claude_ipc.Storage.Keys.{purge_all-KeysOk, KeysOk, KeyOk, nul_free, del_key-injective}
use claude_ipc.Storage.Cursor.{bump_seq-Later, bump_each-Later, CursorOk, seq_of-bump_seq}

-- The row at the key of a clean id and an address is for that id and that address.
pub row_address :
    (b : Backend) (id a : Text) (d : Delivery)
    → KeysOk b
    → nul_free id ≡ true
    → row b (del_key id a) ≡ some d
    → (d.msg_id ≡ id) × (d.to_alias ≡ a)
row_address b id a d keys n e =
    let k = All-get KeyOk b.deliveries (del_key id a) d keys e in
    let (p, q) = del_key-injective id d.msg_id a d.to_alias n k.clean k.keyed in (sym p, sym q)

pub lease_loop-pends :
    (ms : Map Message) (alias : Text) (via : Option DeliveredVia) (id : Text) (now until : ℕ)
    (ls : Map Lease) (ds : Map Delivery) (k : Text)
    → elim (Map.get (lease_loop ms alias via id now until ls ds).deliveries k) [
      | none ↦ false
      | some d ↦ is_pending d.state
    ]
      ≡ elim (Map.get ds k) [ none ↦ false | some d ↦ is_pending d.state ]
unfolding lease_loop Map.get
lease_loop-pends ms alias via id now until ls [] k = refl
lease_loop-pends ms alias via id now until ls ((i, d) ∷ ds) k = ground (
  arith,
  lease_loop-pends ms alias via id now until
      (if leasable ls alias now d
        then Map.set ls (del_key d.msg_id alias) (record { id = id; until = until })
        else ls)
      ds k,
)

-- The addresses that a loop collects: those it had, and that of each row which passes the test.
collect-contains :
    (test : Delivery → Bool) (out : List Text) (ds : List Delivery) (x : Text)
    → contains out x ≡ true
    → contains (collect_aliases test out ds) x ≡ true
collect-contains test out [] x h = h
collect-contains test out (d ∷ ds) x h =
    collect-contains test (if test d then add out d.to_alias else out) ds x
      (ground (arith, contains-add out d.to_alias x))

pub collect-get :
    (test : Delivery → Bool) (out : List Text) (m : Map Delivery) (k : Text) (d : Delivery)
    → Map.get m k ≡ some d
    → test d ≡ true
    → contains (collect_aliases test out (values m)) d.to_alias ≡ true
unfolding Map.get
collect-get test out [] k d e t = cc
collect-get test out ((i, w) ∷ m) k d e t = ground (
  arith,
  collect-contains test (if test w then add out w.to_alias else out) (values m) d.to_alias,
  contains-add out w.to_alias d.to_alias,
  collect-get test (if test w then add out w.to_alias else out) m k d,
)

pub bump_each-raises :
    (b : Backend) (xs : List Text) (x : Text)
    → CursorOk b
    → contains xs x ≡ true
    → seq_of b x < seq_of (bump_each b xs) x
bump_each-raises b [] x h c = cc
bump_each-raises b (y ∷ xs) x h c =
    let l = bump_seq-Later b y h in
    ground (
      arith,
      l.cursors x,
      (bump_each-Later (bump_seq b y) xs l.ok).cursors x,
      bump_each-raises (bump_seq b y) xs x l.ok,
      seq_of-bump_seq b y x,
      h x,
    )

-- Deleting the rows of other messages.
delete_deliveries-row :
    (ds : Map Delivery) (other : Text) (rest : Map Delivery) (id a : Text)
    → nul_free id ≡ true
    → All KeyOk rest
    → id ≢ other
    → Map.get (delete_deliveries ds other rest) (del_key id a) ≡ Map.get ds (del_key id a)
unfolding delete_deliveries
delete_deliveries-row ds other [] id a n keys ne = refl
delete_deliveries-row ds other ((i, d) ∷ rest) id a n keys ne = ground (
  arith,
  delete_deliveries-row (if d.msg_id == other then Map.delete ds i else ds) other rest id a n keys.1
      ne,
  get-delete ds i (del_key id a),
  keys.0.keyed,
  del_key-injective id d.msg_id a d.to_alias n keys.0.clean,
  ne,
)

abbrev Others : Text → List Message → Type 0
Others id [] = Unit
Others id (m ∷ ms) = (id ≢ m.id) × Others id ms

pub purge_all-keeps_row :
    (b : Backend) (ms : List Message) (id a : Text)
    → nul_free id ≡ true
    → KeysOk b
    → Others id ms
    → row (purge_all b ms) (del_key id a) ≡ row b (del_key id a)
purge_all-keeps_row b [] id a n keys o = refl
purge_all-keeps_row b (m ∷ ms) id a n keys o =
    purge_all-keeps_row (purge_one b m.id) ms id a n (purge_all-KeysOk b (m ∷ []) keys) o.1
    ∙ (unfold purge_one in delete_deliveries-row b.deliveries m.id b.deliveries id a n keys o.0)

purgeable-other :
    (b : Backend) (t : ℕ) (id : Text) (m : Message)
    → still_pending b id ≡ true
    → purgeable b t m ≡ true
    → id ≢ m.id
unfolding purgeable
purgeable-other b t id m p q e = ground (arith, ap (still_pending b) e)

-- No message that is still pending is in the list of a purge.
pub purgeable-Others :
    (b : Backend) (t : ℕ) (id : Text) (ms : List Message)
    → still_pending b id ≡ true
    → Others id (keep (purgeable b t) ms)
purgeable-Others b t id [] p = tt
purgeable-Others b t id (m ∷ ms) p = elim (Bool-cases (purgeable b t m)) [
  | inl q ↦ rw q (purgeable-other b t id m p q, purgeable-Others b t id ms p)
  | inr q ↦ rw q (purgeable-Others b t id ms p)
]
