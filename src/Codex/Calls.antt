-- ===== src/Codex/Calls.antt =====
-- The calls of the host of src/codex/host.ts, and what it reads of a thread.
use claude_ipc.Base.{
  ℕ, Text, ◌==◌, txt, contains, add, Bool, false, ◌&&◌, Option, none, some, List, [], ◌∷◌, ◌++◌,
  map, find, or_default, if◌then◌else◌,
}
use claude_ipc.Base.Map
use claude_ipc.Base.Map.{Map, values}
use claude_ipc.Models.{Message}

-- The value of a promise that has none.
abbrev pub Done : Type 0
Done = Unit {0}

-- What the host did, the latest first: to which thread it was attached, and whether that was known to
-- be empty; and, with the thread, which message ids a listing of the history showed, for which a turn
-- was asked, and which were acknowledged.
pub data Act : Type 0 where
  attached : Text → Bool → Act
  saw started acked acked_project : Text → List Text → Act

pub record Host : Type 0 where
  pub thread_id : Text
  pub history_loaded : Bool
  pub persisted_ids : List Text

pub record State (S : Type 0) : Type 0 where
  pub world : S
  pub host : Host
  pub acts : List Act

pub record Item : Type 0 where
  pub item_type : Option Text
  pub namespace : Option Text
  pub name : Option Text
  pub output : Text

pub record Turn : Type 0 where
  pub id : Option Text
  pub status : Option Text
  pub items : List Item

pub record Page : Type 0 where
  pub data_ : List Turn
  pub next_cursor : Option Text

pub data Beat : Type 0 where
  alive not_registered failing : Beat

-- The broker and the App Server, as the host's calls find them: each call may change their state, and
-- answers `none` where the source's promise is rejected. `still_owns_thread` and `ensure_registered`
-- are the options of the same names, `none` where they are absent. `parse_ids` reads the ids of the
-- messages in an output, and fails where `JSON.parse` throws.
pub record World (S : Type 0) : Type 0 where
  pub heartbeat : S → S × Beat
  pub ensure_registered : Option (S → S × Option Done)
  pub read_active : Text → S → S × Option Bool
  pub still_owns_thread : Option (Text → S → Bool)
  pub lease : S → S × Option (List Message)
  pub lease_project : S → S × Option (List Message)
  pub ack : List Text → S → S × Option ℕ
  pub ack_project : List Text → S → S × Option ℕ
  pub list_turns : Text → Option Text → S → S × Option Page
  pub start_turn : Text → List Text → S → S × Option (Option Text)
  pub now : S → S × ℕ
  pub sleep : S → S
  pub parse_ids : Text → Option (List (Option Text))
  pub lease_s : Option ℕ
  pub persistence_timeout_ms : Option ℕ

-- `hung` is a loop that has not ended within the fuel: the promise is never settled.
pub data Ending (A : Type 0) : Type 0 where
  done : A → Ending A
  threw : Ending A
  hung : Ending A

abbrev pub Action : Type 0 → Type 0 → Type 0
Action S A = State S → State S × Ending A

abbrev pub follow : {S A B : Type 0} → State S × Ending A → (A → Action S B) → State S × Ending B
follow (st, done a) f = f a st
follow (st, threw) f = (st, threw)
follow (st, hung) f = (st, hung)

infixr 20 ◌then◌
abbrev pub ◌then◌ : {S A B : Type 0} → Action S A → (A → Action S B) → Action S B
(m then f) st = follow (m st) f

abbrev pub pure : {S A : Type 0} → A → Action S A
pure a st = (st, done a)

abbrev pub throw : {S A : Type 0} → Action S A
throw st = (st, threw)

abbrev pub answered : {S A : Type 0} → State S → S × Option A → State S × Ending A
answered st (s, none) = (record st { world = s }, threw)
answered st (s, some a) = (record st { world = s }, done a)

abbrev pub call : {S A : Type 0} → (S → S × Option A) → Action S A
call f st = answered st (f st.world)

abbrev pub with_acts : {S A : Type 0} → List Act → State S × Ending A → State S × Ending A
with_acts acts (st, o) = (record st { acts = acts ++ st.acts }, o)

-- `this.historyLoaded = false; this.persistedIds.clear();`
abbrev pub forget : {S : Type 0} → State S → State S
forget st = record st { host = record st.host { history_loaded = false; persisted_ids = [] } }

-- `try { … } catch (error) { forget; throw error; }`
abbrev pub caught : {S A : Type 0} → State S × Ending A → State S × Ending A
caught (st, threw) = (forget st, threw)
caught (st, o) = (st, o)

-- What comes after an `await` of an action, if it ever does.
abbrev pub carry_on : {S A : Type 0} → (State S → State S) → State S × Ending A → State S
carry_on f (st, done a) = f st
carry_on f (st, threw) = f st
carry_on f (st, hung) = st

-- An output that the host itself once had written.
abbrev pub is_text : Option Text → Text → Bool
is_text none t = false
is_text (some s) t = s == t

abbrev pub is_receipt : Item → Bool
is_receipt i =
    is_text i.item_type (txt "functionCallOutput")
    && is_text i.namespace (txt "claude-ipc")
    && is_text i.name (txt "receive")

abbrev pub some_ids : List (Option Text) → List Text
some_ids [] = []
some_ids (none ∷ ids) = some_ids ids
some_ids (some i ∷ ids) = i ∷ some_ids ids

abbrev pub ids_in_item : (Text → Option (List (Option Text))) → Item → List Text
ids_in_item parse_ids i = if is_receipt i then some_ids (or_default (parse_ids i.output) []) else []

abbrev pub ids_in_items : (Text → Option (List (Option Text))) → List Item → List Text
ids_in_items parse_ids [] = []
ids_in_items parse_ids (i ∷ items) = ids_in_item parse_ids i ++ ids_in_items parse_ids items

abbrev pub ids_in_turns : (Text → Option (List (Option Text))) → List Turn → List Text
ids_in_turns parse_ids [] = []
ids_in_turns parse_ids (t ∷ turns) = ids_in_items parse_ids t.items ++ ids_in_turns parse_ids turns

abbrev pub add_all : List Text → List Text → List Text
add_all out [] = out
add_all out (i ∷ ids) = add_all (add out i) ids

-- `["completed", "failed", "interrupted", "cancelled"].includes(turn.status ?? "")`
abbrev pub has_ended : Turn → Bool
has_ended t =
    contains (txt "completed" ∷ txt "failed" ∷ txt "interrupted" ∷ txt "cancelled" ∷ [])
      (or_default t.status [])

abbrev pub turn_ended : Text → List Turn → Bool
turn_ended turn_id turns = elim (find (λ t. is_text t.id turn_id) turns) [
  | none ↦ false
  | some t ↦ has_ended t
]

-- `new Map(messages.map((m) => [m.id, m])).values()`
abbrev pub by_id : Map Message → List Message → Map Message
by_id m [] = m
by_id m (x ∷ xs) = by_id (Map.set m x.id x) xs

abbrev pub ids_of : List Message → List Text
ids_of ms = map (λ m. m.id) ms

-- What happens to a host: a pump, or a change of the thread.
pub data Visit : Type 0 where
  pumps : ℕ → Visit
  switches : Text → Bool → Visit
