-- ===== src/Router/Listings.antt =====
-- The read-only listings of src/broker/router.ts: `orphans`, `isSuperseded`, `aliasSidSideMap` and
-- `asks`, with what `digest` shares with them.
use claude_ipc.Base.{
  ℕ, ◌-◌, min, Text, ◌==◌, is_empty, txt, trim, Bool, true, false, ◌&&◌, not, Option, none, some,
  List, [], ◌∷◌, map, reverse, keep, length, ltb, leb, some_of, is_some, starts_with, if◌then◌else◌,
}
use claude_ipc.Base.Map
use claude_ipc.Base.Map.{Map}
use claude_ipc.Models.{Message, Kind, Awaiting, NudgeStage, RegistryEntry, is_ask}
use claude_ipc.ProjectAddress.{is_project_address, project_path, normalize_project_path}
use claude_ipc.Storage.State.{Backend}
use claude_ipc.Storage.Asks.{open_awaitings}
use claude_ipc.Storage.Inbox.{pending, recoverable, pending_addresses, recoverable_addresses}
use claude_ipc.Storage.Messages.{origin_of}
use claude_ipc.Storage.Projects.{superseded_by}
use claude_ipc.Broker.{Broker, Env}
use claude_ipc.Registry
use claude_ipc.Registry.{truthy, is_offline, warm_start, list}
use claude_ipc.Router.Guards.{has_cwd_within, session_id_of}

-- `new Map(roster.map((e) => [e.alias, e]))`
abbrev pub by_alias : List RegistryEntry → Map RegistryEntry
by_alias = warm_start []

-- The owner can still wake: its mailbox is no orphan.
abbrev pub can_wake : Option RegistryEntry → Bool
can_wake none = false
can_wake (some e) = not (is_offline e.status)

-- `Math.min(...msgs.map((m) => m.ts))`, if there are any.
abbrev pub oldest_of : List Message → Option ℕ
oldest_of [] = none
oldest_of (m ∷ ms) = elim (oldest_of ms) [ none ↦ some m.ts | some t ↦ some (min m.ts t) ]

-- A notice of the broker: bookkeeping, no real mail.
abbrev pub is_chase : Message → Bool
is_chase m = m.from_alias == txt "ipc"

abbrev pub chases_in : List Message → ℕ
chases_in ms = length (keep is_chase ms)

abbrev pub same_thread : Option Text → Option Text → Bool
same_thread none other = false
same_thread (some c) none = false
same_thread (some c) (some d) = d == c

-- A later turn in the same thread and box.
abbrev pub later_turn : Message → Message → Bool
later_turn m p =
    not (p.id == m.id) && same_thread m.conversation_id p.conversation_id && ltb m.ts p.ts

-- `isSuperseded`: by an explicit mark, or, for no ask, by a later turn.
unfoldable pub is_superseded : Backend → List Message → Message → Bool
is_superseded b peers m =
    if is_some (superseded_by b m.id)
    then true
    else if is_ask m.kind
    then false
    else if is_some (truthy m.conversation_id)
    then some_of (later_turn m) peers
    else false

-- `folded` and `open_mail` (`open`) are there only where the triage was asked for.
pub record OrphanRow : Type 0 where
  pub alias : Text
  pub cwd : Option Text
  pub last_seen : Option ℕ
  pub pending : ℕ
  pub chases : ℕ
  pub oldest_ts : Option ℕ
  pub folded : Option ℕ
  pub open_mail : Option ℕ

abbrev pub entry_cwd : Option RegistryEntry → Option Text
entry_cwd none = none
entry_cwd (some e) = some e.cwd

abbrev pub entry_last_seen : Option RegistryEntry → Option ℕ
entry_last_seen none = none
entry_last_seen (some e) = some e.last_seen

unfoldable pub orphan_row : Backend → Bool → Text → Option RegistryEntry → List Message → OrphanRow
unfolding is_superseded
orphan_row b triage addr e msgs =
    let folded = length (keep (is_superseded b msgs) msgs) in
    record {
      alias = addr;
      cwd = entry_cwd e;
      last_seen = entry_last_seen e;
      pending = length msgs;
      chases = chases_in msgs;
      oldest_ts = oldest_of msgs;
      folded = if triage then some folded else none;
      open_mail = if triage then some (length msgs - folded) else none;
    }

-- `dir && (!e?.cwd || !withinProject(e.cwd, dir))`, denied.
abbrev pub in_scope : Option Text → Option RegistryEntry → Bool
in_scope none e = true
in_scope (some dir) e = has_cwd_within e dir

abbrev pub is_orphan : Map RegistryEntry → Option Text → Text → Bool
is_orphan entries dir addr =
    not (is_project_address addr)
    && not (can_wake (Map.get entries addr))
    && in_scope dir (Map.get entries addr)

-- The longest mailbox first; of two that are as long, the one that was found first.
abbrev pub insert_row : OrphanRow → List OrphanRow → List OrphanRow
insert_row r [] = r ∷ []
insert_row r (s ∷ rows) = if leb s.pending r.pending then r ∷ s ∷ rows else s ∷ insert_row r rows

abbrev pub sort_rows : List OrphanRow → List OrphanRow
sort_rows [] = []
sort_rows (r ∷ rows) = insert_row r (sort_rows rows)

-- `a.project ? normalizeProjectPath(a.project) : null`, by its truth.
abbrev pub scope_of : Option Text → Option Text
scope_of none = none
scope_of (some p) = truthy (some (normalize_project_path p))

unfoldable pub orphans : Env → Broker → Option Text → Bool → List OrphanRow
unfolding orphan_row
orphans env b project triage =
    let dir = scope_of (truthy project) in
    let entries = by_alias (list env b) in
    sort_rows (
      map
        (λ addr.
          orphan_row b.backend triage addr (Map.get entries addr) (recoverable b.backend addr))
        (keep (is_orphan entries dir) (recoverable_addresses b.backend)))

abbrev pub ends_with : Text → Text → Bool
ends_with s p = starts_with (reverse s) (reverse p)

-- `aliasSidSideMap`: the files of the directory, with their contents where they can be read; `decode`
-- is `decodeURIComponent`, which fails where it throws.
unfoldable pub alias_sid_side_map :
    (Text → Option Text) → Map Text → List (Text × Option Text) → Map Text
alias_sid_side_map decode out [] = out
alias_sid_side_map decode out ((name, content) ∷ files) =
    alias_sid_side_map decode
      (if ends_with name (txt ".tmp") then out else elim content [
        | none ↦ out
        | some c ↦
            if is_empty (trim c)
            then out
            else elim (decode name) [ none ↦ out | some sid ↦ Map.set out (trim c) sid ]
      ])
      files

-- `registry.get(alias)?.sessionId ?? side.get(alias) ?? null`
abbrev pub sid_of : Env → Broker → Map Text → Text → Option Text
sid_of env b side alias = elim (session_id_of env b alias) [
  | none ↦ Map.get side alias
  | some sid ↦ some sid
]

abbrev pub is_direct : Text → Bool
is_direct to = not (to == txt "*") && not (is_project_address to)

-- `ask_state` is "open" in every row.
pub record AskRow : Type 0 where
  pub corr_id : Text
  pub from_alias : Text
  pub to_alias : Text
  pub to_sid : Option Text
  pub kind : Kind
  pub age_s : ℕ
  pub reply_by_s : Option ℕ
  pub nudge_stage : NudgeStage
  pub project_cwd : Option Text

abbrev pub project_cwd_of : Env → Broker → Text → Option Text
project_cwd_of env b to =
    if is_project_address to
    then some (project_path to)
    else if is_direct to
    then truthy (entry_cwd (Registry.get env b to))
    else none

abbrev pub ask_row : Env → Broker → Map Text → Awaiting → Message → AskRow
ask_row env b side w o = record {
  corr_id = w.origin_id;
  from_alias = o.from_alias;
  to_alias = o.to_alias;
  to_sid = if is_direct o.to_alias then sid_of env b side o.to_alias else none;
  kind = o.kind;
  age_s = env.now - o.ts;
  reply_by_s = w.reply_by_s;
  nudge_stage = w.nudged_stage;
  project_cwd = project_cwd_of env b o.to_alias;
}

abbrev pub ask_rows : Env → Broker → Map Text → List Awaiting → List AskRow
ask_rows env b side [] = []
ask_rows env b side (w ∷ ws) = elim (origin_of b.backend w.origin_id) [
  | none ↦ ask_rows env b side ws
  | some o ↦ ask_row env b side w o ∷ ask_rows env b side ws
]

pub record DeadBox : Type 0 where
  pub alias : Text
  pub sid : Option Text
  pub cwd : Option Text
  pub real_mail : ℕ
  pub chase_noise : ℕ
  pub oldest_ts : Option ℕ

abbrev pub dead_box : Env → Broker → Map Text → Text → DeadBox
dead_box env b side addr =
    let msgs = pending b.backend addr in
    record {
      alias = addr;
      sid = sid_of env b side addr;
      cwd = entry_cwd (Registry.get env b addr);
      real_mail = length msgs - chases_in msgs;
      chase_noise = chases_in msgs;
      oldest_ts = oldest_of msgs;
    }

abbrev pub is_dead_box : Env → Broker → Text → Bool
is_dead_box env b addr = not (is_project_address addr) && not (can_wake (Registry.get env b addr))

-- The answer carries seconds where the source prints an ISO date.
unfoldable pub asks : Env → Broker → Map Text → List AskRow × List DeadBox
asks env b side = (
  ask_rows env b side (open_awaitings b.backend),
  map (dead_box env b side) (keep (is_dead_box env b) (pending_addresses b.backend)),
)
