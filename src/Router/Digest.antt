-- ===== src/Router/Digest.antt =====
-- `digest` of src/broker/router.ts: one project's mail, by session.
use claude_ipc.Base.{
  ℕ, ◌+◌, ◌-◌, ℤ, difference, min_int, Text, txt, contains, add, sort_texts, Bool, true, false,
  ◌&&◌, ◌||◌, not, Option, none, some, List, [], ◌∷◌, ◌++◌, map, keep, length, some_of, is_some,
  or_default, if◌then◌else◌,
}
use claude_ipc.Base.Map
use claude_ipc.Base.Map.{Map, has}
use claude_ipc.Models.{
  Message, Kind, Awaiting, ClosedReason, parked, RegistryEntry, PeerStatus, live, idle, offline,
  is_ask,
}
use claude_ipc.ProjectAddress.{is_project_address, normalize_project_path}
use claude_ipc.Storage.State.{Backend}
use claude_ipc.Storage.Asks.{open_awaitings, get_awaiting}
use claude_ipc.Storage.Inbox.{pending, recoverable, pending_addresses}
use claude_ipc.Storage.Messages.{origin_of}
use claude_ipc.Broker.{Broker, Env}
use claude_ipc.Registry
use claude_ipc.Registry.{truthy, as_set, list}
use claude_ipc.Router.Guards.{Response, ok, fail, bad_args, has_cwd_within, dedupe_by_id}
use claude_ipc.Router.Listings.{by_alias, can_wake, is_chase, is_direct}

-- The members of the project, by session, in the order of the roster.
abbrev pub by_session :
    Text → Map (List RegistryEntry) → List RegistryEntry → Map (List RegistryEntry)
by_session dir m [] = m
by_session dir m (e ∷ es) =
    by_session dir
      (if has_cwd_within (some e) dir
        then Map.set m e.session_id (or_default (Map.get m e.session_id) [] ++ e ∷ [])
        else m)
      es

abbrev pub is_dead_member : Map RegistryEntry → Text → Text → Bool
is_dead_member entries dir addr =
    not (is_project_address addr)
    && not (can_wake (Map.get entries addr))
    && has_cwd_within (Map.get entries addr) dir

-- The mail in dead boxes of the project.
abbrev pub orphaned_in_cwd : Broker → Map RegistryEntry → Text → List Text → ℕ
orphaned_in_cwd b entries dir [] = 0
orphaned_in_cwd b entries dir (addr ∷ addrs) =
    let rest = orphaned_in_cwd b entries dir addrs in
    if is_dead_member entries dir addr then length (pending b.backend addr) + rest else rest

pub data OwedState : Type 0 where
  still_open : OwedState
  closed : ClosedReason → OwedState

abbrev pub owed_state : Option Awaiting → OwedState
owed_state none = still_open
owed_state (some w) = if w.closed then closed (or_default w.closed_reason parked) else still_open

abbrev pub awaiting_reply_by : Option Awaiting → Option ℕ
awaiting_reply_by none = none
awaiting_reply_by (some w) = w.reply_by_s

pub record Owed : Type 0 where
  pub corr_id : Text
  pub kind : Kind
  pub age_s : ℕ
  pub reply_by_s : Option ℕ
  pub state : OwedState

abbrev pub owed_row : Env → Backend → Message → Owed
owed_row env b m = record {
  corr_id = m.id;
  kind = m.kind;
  age_s = env.now - m.ts;
  reply_by_s = awaiting_reply_by (get_awaiting b m.id);
  state = owed_state (get_awaiting b m.id);
}

-- How long an open ask with a deadline still has.
abbrev pub time_left : OwedState → Option ℕ → ℕ → Option ℤ
time_left still_open (some by_s) age_s = some (difference by_s age_s)
time_left still_open none age_s = none
time_left (closed r) by_s age_s = none

abbrev pub nearest : Option ℤ → Option ℤ → Option ℤ
nearest none d = d
nearest (some c) none = some c
nearest (some c) (some d) = some (min_int c d)

abbrev pub oldest_deadline : List Owed → Option ℤ
oldest_deadline [] = none
oldest_deadline (o ∷ os) = nearest (time_left o.state o.reply_by_s o.age_s) (oldest_deadline os)

abbrev pub is_live : PeerStatus → Bool
is_live live = true
is_live _ = false

abbrev pub is_idle : PeerStatus → Bool
is_idle idle = true
is_idle _ = false

abbrev pub liveness_of : List RegistryEntry → PeerStatus
liveness_of members =
    if some_of (λ e. is_live e.status) members
    then live
    else if some_of (λ e. is_idle e.status) members
    then idle
    else offline

abbrev pub member_aliases : List RegistryEntry → List Text
member_aliases [] = []
member_aliases (e ∷ es) = or_default e.session_aliases (e.alias ∷ []) ++ member_aliases es

abbrev pub recoverable_all : Backend → List Text → List Message
recoverable_all b [] = []
recoverable_all b (a ∷ aliases) = recoverable b a ++ recoverable_all b aliases

-- The ask was sent by one of these aliases.
abbrev pub asked_by : Backend → List Text → Awaiting → Bool
asked_by b aliases w = elim (origin_of b w.origin_id) [
  | none ↦ false
  | some o ↦ contains aliases o.from_alias
]

-- `role` is null in every row.
pub record SessionRow : Type 0 where
  pub aliases : List Text
  pub liveness_claim : PeerStatus
  pub unread : ℕ
  pub owed : List Owed
  pub waiting_on : ℕ
  pub orphaned : ℕ
  pub oldest_deadline_s : Option ℤ
  pub chase_noise_folded : ℕ

unfoldable pub session_row : Env → Broker → List Awaiting → ℕ → List RegistryEntry → SessionRow
session_row env b asks orphaned members =
    let aliases = sort_texts (as_set [] (member_aliases members)) in
    let msgs = dedupe_by_id (recoverable_all b.backend aliases) in
    let chase = length (keep is_chase msgs) in
    let owed = map (owed_row env b.backend) (keep (λ m. is_ask m.kind) msgs) in
    record {
      aliases = aliases;
      liveness_claim = liveness_of members;
      unread = length msgs - chase;
      owed = owed;
      waiting_on = length (keep (asked_by b.backend aliases) asks);
      orphaned = orphaned;
      oldest_deadline_s = oldest_deadline owed;
      chase_noise_folded = chase;
    }

-- What stands under a key of `sessions`.
pub data Entry : Type 0 where
  session : SessionRow → Entry
  unresolved : List Text → Entry

abbrev pub session_rows : (List RegistryEntry → SessionRow) → Map (List RegistryEntry) → Map Entry
session_rows row [] = []
session_rows row ((sid, members) ∷ m) = (sid, session (row members)) ∷ session_rows row m

-- Neither the roster nor a side file knows the alias that the ask went to.
abbrev pub is_unresolved : Env → Broker → Map Text → Text → Bool
is_unresolved env b side to = is_direct to && not (is_some (Registry.get env b to) || has side to)

abbrev pub unresolved_aliases : Env → Broker → Map Text → List Text → List Awaiting → List Text
unresolved_aliases env b side out [] = out
unresolved_aliases env b side out (w ∷ ws) =
    unresolved_aliases env b side
      (elim (origin_of b.backend w.origin_id) [
        | none ↦ out
        | some o ↦ if is_unresolved env b side o.to_alias then add out o.to_alias else out
      ])
      ws

abbrev pub unresolved_key : Text
unresolved_key = txt "_unresolved"

-- The field `sessions` of the answer.
unfoldable pub digest : Env → Broker → Map Text → Option Text → Response (Map Entry)
unfolding session_row
digest env b side project = elim (truthy project) [
  | none ↦ fail bad_args
  | some p ↦
      let dir = normalize_project_path p in
      let roster = list env b in
      let asks = open_awaitings b.backend in
      let orphaned = orphaned_in_cwd b (by_alias roster) dir (pending_addresses b.backend) in
      ok (
        Map.set (session_rows (session_row env b asks orphaned) (by_session dir [] roster))
          unresolved_key (unresolved (sort_texts (unresolved_aliases env b side [] asks))))
]
