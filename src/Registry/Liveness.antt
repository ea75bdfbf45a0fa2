-- ===== src/Registry/Liveness.antt =====
-- Who counts as live: statuses by age, a leave that sticks, and what a prune may remove.
use claude_ipc.Base.{
  ℕ, ◌≤◌, Text, ◌==◌, Bool, true, false, ◌&&◌, ◌||◌, not, Option, none, some, [], ◌∷◌, ◌≡◌, refl,
  ◌⊎◌, inr, arith, if◌then◌else◌, is_some, eqb, ltb, length,
}
use claude_ipc.Base.Map
use claude_ipc.Base.Map.{Map, get-set, update_values, values}
use claude_ipc.Base.Map.Entries.{get-update_values, get-delete, Unique}
use claude_ipc.Models.{RegistryEntry, PeerStatus, live, idle, offline}
use claude_ipc.Storage.State.{Backend}
use claude_ipc.Storage.Inbox.{recoverable}
use claude_ipc.Storage.Messages.{pending_outbound}
use claude_ipc.Broker.{Broker, Env}
use claude_ipc.Registry.{
  register, heartbeat, touch_by_act, leave, prune_offline, drop_prunable, count_prunable, prunable,
  restore_outbox_owner, drop_restored_outbox_owner, touch_siblings, is_sibling, touched, status_of,
  is_offline,
}
use claude_ipc.Registry.Machine.{
  Write, registers, heartbeats, touches, leaves, prunes, restores_owner, drops_owner, apply,
}
use claude_ipc.Registry.Ownership.{entry, drop_prunable-get}

abbrev pub rank : PeerStatus → ℕ
rank live = 0
rank idle = 1
rank offline = 2

-- At a later time, under the same thresholds, an unchanged row is never livelier: live comes before
-- idle, and idle before offline.
pub status_of-later :
    (env later : Env) (e : RegistryEntry)
    → later.idle_s ≡ env.idle_s
    → later.offline_s ≡ env.offline_s
    → env.now ≤ later.now
    → rank (status_of env e) ≤ rank (status_of later e)
unfolding status_of
status_of-later env later e h k l = ground arith

-- The alias has left: its row is there and its stored status is offline.
abbrev pub has_left : Broker → Text → Bool
has_left b alias = elim (entry b alias) [ none ↦ false | some e ↦ is_offline e.status ]

abbrev left_of : Option RegistryEntry → Bool
left_of none = false
left_of (some e) = is_offline e.status

-- The writes by which an alias says that it is back.
abbrev pub calls_back : Text → Write → Bool
calls_back alias (registers a _ _) = a == alias
calls_back alias (heartbeats a) = a == alias
calls_back alias _ = false

touch_siblings-left :
    (env : Env) (session_id except : Text) (m : Map RegistryEntry) (alias : Text)
    → left_of (Map.get m alias) ≡ true
    → left_of (Map.get (touch_siblings env session_id except m) alias) ≡ true
unfolding touch_siblings
touch_siblings-left env session_id except m alias h = ground (
  arith,
  get-update_values (λ s. if is_sibling session_id except s then touched env s else s) m alias,
)

-- A leave sticks: any write of the registry other than a registration or a heartbeat of the alias
-- itself leaves an alias that has left as one, or removes its row.
pub apply-has_left :
    (env : Env) (b : Broker) (w : Write) (alias : Text)
    → has_left b alias ≡ true
    → calls_back alias w ≡ false
    → (entry (apply env b w) alias ≡ none) ⊎ (has_left (apply env b w) alias ≡ true)
unfolding apply
apply-has_left env b (registers a i p) alias h k =
    inr (unfold register in grind (arith, touch_siblings-left, get-set))
apply-has_left env b (heartbeats a) alias h k =
    inr (unfold heartbeat in grind (arith, touch_siblings-left, get-set))
apply-has_left env b (touches a) alias h k =
    inr (unfold touch_by_act in grind (arith, touch_siblings-left, get-set))
apply-has_left env b (leaves a) alias h k = inr (unfold leave in grind (arith, get-set))
apply-has_left env b (prunes t) alias h k =
    unfold prune_offline in
    ground (arith, drop_prunable-get env b.backend t b.entries b.entries alias)
apply-has_left env b (restores_owner a s c p) alias h k =
    inr (unfold restore_outbox_owner in grind (arith, get-set))
apply-has_left env b (drops_owner a t) alias h k =
    unfold drop_restored_outbox_owner in ground (arith, get-delete b.entries a alias)

-- A row that still matters: someone may come back for its mail, it has mail to be replayed, it was
-- heard from lately, or it is a service that has not left.
abbrev pub still_matters : Env → Backend → ℕ → Text → RegistryEntry → Bool
still_matters env backend before_ts alias e =
    not (eqb (length (recoverable backend alias)) 0)
    || not (eqb (length (pending_outbound backend alias)) 0)
    || not (is_offline (status_of env e))
    || not (ltb e.last_seen before_ts)
    || (e.service && not (eqb e.last_seen 0))

prunable-still_matters :
    (env : Env) (backend : Backend) (t : ℕ) (alias : Text) (e : RegistryEntry)
    → prunable env backend t alias e ≡ not (still_matters env backend t alias e)
unfolding prunable
prunable-still_matters env backend t alias e = ground arith

drop_prunable-none :
    (env : Env) (backend : Backend) (t : ℕ) (out m : Map RegistryEntry) (alias : Text)
    → is_some (Map.get m alias) ≡ false
    → Map.get (drop_prunable env backend t out m) alias ≡ Map.get out alias
unfolding Map.get
drop_prunable-none env backend t out [] alias h = refl
drop_prunable-none env backend t out ((k, e) ∷ m) alias h = ground (
  arith,
  drop_prunable-none env backend t (if prunable env backend t k e then Map.delete out k else out) m
      alias,
  get-delete out k alias,
)

drop_prunable-some :
    (env : Env) (backend : Backend) (t : ℕ) (out m : Map RegistryEntry) (alias : Text)
    (e : RegistryEntry)
    → Unique m
    → Map.get m alias ≡ some e
    → Map.get (drop_prunable env backend t out m) alias
      ≡ (if prunable env backend t alias e then none else Map.get out alias)
unfolding Map.get
drop_prunable-some env backend t out [] alias e u h = ground arith
drop_prunable-some env backend t out ((k, w) ∷ m) alias e u h = ground (
  arith,
  drop_prunable-none env backend t (if prunable env backend t k w then Map.delete out k else out) m
      alias,
  drop_prunable-some env backend t (if prunable env backend t k w then Map.delete out k else out) m
      alias e u.1,
  get-delete out k alias,
)

count_prunable-zero :
    (env : Env) (backend : Backend) (t : ℕ) (m : Map RegistryEntry) (alias : Text)
    (e : RegistryEntry)
    → Map.get m alias ≡ some e
    → count_prunable env backend t m ≡ 0
    → prunable env backend t alias e ≡ false
unfolding Map.get
count_prunable-zero env backend t [] alias e h z = ground arith
count_prunable-zero env backend t ((k, w) ∷ m) alias e h z =
    ground (arith, count_prunable-zero env backend t m alias e)

-- If the roster's keys are distinct, a prune leaves a row as it was if its mailbox holds work that
-- a successor could recover, if it has mail to be replayed, if it is not offline, if it was heard
-- from since the limit, or if it is a service that has not left; and removes it otherwise.
pub entry-prune_offline :
    (env : Env) (b : Broker) (t : ℕ) (alias : Text) (e : RegistryEntry)
    → Unique b.entries
    → entry b alias ≡ some e
    → entry (prune_offline env b t).0 alias
      ≡ (if still_matters env b.backend t alias e then some e else none)
unfolding prune_offline
entry-prune_offline env b t alias e u h = ground (
  arith,
  drop_prunable-some env b.backend t b.entries b.entries alias e u h,
  count_prunable-zero env b.backend t b.entries alias e h,
  prunable-still_matters env b.backend t alias e,
)
