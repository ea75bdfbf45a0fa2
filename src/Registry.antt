-- ===== src/Registry.antt =====
-- src/broker/registry.ts: the roster of registered peers.
pub mod Rows
pub mod Machine
pub mod Ownership
pub mod Liveness
use claude_ipc.Base.{
  ℕ, suc, ◌-◌, Text, ◌==◌, is_empty, txt, contains, add, sort_texts, Bool, true, false, ◌&&◌, ◌||◌,
  not, Option, none, some, List, [], ◌∷◌, map, ltb, leb, eqb, keep, length, some_of, is_some,
  or_default, if◌then◌else◌,
}
use claude_ipc.Base.Map
use claude_ipc.Base.Map.{Map, has, values, update_values}
use claude_ipc.Models.{RegistryEntry, PeerStatus, live, idle, offline}
use claude_ipc.Storage.State.{Backend}
use claude_ipc.Storage.Upkeep.{save_registry, load_registry}
use claude_ipc.Storage.Inbox.{recoverable}
use claude_ipc.Storage.Messages.{pending_outbound}
use claude_ipc.Broker.{Broker, Env}
pub use claude_ipc.Registry.Rows.{
  RegisterInfo, ipc_host, truthy, text_is, warm_start, is_offline, touched, is_sibling, is_foreign,
  prev_token, is_managed, moves_session, is_service, as_set, kept_caps, prev_session, prev_tty,
  succession, Registered, refused, or_some, registered_row,
}
unfoldable pub use claude_ipc.Registry.Rows.{snapshot, status_of, touch_siblings, admit}

unfoldable pub register : Env → Broker → Text → RegisterInfo → Option Text → Broker × Registered
unfolding admit
register env b alias info presented =
    let prev = Map.get b.entries alias in
    if is_foreign (prev_token prev) presented
    then (b, refused)
    else if is_managed prev && moves_session prev info.session_id
    then (b, refused)
    else admit env b prev alias info

abbrev pub entry_token : Option RegistryEntry → Option Text
entry_token none = none
entry_token (some e) = e.token

abbrev pub token_of : Broker → Text → Option Text
token_of b alias = entry_token (Map.get b.entries alias)

-- What a reader is given: the status of now, and no token.
abbrev pub public_row : Env → RegistryEntry → RegistryEntry
public_row env e = record e { status = status_of env e; token = none }

unfoldable pub get : Env → Broker → Text → Option RegistryEntry
unfolding status_of
get env b alias = elim (Map.get b.entries alias) [ none ↦ none | some e ↦ some (public_row env e) ]

unfoldable pub session_has_capability : Broker → Text → Text → Bool
session_has_capability b alias capability = elim (Map.get b.entries alias) [
  | none ↦ false
  | some e ↦
      not (is_empty e.session_id)
      && some_of (λ s. s.session_id == e.session_id && contains s.caps capability)
          (values b.entries)
]

unfoldable pub heartbeat : Env → Broker → Text → Broker
unfolding touch_siblings
heartbeat env b alias = elim (Map.get b.entries alias) [
  | none ↦ b
  | some e ↦ record b {
    entries = touch_siblings env e.session_id alias (Map.set b.entries alias (touched env e));
  }
]

unfoldable pub touch_by_act : Env → Broker → Text → Broker
unfolding touch_siblings
touch_by_act env b alias = elim (Map.get b.entries alias) [
  | none ↦ b
  | some e ↦ if is_offline e.status then b else record b {
    entries = touch_siblings env e.session_id alias (Map.set b.entries alias (touched env e));
  }
]

unfoldable pub leave : Broker → Text → Broker
unfolding snapshot
leave b alias = elim (Map.get b.entries alias) [
  | none ↦ b
  | some e ↦ snapshot (record b {
    entries = Map.set b.entries alias (record e { status = offline; last_seen = 0 });
  })
]

abbrev pub has_alias : Broker → Text → Bool
has_alias b alias = has b.entries alias

-- The aliases of one session, in the order of the map.
abbrev pub aliases_of : Text → List RegistryEntry → List Text
aliases_of session_id [] = []
aliases_of session_id (e ∷ es) =
    if e.session_id == session_id
    then e.alias ∷ aliases_of session_id es
    else aliases_of session_id es

abbrev pub listed_row : Env → List RegistryEntry → RegistryEntry → RegistryEntry
listed_row env entries e = record e {
  status = status_of env e;
  token = none;
  session_aliases = some (sort_texts (aliases_of e.session_id entries));
  since_seen_s = some (env.now - e.last_seen);
}

unfoldable pub list : Env → Broker → List RegistryEntry
unfolding status_of
list env b = map (listed_row env (values b.entries)) (values b.entries)

unfoldable pub live_aliases : Env → Broker → Text → List Text
unfolding list
live_aliases env b exclude =
    map (λ e. e.alias)
      (keep (λ e. not (is_offline e.status) && not (e.alias == exclude)) (list env b))

-- The tests of the loop in `pruneOffline`.
unfoldable pub prunable : Env → Backend → ℕ → Text → RegistryEntry → Bool
unfolding status_of
prunable env backend before_ts alias e =
    not (e.service && not (eqb e.last_seen 0))
    && is_offline (status_of env e)
    && ltb e.last_seen before_ts
    && eqb (length (recoverable backend alias)) 0
    && eqb (length (pending_outbound backend alias)) 0

-- `for (const [alias, e] of this.entries) { … this.entries.delete(alias); removed++; }`
abbrev pub drop_prunable :
    Env → Backend → ℕ → Map RegistryEntry → Map RegistryEntry → Map RegistryEntry
drop_prunable env backend before_ts out [] = out
drop_prunable env backend before_ts out ((k, e) ∷ m) =
    drop_prunable env backend before_ts
      (if prunable env backend before_ts k e then Map.delete out k else out) m

abbrev pub count_prunable : Env → Backend → ℕ → Map RegistryEntry → ℕ
count_prunable env backend before_ts [] = 0
count_prunable env backend before_ts ((k, e) ∷ m) =
    let rest = count_prunable env backend before_ts m in
    if prunable env backend before_ts k e then suc rest else rest

unfoldable pub prune_offline : Env → Broker → ℕ → Broker × ℕ
unfolding prunable snapshot
prune_offline env b before_ts =
    let removed = count_prunable env b.backend before_ts b.entries in
    (
      if eqb removed 0
          then b
          else snapshot
              (record b { entries = drop_prunable env b.backend before_ts b.entries b.entries }),
      removed,
    )

-- The sender identity that a replay of the outage queue runs under.
unfoldable pub restore_outbox_owner :
    Env → Broker → Text → Text → Text → Option Text → Broker × Text
unfolding snapshot
restore_outbox_owner env b alias session_id cwd preserved =
    elim (prev_token (Map.get b.entries alias)) [
      | some t ↦ (b, t)
      | none ↦
          let token = or_default preserved (env.new_token b.tokens_drawn) in
          (
            snapshot (record b {
              entries = Map.set b.entries alias (record {
                alias = alias;
                session_id = session_id;
                cwd = cwd;
                caps = [];
                pid = none;
                tty = none;
                last_seen = 0;
                status = offline;
                session_aliases = none;
                since_seen_s = none;
                succeeded_sid = none;
                service = false;
                token = some token;
              });
              tokens_drawn = if is_some preserved then b.tokens_drawn else suc b.tokens_drawn;
            }),
            token,
          )
    ]

unfoldable pub drop_restored_outbox_owner : Broker → Text → Text → Broker
unfolding snapshot
drop_restored_outbox_owner b alias token = elim (Map.get b.entries alias) [
  | none ↦ b
  | some e ↦
      if text_is e.token token && is_offline e.status
      then snapshot (record b { entries = Map.delete b.entries alias })
      else b
]
