-- ===== src/Registry/Rows.antt =====
-- The rows of the roster of src/broker/registry.ts, and what a registration makes of a row.
use claude_ipc.Base.{
  ℕ, suc, ◌-◌, Text, ◌==◌, is_empty, txt, contains, add, Bool, true, false, ◌&&◌, ◌||◌, not, Option,
  none, some, List, [], ◌∷◌, ltb, is_some, or_default, if◌then◌else◌,
}
use claude_ipc.Base.Map
use claude_ipc.Base.Map.{Map, has, values, update_values}
use claude_ipc.Models.{RegistryEntry, PeerStatus, live, idle, offline}
use claude_ipc.Storage.Upkeep.{save_registry}
use claude_ipc.Broker.{Broker, Env}

pub record RegisterInfo : Type 0 where
  pub session_id : Text
  pub cwd : Text
  pub caps : Option (List Text)
  pub pid : Option ℕ
  pub tty : Option Text
  pub service : Bool

abbrev pub ipc_host : Text
ipc_host = txt "ipc-host"

-- A string that is absent, null or empty is falsy.
abbrev pub truthy : Option Text → Option Text
truthy none = none
truthy (some s) = if is_empty s then none else some s

abbrev pub text_is : Option Text → Text → Bool
text_is none t = false
text_is (some s) t = s == t

unfoldable pub snapshot : Broker → Broker
snapshot b = record b { backend = save_registry b.backend (values b.entries) }

-- The constructor: each row of the stored snapshot under its alias.
abbrev pub warm_start : Map RegistryEntry → List RegistryEntry → Map RegistryEntry
warm_start m [] = m
warm_start m (e ∷ es) = warm_start (Map.set m e.alias e) es

abbrev pub is_offline : PeerStatus → Bool
is_offline offline = true
is_offline _ = false

-- A `leave` is final at once; all else is the age of the last sign of life.
unfoldable pub status_of : Env → RegistryEntry → PeerStatus
status_of env e =
    if is_offline e.status
    then offline
    else if ltb env.offline_s (env.now - e.last_seen)
    then offline
    else if ltb env.idle_s (env.now - e.last_seen)
    then idle
    else live

abbrev pub touched : Env → RegistryEntry → RegistryEntry
touched env e = record e { last_seen = env.now; status = live }

abbrev pub is_sibling : Text → Text → RegistryEntry → Bool
is_sibling session_id except s =
    not (s.alias == except) && s.session_id == session_id && not (is_offline s.status)

unfoldable pub touch_siblings : Env → Text → Text → Map RegistryEntry → Map RegistryEntry
touch_siblings env session_id except m =
    update_values (λ s. if is_sibling session_id except s then touched env s else s) m

-- `prev?.token && presentedToken !== prev.token`
abbrev pub is_foreign : Option Text → Option Text → Bool
is_foreign none presented = false
is_foreign (some t) presented = not (text_is presented t)

abbrev pub prev_token : Option RegistryEntry → Option Text
prev_token none = none
prev_token (some e) = truthy e.token

abbrev pub is_managed : Option RegistryEntry → Bool
is_managed none = false
is_managed (some e) = contains e.caps ipc_host

abbrev pub moves_session : Option RegistryEntry → Text → Bool
moves_session none session_id = false
moves_session (some e) session_id = not (e.session_id == session_id)

abbrev pub is_service : Option RegistryEntry → Bool
is_service none = false
is_service (some e) = e.service

-- `new Set(caps)`, as an array
abbrev pub as_set : List Text → List Text → List Text
as_set out [] = out
as_set out (c ∷ cs) = as_set (add out c) cs

abbrev pub kept_caps : Option RegistryEntry → Option (List Text) → List Text
kept_caps prev caps =
    let given = as_set [] (or_default caps []) in
    if is_managed prev then add given ipc_host else given

abbrev pub prev_session : Option RegistryEntry → Text → Text
prev_session none session_id = session_id
prev_session (some e) session_id = e.session_id

abbrev pub prev_tty : Option RegistryEntry → Option Text
prev_tty none = none
prev_tty (some e) = e.tty

-- The takeover mark: set by a takeover, carried on by every later registration.
abbrev pub succession : Bool → Option RegistryEntry → Option Text
succession replaced none = none
succession true (some e) = some e.session_id
succession false (some e) = truthy e.succeeded_sid

pub record Registered : Type 0 where
  pub ok : Bool
  pub replaced : Bool
  pub token : Option Text

abbrev pub refused : Registered
refused = record { ok = false; replaced = false; token = none }

abbrev pub or_some : Option Text → Option Text → Option Text
or_some (some a) b = some a
or_some none b = b

-- The row that a registration writes.
abbrev pub registered_row :
    Env → Option RegistryEntry → Text → RegisterInfo → Bool → Text → RegistryEntry
registered_row env prev alias info replaced token = record {
  alias = alias;
  session_id = if is_service prev then prev_session prev info.session_id else info.session_id;
  cwd = info.cwd;
  caps = kept_caps prev info.caps;
  pid = info.pid;
  tty = or_some info.tty (prev_tty prev);
  last_seen = env.now;
  status = live;
  session_aliases = none;
  since_seen_s = none;
  succeeded_sid = succession replaced prev;
  service = info.service || is_service prev;
  token = some token;
}

unfoldable pub admit :
    Env → Broker → Option RegistryEntry → Text → RegisterInfo → Broker × Registered
unfolding touch_siblings snapshot
admit env b prev alias info =
    let replaced = not (is_service prev) && moves_session prev info.session_id in
    -- a kept token, else a fresh one
    let token = or_default (prev_token prev) (env.new_token b.tokens_drawn) in
    let entries = Map.set b.entries alias (registered_row env prev alias info replaced token) in
    (
      snapshot (record b {
        entries = touch_siblings env info.session_id alias entries;
        tokens_drawn = if is_some (prev_token prev) then b.tokens_drawn else suc b.tokens_drawn;
      }),
      record { ok = true; replaced = replaced; token = some token },
    )
