-- ===== src/Examples/Roster.antt =====
-- A roster with a managed service, a session that has left, and a session that was forgotten, and
-- what the theorems on the registry say of it.
use claude_ipc.Base.{
  ℕ, suc, ◌≤◌, Text, txt, Bool, true, false, not, ◌||◌, Option, none, some, List, [], ◌∷◌, ◌≡◌,
  refl, ◌⊎◌, arith, if◌then◌else◌,
}
use claude_ipc.Base.Map.Entries.{Unique}
use claude_ipc.Models.{RegistryEntry, live, offline}
use claude_ipc.Storage.State.{init}
use claude_ipc.Broker.{Broker, Env}
use claude_ipc.Registry.{RegisterInfo, ipc_host, register, prune_offline}
use claude_ipc.Registry.Machine.{registers, touches, apply}
use claude_ipc.Registry.Ownership.{
  entry, holding, managed_of, session_of, held_token, service_of, apply-hold, register-managed,
  register-token,
}
use claude_ipc.Registry.Liveness.{has_left, apply-has_left, still_matters, entry-prune_offline}

abbrev pub row_of : Text → Text → RegistryEntry
row_of alias session_id = record {
  alias = alias;
  session_id = session_id;
  cwd = txt "/w";
  caps = [];
  pid = none;
  tty = none;
  last_seen = 100;
  status = live;
  session_aliases = none;
  since_seen_s = none;
  succeeded_sid = none;
  service = false;
  token = none;
}

abbrev host_row : RegistryEntry
host_row = record (row_of (txt "host") (txt "s1")) {
  caps = ipc_host ∷ [];
  service = true;
  token = some (txt "secret");
}

abbrev left_row : RegistryEntry
left_row = record (row_of (txt "ann") (txt "s2")) { status = offline; last_seen = 0 }

abbrev pub roster : Broker
roster = record {
  backend = init 0;
  entries = (txt "host", host_row) ∷ (txt "ann", left_row) ∷ [];
  notified = [];
  ids_drawn = 0;
  tokens_drawn = 0;
}

abbrev pub at : ℕ → Env
at now = record {
  now = now;
  new_id = λ n. n ∷ [];
  new_token = λ n. 116 ∷ n ∷ [];
  idle_s = 300;
  offline_s = 1800;
  default_ttl_s = none;
  allowlist = [];
  strict = false;
  default_reply_by_s = none;
  final_grace_s = 600;
  tty_for_pid = λ p. none;
}

abbrev thief : RegisterInfo
thief = record {
  session_id = txt "s9";
  cwd = txt "/x";
  caps = none;
  pid = none;
  tty = none;
  service = false;
}

apply-hold_example :
    (holding (apply (at 200) roster (registers (txt "host") thief none)) (txt "host") ≡ none)
    ⊎ (holding (apply (at 200) roster (registers (txt "host") thief none)) (txt "host")
        ≡ holding roster (txt "host"))
unfolding claude_ipc.Base.Map.get
apply-hold_example =
    apply-hold (at 200) roster (registers (txt "host") thief none) (txt "host") refl refl

register-managed_example :
    (managed_of
        (holding (register (at 200) roster (txt "host") thief (some (txt "secret"))).0 (txt "host"))
      ≡ true)
    × (session_of (
          holding
            (register (at 200) roster (txt "host") thief (some (txt "secret"))).0
            (txt "host"))
        ≡ session_of (holding roster (txt "host")))
unfolding claude_ipc.Base.Map.get
register-managed_example =
    register-managed (at 200) roster (txt "host") thief (some (txt "secret")) (txt "host") refl

register-token_example :
    (held_token
        (holding (register (at 200) roster (txt "host") thief (some (txt "secret"))).0 (txt "host"))
      ≡ held_token (holding roster (txt "host")))
    × ((not (service_of (holding roster (txt "host")))
          || service_of (
              holding
                (register (at 200) roster (txt "host") thief (some (txt "secret"))).0
                (txt "host")))
        ≡ true)
unfolding claude_ipc.Base.Map.get
register-token_example =
    register-token (at 200) roster (txt "host") thief (some (txt "secret")) (txt "host") refl

apply-has_left_example :
    (entry (apply (at 200) roster (touches (txt "ann"))) (txt "ann") ≡ none)
    ⊎ (has_left (apply (at 200) roster (touches (txt "ann"))) (txt "ann") ≡ true)
unfolding claude_ipc.Base.Map.get
apply-has_left_example = apply-has_left (at 200) roster (touches (txt "ann")) (txt "ann") refl refl

roster-Unique : Unique roster.entries
unfolding claude_ipc.Base.Map.get
roster-Unique = (refl, (refl, tt))

entry-prune_offline_example : entry (prune_offline (at 9000) roster 8000).0 (txt "ann") ≡ (
    if still_matters (at 9000) roster.backend 8000 (txt "ann") left_row
    then some left_row
    else none)
unfolding claude_ipc.Base.Map.get
entry-prune_offline_example =
    entry-prune_offline (at 9000) roster 8000 (txt "ann") left_row roster-Unique refl
