-- ===== src/Registry/Ownership.antt =====
-- What a registration cannot take from the owner of an alias.
use claude_ipc.Base.{
  ℕ, Text, ◌==◌, contains, contains-add, Bool, true, false, ◌&&◌, ◌||◌, not, Option, none, some,
  List, [], ◌∷◌, ◌≡◌, refl, ◌⊎◌, inr, arith, if◌then◌else◌, is_some, or_default,
}
use claude_ipc.Base.Map
use claude_ipc.Base.Map.{Map, has, get-set, update_values}
use claude_ipc.Base.Map.Entries.{get-update_values, get-delete}
use claude_ipc.Models.{RegistryEntry}
use claude_ipc.Storage.State.{Backend}
use claude_ipc.Broker.{Broker, Env}
use claude_ipc.Registry.{
  RegisterInfo, register, heartbeat, touch_by_act, leave, prune_offline, drop_prunable, prunable,
  restore_outbox_owner, drop_restored_outbox_owner, touch_siblings, is_sibling, touched, truthy,
  ipc_host, prev_token, is_managed, is_foreign, refused, as_set, registered_row, is_service,
  moves_session, kept_caps,
}
use claude_ipc.Registry.Machine.{
  Write, registers, heartbeats, touches, leaves, prunes, restores_owner, drops_owner, apply,
}

-- The part of a row that its owner relies on: the token, the session, the host capability and the
-- service mark.
pub record Hold : Type 0 where
  pub token : Option Text
  pub session_id : Text
  pub managed : Bool
  pub service : Bool

abbrev pub hold : RegistryEntry → Hold
hold e = record {
  token = e.token;
  session_id = e.session_id;
  managed = contains e.caps ipc_host;
  service = e.service;
}

abbrev pub entry : Broker → Text → Option RegistryEntry
entry b alias = Map.get b.entries alias

abbrev pub hold_of : Option RegistryEntry → Option Hold
hold_of none = none
hold_of (some e) = some (hold e)

abbrev pub holding : Broker → Text → Option Hold
holding b alias = hold_of (entry b alias)

-- If an alias has a token and another one or none is presented, a registration is refused and
-- leaves the broker's state as it was.
pub register-is_foreign :
    (env : Env) (b : Broker) (alias : Text) (info : RegisterInfo) (presented : Option Text)
    → is_foreign (prev_token (entry b alias)) presented ≡ true
    → register env b alias info presented ≡ (b, refused)
unfolding register
register-is_foreign env b alias info presented h = rw h refl

-- A sign of life changes nothing that an owner relies on.
touch_siblings-hold :
    (env : Env) (session_id except : Text) (m : Map RegistryEntry) (alias : Text)
    → hold_of (Map.get (touch_siblings env session_id except m) alias) ≡ hold_of (Map.get m alias)
unfolding touch_siblings
touch_siblings-hold env session_id except m alias = ground (
  arith,
  get-update_values (λ s. if is_sibling session_id except s then touched env s else s) m alias,
)

heartbeat-hold :
    (env : Env) (b : Broker) (a alias : Text) → holding (heartbeat env b a) alias ≡ holding b alias
unfolding heartbeat
heartbeat-hold env b a alias = grind (arith, touch_siblings-hold, get-set)

touch_by_act-hold :
    (env : Env) (b : Broker) (a alias : Text)
    → holding (touch_by_act env b a) alias ≡ holding b alias
unfolding touch_by_act
touch_by_act-hold env b a alias = grind (arith, touch_siblings-hold, get-set)

leave-hold : (b : Broker) (a alias : Text) → holding (leave b a) alias ≡ holding b alias
unfolding leave
leave-hold b a alias = grind (arith, get-set)

restore-hold :
    (env : Env) (b : Broker) (a s c : Text) (p : Option Text) (alias : Text)
    → is_some (prev_token (entry b alias)) ≡ true
    → holding (restore_outbox_owner env b a s c p).0 alias ≡ holding b alias
unfolding restore_outbox_owner
restore-hold env b a s c p alias h = grind (arith, get-set)

-- A prune deletes rows and changes none.
pub drop_prunable-get :
    (env : Env) (backend : Backend) (t : ℕ) (out m : Map RegistryEntry) (alias : Text)
    → (Map.get (drop_prunable env backend t out m) alias ≡ none)
      ⊎ (Map.get (drop_prunable env backend t out m) alias ≡ Map.get out alias)
drop_prunable-get env backend t out [] alias = inr refl
drop_prunable-get env backend t out ((k, e) ∷ m) alias = ground (
  arith,
  drop_prunable-get env backend t (if prunable env backend t k e then Map.delete out k else out) m
      alias,
  get-delete out k alias,
)

prune-hold :
    (env : Env) (b : Broker) (t : ℕ) (alias : Text)
    → (holding (prune_offline env b t).0 alias ≡ none)
      ⊎ (holding (prune_offline env b t).0 alias ≡ holding b alias)
unfolding prune_offline
prune-hold env b t alias =
    ground (arith, drop_prunable-get env b.backend t b.entries b.entries alias)

drop-hold :
    (b : Broker) (a t alias : Text)
    → (holding (drop_restored_outbox_owner b a t) alias ≡ none)
      ⊎ (holding (drop_restored_outbox_owner b a t) alias ≡ holding b alias)
unfolding drop_restored_outbox_owner
drop-hold b a t alias = ground (arith, get-delete b.entries a alias)

register-hold :
    (env : Env) (b : Broker) (a : Text) (i : RegisterInfo) (p : Option Text) (alias : Text)
    → is_some (prev_token (entry b alias)) ≡ true
    → (a == alias && not (is_foreign (prev_token (entry b alias)) p)) ≡ false
    → holding (register env b a i p).0 alias ≡ holding b alias
unfolding register
register-hold env b a i p alias h k = grind (arith, touch_siblings-hold, get-set)

-- The write is a registration of the alias whose token, if the alias has one, was presented.
abbrev pub presents_token : Broker → Text → Write → Bool
presents_token b alias (registers a i p) =
    a == alias && not (is_foreign (prev_token (entry b alias)) p)
presents_token b alias _ = false

-- Of an alias that has a token, nobody who does not present it can change the token, the session,
-- the host capability or the service mark: after any write of the registry the row either is as
-- it was in these or has been removed.
pub apply-hold :
    (env : Env) (b : Broker) (w : Write) (alias : Text)
    → is_some (prev_token (entry b alias)) ≡ true
    → presents_token b alias w ≡ false
    → (holding (apply env b w) alias ≡ none) ⊎ (holding (apply env b w) alias ≡ holding b alias)
unfolding apply
apply-hold env b (registers a i p) alias h k = inr (register-hold env b a i p alias h k)
apply-hold env b (heartbeats a) alias h k = inr (heartbeat-hold env b a alias)
apply-hold env b (touches a) alias h k = inr (touch_by_act-hold env b a alias)
apply-hold env b (leaves a) alias h k = inr (leave-hold b a alias)
apply-hold env b (prunes t) alias h k = prune-hold env b t alias
apply-hold env b (restores_owner a s c p) alias h k = inr (restore-hold env b a s c p alias h)
apply-hold env b (drops_owner a t) alias h k = drop-hold b a t alias

abbrev pub held_token : Option Hold → Option Text
held_token none = none
held_token (some x) = truthy x.token

abbrev pub managed_of : Option Hold → Bool
managed_of none = false
managed_of (some x) = x.managed

abbrev pub service_of : Option Hold → Bool
service_of none = false
service_of (some x) = x.service

abbrev pub session_of : Option Hold → Option Text
session_of none = none
session_of (some x) = some x.session_id

kept_caps-ipc_host :
    (prev : Option RegistryEntry) (caps : Option (List Text))
    → is_managed prev ≡ true
    → contains (kept_caps prev caps) ipc_host ≡ true
kept_caps-ipc_host prev caps h =
    ground (arith, contains-add (as_set [] (or_default caps [])) ipc_host ipc_host)

-- What the written row holds, and of whom.
abbrev admitted : Env → Broker → Text → RegisterInfo → Option Text → Bool
admitted env b a i p =
    not (is_foreign (prev_token (entry b a)) p)
    && not (is_managed (entry b a) && moves_session (entry b a) i.session_id)

abbrev entered_row : Env → Broker → Text → RegisterInfo → RegistryEntry
entered_row env b a i =
    registered_row env (entry b a) a i
      (not (is_service (entry b a)) && moves_session (entry b a) i.session_id)
      (or_default (prev_token (entry b a)) (env.new_token b.tokens_drawn))

holding-register :
    (env : Env) (b : Broker) (a : Text) (i : RegisterInfo) (p : Option Text) (alias : Text)
    → holding (register env b a i p).0 alias ≡ (
        if admitted env b a i p && a == alias
        then some (hold (entered_row env b a i))
        else holding b alias)
unfolding register
holding-register env b a i p alias = ground (
  arith,
  touch_siblings-hold env i.session_id a (Map.set b.entries a (entered_row env b a i)) alias,
  get-set b.entries a alias (entered_row env b a i),
)

-- A managed alias keeps its session and stays managed through every registration, that of its
-- owner included.
pub register-managed :
    (env : Env) (b : Broker) (a : Text) (i : RegisterInfo) (p : Option Text) (alias : Text)
    → managed_of (holding b alias) ≡ true
    → let b' = (register env b a i p).0 in
      (managed_of (holding b' alias) ≡ true)
      × (session_of (holding b' alias) ≡ session_of (holding b alias))
register-managed env b a i p alias h =
    rw holding-register (ground (arith, kept_caps-ipc_host (entry b a) i.caps))

-- The token of an alias that has one stays the same through every registration, and if such an alias
-- is a service it stays a service.
pub register-token :
    (env : Env) (b : Broker) (a : Text) (i : RegisterInfo) (p : Option Text) (alias : Text)
    → is_some (held_token (holding b alias)) ≡ true
    → let b' = (register env b a i p).0 in
      (held_token (holding b' alias) ≡ held_token (holding b alias))
      × ((not (service_of (holding b alias)) || service_of (holding b' alias)) ≡ true)
register-token env b a i p alias h = rw holding-register (ground arith)
