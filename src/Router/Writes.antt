-- ===== src/Router/Writes.antt =====
-- The handlers of src/broker/router.ts touch the storage only through its methods, none of which
-- deletes rows: what a handler leaves is what a list of writes leaves.
pub mod Sending
pub mod Answering
pub mod Consenting
pub mod Reading
use claude_ipc.Base.{
  ℕ, Text, Bool, true, false, ◌&&◌, not, Option, none, some, List, [], ◌∷◌, ◌++◌, ◌≡◌, refl, ap,
  ◌∙◌, sym, ◌⊎◌, inl, inr, arith, some_of, if◌then◌else◌, Option-cases, Bool-cases, eqb,
}
use claude_ipc.Base.Map
use claude_ipc.Models.{Message, Delivery, RegistryEntry}
use claude_ipc.ProjectAddress.{is_project_address, within_project, project_path}
use claude_ipc.Storage.State.{Backend}
use claude_ipc.Storage.Inbox.{enqueue, mark_consumed}
use claude_ipc.Storage.Messages.{append}
use claude_ipc.Storage.Projects.{pass_project}
use claude_ipc.Storage.Machine.{
  Write, enqueues, marks_consumed, appends, passes_project, saves_registry, apply, run, is_purge,
}
use claude_ipc.Broker.{Broker, Env}
use claude_ipc.Registry
use claude_ipc.Registry.{
  RegisterInfo, prune_offline, count_prunable, admit, touch_by_act, heartbeat, leave, snapshot,
  is_offline, is_foreign, prev_token, is_managed, moves_session,
}
use claude_ipc.Router.Guards.{notify, notify_all, session_boxes}
use claude_ipc.Router.Send.{fan_out, pass_all, pass_own, notify_members}
use claude_ipc.Router.Replies.{post, consume}

-- The second state is what some writes, none a purge, make of the first.
pub record Written (b c : Backend) : Type 0 where
  pub writes : List Write
  pub mild : some_of is_purge writes ≡ false
  pub runs : run b writes ≡ c

pub Written-refl : (b : Backend) → Written b b
unfolding run
Written-refl b = record { writes = []; mild = refl; runs = refl }

run-snoc : (b : Backend) (ws : List Write) (w : Write) → run b (ws ++ w ∷ []) ≡ apply (run b ws) w
unfolding run
run-snoc b [] w = refl
run-snoc b (v ∷ ws) w = run-snoc (apply b v) ws w

mild-snoc :
    (ws : List Write) (w : Write)
    → some_of is_purge ws ≡ false
    → is_purge w ≡ false
    → some_of is_purge (ws ++ w ∷ []) ≡ false
mild-snoc [] w h k = ground arith
mild-snoc (v ∷ ws) w h k = ground (arith, mild-snoc ws w)

pub Written-apply :
    (b c : Backend) (w : Write) → is_purge w ≡ false → Written b c → Written b (apply c w)
Written-apply b c w h s = record {
  writes = s.writes ++ w ∷ [];
  mild = mild-snoc s.writes w s.mild h;
  runs = run-snoc b s.writes w ∙ ap (λ x. apply x w) s.runs;
}

-- What a handler's result leaves of the storage.
abbrev pub Leaves : {A : Type 0} → Backend → Broker × A → Type 0
Leaves b p = Written b p.0.backend

module _ (b : Backend) {R : Type 0} where
  pub if_Leaves :
      (x : Bool) (p q : Broker × R) → Leaves b p → Leaves b q → Leaves b (if x then p else q)
  if_Leaves true p q h k = h
  if_Leaves false p q h k = k

  pub option-Leaves :
      {A : Type 0} (o : Option A) (p : Broker × R) (f : A → Broker × R)
      → Leaves b p
      → ((a : A) → Leaves b (f a))
      → Leaves {A = R} b (elim o [ none ↦ p | some a ↦ f a ])
  option-Leaves none p f h k = h
  option-Leaves (some a) p f h k = k a

module _ (b : Backend) where
  pub if_Written_backend :
      (x : Bool) (c d : Backend) → Written b c → Written b d → Written b (if x then c else d)
  if_Written_backend true c d h k = h
  if_Written_backend false c d h k = k

  pub option-Written :
      {A : Type 0} (o : Option A) (c : Backend) (f : A → Backend)
      → Written b c
      → ((a : A) → Written b (f a))
      → Written b (elim o [ none ↦ c | some a ↦ f a ])
  option-Written none c f h k = h
  option-Written (some a) c f h k = k a

  pub if_Written :
      (x : Bool) (p q : Broker)
      → Written b p.backend
      → Written b q.backend
      → Written b (if x then p else q).backend
  if_Written true p q h k = h
  if_Written false p q h k = k

  pub enqueue-Written : (c : Backend) (m a : Text) → Written b c → Written b (enqueue c m a)
  unfolding apply
  enqueue-Written c m a = Written-apply b c (enqueues m a) refl

Written-same : (b c d : Backend) → c ≡ d → Written b d → Written b c
Written-same b c d e h = record { writes = h.writes; mild = h.mild; runs = h.runs ∙ sym e }

-- What only the roster and the notices hear of leaves the storage as it is.
pub touch_by_act-backend :
    (env : Env) (b : Broker) (a : Text) → (touch_by_act env b a).backend ≡ b.backend
unfolding touch_by_act
touch_by_act-backend env b a = ground arith

heartbeat-backend : (env : Env) (b : Broker) (a : Text) → (heartbeat env b a).backend ≡ b.backend
unfolding heartbeat
heartbeat-backend env b a = ground arith

pub notify_all-backend :
    (b : Broker) (aliases : List Text) → (notify_all b aliases).backend ≡ b.backend
notify_all-backend b [] = refl
notify_all-backend b (a ∷ aliases) = notify_all-backend (notify b a) aliases

pub notify_members-backend :
    (env : Env) (b : Broker) (es : List RegistryEntry) (to : Text)
    → (notify_members env b es to).backend ≡ b.backend
notify_members-backend env b [] to = refl
notify_members-backend env b (e ∷ es) to = ground (
  arith,
  notify_members-backend env
      (if not (is_offline e.status) && within_project e.cwd (project_path to)
        then notify b e.alias
        else b)
      es to,
)

module _ (b : Backend) where
  pub touch_by_act-Written :
      (env : Env) (c : Broker) (a : Text)
      → Written b c.backend
      → Written b (touch_by_act env c a).backend
  touch_by_act-Written env c a h = Written-same b _ _ (touch_by_act-backend env c a) h

  pub heartbeat-Written :
      (env : Env) (c : Broker) (a : Text)
      → Written b c.backend
      → Written b (heartbeat env c a).backend
  heartbeat-Written env c a h = Written-same b _ _ (heartbeat-backend env c a) h

  pub leave-Written : (c : Broker) (a : Text) → Written b c.backend → Written b (leave c a).backend
  unfolding leave apply
  leave-Written c a h = elim (Option-cases (Map.get c.entries a)) [
    | inl e ↦ rw (e, leave) h
    | inr (r, e) ↦
        rw (e, leave) (unfold snapshot in Written-apply b c.backend (saves_registry _) refl h)
  ]

  pub notify_all-Written :
      (c : Broker) (aliases : List Text)
      → Written b c.backend
      → Written b (notify_all c aliases).backend
  notify_all-Written c aliases h = Written-same b _ _ (notify_all-backend c aliases) h

  pub notify_members-Written :
      (env : Env) (c : Broker) (es : List RegistryEntry) (to : Text)
      → Written b c.backend
      → Written b (notify_members env c es to).backend
  notify_members-Written env c es to h = Written-same b _ _ (notify_members-backend env c es to) h

  pub post-Written : (c : Broker) (m : Message) → Written b c.backend → Written b (post c m).backend
  unfolding apply
  post-Written c m h = enqueue-Written b _ _ _ (Written-apply b c.backend (appends m) refl h)

  pub consume-Written :
      (c : Broker) (id a : Text) → Written b c.backend → Written b (consume c id a).backend
  unfolding apply
  consume-Written c id a h = Written-apply b c.backend (marks_consumed id a) refl h

  pub fan_out-Written :
      (c : Backend) (id : Text) (ts : List Text) → Written b c → Written b (fan_out c id ts)
  fan_out-Written c id [] h = h
  fan_out-Written c id (t ∷ ts) h =
      fan_out-Written (enqueue c id t) id ts (enqueue-Written b c id t h)

  pub pass_all-Written :
      (c : Backend) (id : Text) (aliases : List Text)
      → Written b c
      → Written b (pass_all c id aliases)
  unfolding apply
  pass_all-Written c id [] h = h
  pass_all-Written c id (a ∷ aliases) h =
      pass_all-Written (pass_project c id a) id aliases
        (Written-apply b c (passes_project id a) refl h)

  pub pass_own-Written :
      (env : Env) (c : Broker) (id to from : Text)
      → Written b c.backend
      → Written b (pass_own env c id to from).backend
  pass_own-Written env c id to from h =
      if_Written b (is_project_address to) _ _
        (pass_all-Written c.backend id (session_boxes env c from) h) h

  pub register-Written :
      (env : Env) (c : Broker) (a : Text) (i : RegisterInfo) (t : Option Text)
      → Written b c.backend
      → Written b (Registry.register env c a i t).0.backend
  unfolding Registry.register admit snapshot apply
  register-Written env c a i t h =
      let prev = Map.get c.entries a in
      if_Leaves b (is_foreign (prev_token prev) t) _ _ h (
        if_Leaves b (is_managed prev && moves_session prev i.session_id) _ _ h
          (Written-apply b c.backend (saves_registry _) refl h))

  pub prune_offline-Written :
      (env : Env) (c : Broker) (before_ts : ℕ)
      → Written b c.backend
      → Written b (prune_offline env c before_ts).0.backend
  unfolding prune_offline snapshot apply
  prune_offline-Written env c before_ts h =
      elim (Bool-cases (eqb (count_prunable env c.backend before_ts c.entries) 0)) [
        | inl e ↦ rw e h
        | inr e ↦ rw e (Written-apply b c.backend (saves_registry _) refl h)
      ]
