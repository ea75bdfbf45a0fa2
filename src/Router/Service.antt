-- ===== src/Router/Service.antt =====
-- What every service of requests by src/broker/router.ts keeps of the storage.
use claude_ipc.Base.{
  ℕ, ◌≤◌, Text, txt, ◌==◌, true, not, ◌&&◌, Option, List, [], ◌∷◌, ◌≡◌, refl, subst, ltb, contains,
}
use claude_ipc.Models.{Message}
use claude_ipc.Storage.State.{Backend, last_event_seq}
use claude_ipc.Storage.Messages.{get_message}
use claude_ipc.Storage.Machine.{apply, marks_superseded}
use claude_ipc.Storage.Transitions.{settled_at, run-settled}
use claude_ipc.Storage.Cursor.{CursorOk, last_event_seq-run}
use claude_ipc.Broker.{Broker, Env}
use claude_ipc.Registry.{truthy, text_is}
use claude_ipc.Aliases.{sanitize_alias}
use claude_ipc.Router.Guards.{owns, is_reserved}
use claude_ipc.Router.Machine
use claude_ipc.Router.Sessions
use claude_ipc.Router.Sessions.{
  RegisterArgs, register_as, register_info, heartbeat_as, leave_as, supersede_ids, supersede_with,
  own_boxes,
}
use claude_ipc.Router.Machine.{
  Request, heartbeat, leave, send, reconcile, check, deliver, lease, ack_delivery, reply, snooze,
  accept, decline, cancel, handle, Call, serve,
}
use claude_ipc.Router.Writes.{
  Written, Leaves, Written-refl, Written-apply, if_Leaves, option-Leaves, heartbeat-Written,
  leave-Written, register-Written, prune_offline-Written,
}
use claude_ipc.Router.Writes.Sending.{send-Leaves, reconcile-Leaves}
use claude_ipc.Router.Writes.Answering.{reply-Leaves}
use claude_ipc.Router.Writes.Consenting.{
  snooze-Leaves, accept-Leaves, decline-Leaves, cancel-Leaves,
}
use claude_ipc.Router.Writes.Reading.{
  check-Leaves, deliver-Leaves, lease-Leaves, acknowledge-Leaves,
}

module _ (b : Backend) (env : Env) (c : Broker) (token : Option Text)
    (h : Written b c.backend) where
  register_as-Leaves :
      (a : RegisterArgs) (self sid : Text) → Leaves b (register_as env c a self sid token)
  unfolding register_as
  register_as-Leaves a self sid = if_Leaves b (is_reserved self) _ _ h (
      if_Leaves b (self == txt "user" && not a.service) _ _ h (
        if_Leaves b (not (text_is (sanitize_alias self) self)) _ _ h
          (register-Written b env c self (register_info env a sid) token h)))

  register-Leaves : (a : RegisterArgs) → Leaves b (Sessions.register env c a token)
  unfolding Sessions.register
  register-Leaves a =
      option-Leaves b (truthy a.alias) _ _ h
        (λ self. option-Leaves b (truthy a.session_id) _ _ h (λ sid. register_as-Leaves a self sid))

  heartbeat-Leaves : (alias : Option Text) → Leaves b (heartbeat_as env c alias token)
  unfolding heartbeat_as
  heartbeat-Leaves alias =
      option-Leaves b (truthy alias) _ _ h
        (λ self. if_Leaves b (not (owns c token self)) _ _ h (heartbeat-Written b env c self h))

  leave-Leaves : (alias : Option Text) → Leaves b (leave_as c alias token)
  unfolding leave_as
  leave-Leaves alias =
      option-Leaves b (truthy alias) _ _ h
        (λ self. if_Leaves b (not (owns c token self)) _ _ h (leave-Written b c self h))

  supersede_with-Leaves :
      (old by_id : Text) (m n : Message) → Leaves b (supersede_with env c old by_id m n token)
  unfolding supersede_with apply
  supersede_with-Leaves old by_id m n = if_Leaves b (ltb n.ts m.ts) _ _ h (
      if_Leaves b
        (not (
          contains (own_boxes env c token) m.from_alias
          && contains (own_boxes env c token) n.from_alias))
        _ _ h (Written-apply b c.backend (marks_superseded old by_id) refl h))

  supersede-Leaves : (old by_id : Option Text) → Leaves b (Sessions.supersede env c old by_id token)
  unfolding Sessions.supersede supersede_ids
  supersede-Leaves old by_id = option-Leaves b (truthy old) _ _ h (λ o.
      option-Leaves b (truthy by_id) _ _ h (λ i. if_Leaves b (o == i) _ _ h (
        option-Leaves b (get_message c.backend o) _ _ h (λ m.
          option-Leaves b (get_message c.backend i) _ _ h (λ n. supersede_with-Leaves o i m n)))))

  prune-Written :
      (offline_for_s : Option ℕ) → Written b (Sessions.prune env c offline_for_s).0.backend
  unfolding Sessions.prune
  prune-Written offline_for_s = prune_offline-Written b env c _ h

  handle-Written : (r : Request) → Written b (handle env c token r).backend
  unfolding handle
  handle-Written (Machine.register a) = register-Leaves a
  handle-Written (heartbeat alias) = heartbeat-Leaves alias
  handle-Written (leave alias) = leave-Leaves alias
  handle-Written (send a) = send-Leaves b env a c token h
  handle-Written (reconcile alias) = reconcile-Leaves b env c alias token h
  handle-Written (check alias consume project) = check-Leaves b env c alias consume project token h
  handle-Written (deliver alias via project) = deliver-Leaves b env c alias via project token h
  handle-Written (lease alias project via id s) =
      lease-Leaves b env c alias project via id s token h
  handle-Written (ack_delivery alias project id ms) =
      acknowledge-Leaves b env c alias project id ms token h
  handle-Written (reply a) = reply-Leaves b env a c token h
  handle-Written (snooze alias id) = snooze-Leaves b env c alias id token h
  handle-Written (accept alias id) = accept-Leaves b env c alias id token h
  handle-Written (decline from id reason) = decline-Leaves b env c from id reason token h
  handle-Written (cancel id) = cancel-Leaves b env c id token h
  handle-Written (Machine.supersede old by_id) = supersede-Leaves old by_id
  handle-Written (Machine.prune offline_for_s) = prune-Written offline_for_s

serve-Written :
    (b : Backend) (c : Broker) (calls : List Call)
    → Written b c.backend
    → Written b (serve c calls).backend
unfolding serve
serve-Written b c [] h = h
serve-Written b c (x ∷ calls) h =
    serve-Written b (handle x.env c x.token x.request) calls
      (handle-Written b x.env c x.token h x.request)

-- However many requests of the modelled kinds are served, and whoever asks, a delivery that is
-- consumed, accepted or declined stays one of the three.
pub serve-settled :
    (b : Broker) (calls : List Call) (k : Text)
    → settled_at b.backend k ≡ true
    → settled_at (serve b calls).backend k ≡ true
serve-settled b calls k h =
    let w = serve-Written b.backend b calls (Written-refl b.backend) in
    subst (λ s. settled_at s k ≡ true) w.runs (run-settled b.backend w.writes k w.mild h)

-- However many requests of the modelled kinds are served, the cursor of any list of addresses never
-- goes back, if at the start no address is ahead of the counter.
pub last_event_seq-serve :
    (b : Broker) (calls : List Call) (addresses : List Text)
    → CursorOk b.backend
    → last_event_seq b.backend addresses ≤ last_event_seq (serve b calls).backend addresses
last_event_seq-serve b calls addresses h =
    let w = serve-Written b.backend b calls (Written-refl b.backend) in
    subst (λ s. last_event_seq b.backend addresses ≤ last_event_seq s addresses) w.runs
      (last_event_seq-run b.backend w.writes addresses h)
