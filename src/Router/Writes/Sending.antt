-- ===== src/Router/Writes/Sending.antt =====
-- The writes of `send`, and of the replay of the outbox.
use claude_ipc.Base.{
  Text, ◌==◌, txt, Bool, true, false, not, ◌&&◌, Option, List, [], ◌∷◌, is_some, or_default, ℕ, suc,
  refl, if◌then◌else◌,
}
use claude_ipc.Models.{Message, SendArgs, OutboundIntent, Kind}
use claude_ipc.ProjectAddress.{is_project_address}
use claude_ipc.Storage.State.{Backend}
use claude_ipc.Storage.Messages.{append_routed, get_message, pending_outbound}
use claude_ipc.Storage.Asks.{open_awaiting, get_awaiting}
use claude_ipc.Storage.Machine.{appends_routed, opens_awaiting, deletes_outbound, apply}
use claude_ipc.Broker.{Broker, Env}
use claude_ipc.Registry.{touch_by_act, truthy, list}
use claude_ipc.Router.Guards.{Response, ok, fail, is_reserved, owns}
use claude_ipc.Router.Send.{
  SendResult, send, send_to, send_as, replay, refuses, commit, route, reopen, fan_out, pass_own,
  replay_targets, existing_message, sent_message, broadcast_targets, committed_elsewhere,
  is_directed_ask, same_payload, notify_members, bad_message_id, canonical, deadline, or_else,
  reply_by_or,
}
use claude_ipc.Router.Sessions.{
  drop_intent, settle_intent, is_permanent, reconcile_each, reconcile_as, reconcile,
}
use claude_ipc.Router.Writes.{
  Written, Leaves, Written-apply, if_Leaves, option-Leaves, if_Written, fan_out-Written,
  pass_own-Written, notify_all-Written, notify_members-Written, touch_by_act-Written,
}

module _ (b : Backend) (env : Env) (a : SendArgs) where
  open_awaiting-Written :
      (c : Backend) (id : Text) (e r : Option ℕ) (n : ℕ)
      → Written b c
      → Written b (open_awaiting c id e r n)
  unfolding apply
  open_awaiting-Written c id e r n h = Written-apply b c (opens_awaiting id e r n) refl h

  reopen-Written :
      (c : Broker) (m : Message) → Written b c.backend → Written b (reopen env c m a).backend
  reopen-Written c m h =
      if_Written b
        (not (is_some (get_awaiting c.backend m.id)) && is_directed_ask m.to_alias m.kind) _ c
        (open_awaiting-Written c.backend m.id _ _ _ h) h

  replay-Leaves :
      (c : Broker) (from to : Text) (m : Message)
      → Written b c.backend
      → Leaves b (replay env c a from to m)
  unfolding replay
  replay-Leaves c from to m h =
      let targets = replay_targets env c m in
      let queued : Broker = record c { backend = fan_out c.backend m.id targets } in
      let passed = pass_own env queued m.id m.to_alias m.from_alias in
      if_Leaves b (not (m.from_alias == from)) _ _ h (
        if_Leaves b (not (same_payload m a to)) _ _ h (
          notify_all-Written b (reopen env passed m a) targets (
            reopen-Written passed m (
              pass_own-Written b env queued m.id m.to_alias m.from_alias
                (fan_out-Written b c.backend m.id targets h)))))

  route-Leaves :
      (c : Broker) (from to : Text) (m : Message) (targets : List Text)
      → Written b c.backend
      → Leaves b (route env c a from to m targets)
  unfolding route
  route-Leaves c from to m targets h =
      let queued : Broker = record c { backend = fan_out c.backend m.id targets } in
      let q = fan_out-Written b c.backend m.id targets h in
      let told : Broker =
        if is_project_address to then notify_members env queued (list env queued) to else queued in
      let t =
        if_Written b (is_project_address to) (notify_members env queued (list env queued) to) queued
          (notify_members-Written b env queued (list env queued) to q) q in
      let asked : Broker = record told {
        backend =
            open_awaiting told.backend m.id (deadline env.now (or_else a.ttl_s env.default_ttl_s))
              (reply_by_or a.reply_by_s env.default_reply_by_s) env.now;
      } in
      notify_all-Written b (if is_directed_ask to m.kind then asked else told) targets (
        if_Written b (is_directed_ask to m.kind) asked told
          (open_awaiting-Written told.backend m.id _ _ _ t) t)

  commit-Leaves :
      (c : Broker) (from to : Text) (k : Kind)
      → Written b c.backend
      → Leaves b (commit env c a from to k)
  unfolding commit apply
  commit-Leaves c from to k h =
      let id = or_default a.message_id (env.new_id c.ids_drawn) in
      let drawn : Broker = record c {
        ids_drawn = if is_some a.message_id then c.ids_drawn else suc c.ids_drawn;
      } in
      let m = sent_message env a from to k id in
      let targets = if to == txt "*" then broadcast_targets env drawn from else to ∷ [] in
      let appended : Broker = record drawn { backend = append_routed drawn.backend m targets } in
      let passed = pass_own env appended id to from in
      let p =
        pass_own-Written b env appended id to from
          (Written-apply b c.backend (appends_routed m targets) refl h) in
      if_Leaves b (is_some (get_message c.backend id)) _ _ h (
        if_Leaves b (committed_elsewhere passed a m) _ _ p
          (route-Leaves passed from to m targets p))

  send_as-Leaves :
      (c : Broker) (from to : Text) → Written b c.backend → Leaves b (send_as env c a from to)
  unfolding send_as
  send_as-Leaves c from to h =
      option-Leaves b (existing_message c a) _ _
        (option-Leaves b (refuses env c a from to) _ _
          (option-Leaves b a.kind _ _ h (λ k. commit-Leaves c from to k h)) (λ code. h))
        (λ m. replay-Leaves c from to m h)

  send_to-Leaves :
      (c : Broker) (token : Option Text) (from to : Text)
      → Written b c.backend
      → Leaves b (send_to env c a token from to)
  unfolding send_to
  send_to-Leaves c token from to h = if_Leaves b (bad_message_id a) _ _ h (
      if_Leaves b (is_reserved from) _ _ h (
        if_Leaves b (not (owns c token from)) _ _ h (
          send_as-Leaves (touch_by_act env c from) from (canonical to)
            (touch_by_act-Written b env c from h))))

  pub send-Leaves :
      (c : Broker) (token : Option Text) → Written b c.backend → Leaves b (send env c a token)
  unfolding send
  send-Leaves c token h =
      option-Leaves b (truthy a.from_alias) _ _ h
        (λ from. option-Leaves b (truthy a.to) _ _ h (λ to. send_to-Leaves c token from to h))

module _ (b : Backend) (env : Env) where
  drop_intent-Written :
      (x : Bool) (c : Broker) (id : Text)
      → Written b c.backend
      → Written b (drop_intent x c id).backend
  unfolding apply
  drop_intent-Written true c id h = Written-apply b c.backend (deletes_outbound id) refl h
  drop_intent-Written false c id h = h

  settle_intent-Written :
      (id : Text) (p : Broker × Response SendResult)
      → Leaves b p
      → Written b (settle_intent id p).0.backend
  settle_intent-Written id (c, ok r) h = drop_intent-Written true c id h
  settle_intent-Written id (c, fail e) h = drop_intent-Written (is_permanent e) c id h

  reconcile_each-Written :
      (c : Broker) (token : Option Text) (is : List OutboundIntent)
      → Written b c.backend
      → Written b (reconcile_each env c token is).0.backend
  unfolding reconcile_each
  reconcile_each-Written c token [] h = h
  reconcile_each-Written c token (i ∷ is) h =
      reconcile_each-Written (settle_intent i.operation_id (send env c i.args token)).0 token is (
        settle_intent-Written i.operation_id (send env c i.args token)
          (send-Leaves b env i.args c token h))

  pub reconcile-Leaves :
      (c : Broker) (alias token : Option Text)
      → Written b c.backend
      → Leaves b (reconcile env c alias token)
  unfolding reconcile reconcile_as
  reconcile-Leaves c alias token h = option-Leaves b (truthy alias) _ _ h (λ self.
      if_Leaves b (not (owns c token self)) _ _ h
        (reconcile_each-Written c token (pending_outbound c.backend self) h))
