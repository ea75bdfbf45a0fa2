-- ===== src/Router/Writes/Consenting.antt =====
-- The writes of `snooze`, `accept`, `decline` and `cancel`.
use claude_ipc.Base.{
  Text, ◌==◌, true, false, not, ◌&&◌, Option, none, some, List, [], ◌∷◌, refl, if◌then◌else◌,
}
use claude_ipc.Models.{Message, Delivery, responded, cancelled}
use claude_ipc.ProjectAddress.{is_project_address}
use claude_ipc.Storage.State.{Backend}
use claude_ipc.Storage.Messages.{get_message, origin_of}
use claude_ipc.Storage.Inbox.{mark_surfaced, set_consent, deliveries_for}
use claude_ipc.Storage.Asks.{close_awaiting, is_awaiting_open}
use claude_ipc.Storage.Projects.{project_claim, pass_project}
use claude_ipc.Storage.Machine.{
  apply, closes_awaiting, defers_nudge, marks_surfaced, sets_consent, claims_project,
  releases_claim, passes_project,
}
use claude_ipc.Broker.{Broker, Env}
use claude_ipc.Registry.{touch_by_act, truthy, list}
use claude_ipc.Router.Guards.{Response, notify, owns, not_actable, claim_still_held}
use claude_ipc.Router.Send.{notify_members}
use claude_ipc.Router.Replies.{consume, post}
use claude_ipc.Router.Consent.{
  with_backend, on_own_mail, surface_own, snooze, free_stale, claim, to_project, accept_own, accept,
  pass_on, passed_note, refuse, decline_message, decline_own, decline, tell_cancelled,
  cancelled_note, is_unsettled, is_unseen, cancel_each, cancel_ask, cancel,
}
use claude_ipc.Router.Writes.{
  Written, Leaves, Written-apply, if_Leaves, option-Leaves, if_Written_backend, option-Written,
  if_Written, notify_members-Written, touch_by_act-Written, post-Written, consume-Written,
}

module _ (b : Backend) (env : Env) where
  on_own_mail-Leaves :
      {R : Type 0} (c : Broker) (alias id token : Option Text)
      (act : Broker → Text → Text → Broker × Response R)
      → ((d : Broker) (self i : Text) → Written b d.backend → Leaves b (act d self i))
      → Written b c.backend
      → Leaves b (on_own_mail env c alias id token act)
  on_own_mail-Leaves c alias id token act leaves h = option-Leaves b (truthy alias) _ _ h (λ self.
      option-Leaves b (truthy id) _ _ h (λ i. if_Leaves b (not (owns c token self)) _ _ h (
        option-Leaves b (not_actable env (touch_by_act env c self) i self) _ _
          (leaves (touch_by_act env c self) self i (touch_by_act-Written b env c self h))
          (λ code. touch_by_act-Written b env c self h))))

  surface_own-Leaves :
      (c : Broker) (self id : Text) → Written b c.backend → Leaves b (surface_own env c self id)
  unfolding apply
  surface_own-Leaves c self id h =
      let s = Written-apply b c.backend (marks_surfaced id self) refl h in
      if_Leaves b (not (mark_surfaced c.backend id self).1) _ _ s
        (Written-apply b (mark_surfaced c.backend id self).0 (defers_nudge id env.now) refl s)

  pub snooze-Leaves :
      (c : Broker) (alias id token : Option Text)
      → Written b c.backend
      → Leaves b (snooze env c alias id token)
  unfolding snooze
  snooze-Leaves c alias id token =
      on_own_mail-Leaves c alias id token (surface_own env) surface_own-Leaves

  free_stale-Written :
      (c : Broker) (self id : Text) → Written b c.backend → Written b (free_stale env c self id)
  unfolding free_stale apply
  free_stale-Written c self id h =
      option-Written b (truthy (project_claim c.backend id)) _ _ h (λ holder.
        if_Written_backend b (not (holder == self) && not (claim_still_held env c holder)) _ _
          (Written-apply b c.backend (releases_claim id) refl h) h)

  accept_own-Leaves :
      (c : Broker) (self id : Text) → Written b c.backend → Leaves b (accept_own env c self id)
  unfolding accept_own claim apply
  accept_own-Leaves c self id h =
      if_Leaves b (to_project (get_message c.backend id)) _ _
        (Written-apply b (free_stale env c self id) (claims_project id self) refl
          (free_stale-Written c self id h))
        (Written-apply b c.backend (sets_consent id self true) refl h)

  pub accept-Leaves :
      (c : Broker) (alias id token : Option Text)
      → Written b c.backend
      → Leaves b (accept env c alias id token)
  unfolding accept
  accept-Leaves c alias id token =
      on_own_mail-Leaves c alias id token (accept_own env) accept_own-Leaves

  pass_on-Written :
      (c : Broker) (from id : Text) (reason : Option Text) (o : Message)
      → Written b c.backend
      → Written b (pass_on env c from id reason o).backend
  unfolding apply
  pass_on-Written c from id reason o h =
      let p = with_backend c (pass_project c.backend id from) in
      let s = Written-apply b c.backend (passes_project id from) refl h in
      let n = passed_note env p from id reason o in
      if_Written b (is_awaiting_open p.backend id) (notify (post p n) o.from_alias) p
        (post-Written b p n s) s

  refuse-Written :
      (c : Broker) (from id : Text) (reason : Option Text) (o : Option Message)
      → Written b c.backend
      → Written b (refuse env c from id reason o).backend
  unfolding apply
  refuse-Written c from id reason none h =
      Written-apply b c.backend (sets_consent id from false) refl h
  refuse-Written c from id reason (some o) h =
      let p = with_backend c (set_consent c.backend id from false) in
      let s = Written-apply b c.backend (sets_consent id from false) refl h in
      let q = post p (decline_message env p from id reason o) in
      if_Written b (is_awaiting_open p.backend id)
        (notify (with_backend q (close_awaiting q.backend id (some responded))) o.from_alias) p
        (Written-apply b q.backend (closes_awaiting id (some responded)) refl
          (post-Written b p (decline_message env p from id reason o) s))
        s

  decline_own-Leaves :
      (reason : Option Text) (c : Broker) (self id : Text)
      → Written b c.backend
      → Leaves b (decline_own env reason c self id)
  unfolding decline_own
  decline_own-Leaves reason c self id h =
      option-Leaves b (origin_of c.backend id) _ _ (refuse-Written c self id reason none h) (λ o.
        if_Leaves b (is_project_address o.to_alias) _ _ (pass_on-Written c self id reason o h)
          (refuse-Written c self id reason (some o) h))

  pub decline-Leaves :
      (c : Broker) (alias id reason token : Option Text)
      → Written b c.backend
      → Leaves b (decline env c alias id reason token)
  unfolding decline
  decline-Leaves c alias id reason token =
      on_own_mail-Leaves c alias id token (decline_own env reason) (decline_own-Leaves reason)

  tell_cancelled-Written :
      (c : Broker) (corr : Text) (o : Message) (to : Text)
      → Written b c.backend
      → Written b (tell_cancelled env c corr o to).backend
  tell_cancelled-Written c corr o to h =
      let p = post c (cancelled_note env c to corr o) in
      let s = post-Written b c (cancelled_note env c to corr o) h in
      if_Written b (is_project_address to) (notify_members env p (list env p) to) (notify p to)
        (notify_members-Written b env p (list env p) to s) s

  cancel_each-Written :
      (c : Broker) (corr : Text) (o : Message) (ds : List Delivery)
      → Written b c.backend
      → Written b (cancel_each env c corr o ds).backend
  unfolding cancel_each
  cancel_each-Written c corr o [] h = h
  cancel_each-Written c corr o (d ∷ ds) h =
      let e = consume c corr d.to_alias in
      let k = consume-Written b c corr d.to_alias h in
      let told = tell_cancelled env e corr o d.to_alias in
      let rest : Broker = if is_unseen d.state then e else told in
      cancel_each-Written (if not (is_unsettled d.state) then c else rest) corr o ds (
        if_Written b (not (is_unsettled d.state)) c rest h (
          if_Written b (is_unseen d.state) e told k (tell_cancelled-Written e corr o d.to_alias k)))

  cancel_ask-Written :
      (c : Broker) (corr : Text) (o : Message)
      → Written b c.backend
      → Written b (cancel_ask env c corr o).backend
  unfolding cancel_ask apply
  cancel_ask-Written c corr o h =
      let closed = with_backend c (close_awaiting c.backend corr (some cancelled)) in
      let s = Written-apply b c.backend (closes_awaiting corr (some cancelled)) refl h in
      let ds = deliveries_for closed.backend corr in
      if_Written b (is_awaiting_open c.backend corr) (cancel_each env closed corr o ds) closed
        (cancel_each-Written closed corr o ds s) s

  pub cancel-Leaves :
      (c : Broker) (corr_id token : Option Text)
      → Written b c.backend
      → Leaves b (cancel env c corr_id token)
  unfolding cancel
  cancel-Leaves c corr_id token h = option-Leaves b (truthy corr_id) _ _ h (λ corr.
      option-Leaves b (origin_of c.backend corr) _ _
        (option-Leaves b (get_message c.backend corr) _ _ h (λ m. h))
        (λ o. if_Leaves b (not (owns c token o.from_alias)) _ _ h (cancel_ask-Written c corr o h)))
