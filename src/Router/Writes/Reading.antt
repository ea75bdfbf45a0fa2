-- ===== src/Router/Writes/Reading.antt =====
-- The writes of `check`, `deliver`, `lease` and `ackDelivery`.
use claude_ipc.Base.{
  ℕ, Text, Bool, true, false, not, ◌&&◌, Option, none, some, List, [], ◌∷◌, refl, or_default,
  if◌then◌else◌,
}
use claude_ipc.Models.{Message, DeliveredVia, channel, hook}
use claude_ipc.Storage.State.{Backend}
use claude_ipc.Storage.Messages.{get_message}
use claude_ipc.Storage.Inbox.{pending, pending_consume, mark_consumed}
use claude_ipc.Storage.Leases
use claude_ipc.Storage.Machine.{
  apply, consumes_pending, marks_consumed, claims_delivery, leases_delivery, acks_delivery,
  marks_project_surfaced,
}
use claude_ipc.Broker.{Broker, Env}
use claude_ipc.Registry.{truthy}
use claude_ipc.Router.Guards.{
  owns, alias_of_token, session_boxes, project_mailboxes, is_project_member, still_owed_by,
}
use claude_ipc.Router.Consent.{with_backend}
use claude_ipc.Router.Inbox.{
  over_boxes, read_boxes, consume_each, is_managed_host, check_project, check_own, check, claim_via,
  deliver_project, deliver_own, deliver, lease_until_of, lease_project, lease_box, lease_own, lease,
  is_past, ack_shared, ack_boxes, ack_owned, ack_each, acknowledge,
}
use claude_ipc.Router.Writes.{
  Written, Leaves, Written-apply, if_Leaves, option-Leaves, notify_all-Written,
}

module _ (b : Backend) where
  over_boxes-Written :
      (read : Backend → Text → Backend × List Message)
      → ((c : Backend) (x : Text) → Written b c → Written b (read c x).0)
      → (c : Backend) (boxes : List Text) → Written b c
      → Written b (over_boxes read c boxes).0
  unfolding over_boxes
  over_boxes-Written read keeps c [] h = h
  over_boxes-Written read keeps c (x ∷ boxes) h =
      over_boxes-Written read keeps (read c x).0 boxes (keeps c x h)

  consume_each-Written :
      (c : Backend) (ms : List Message) → Written b c → Written b (consume_each c ms)
  unfolding apply
  consume_each-Written c [] h = h
  consume_each-Written c (m ∷ ms) h =
      consume_each-Written (mark_consumed c m.id m.to_alias) ms
        (Written-apply b c (marks_consumed m.id m.to_alias) refl h)

  pending_consume-Written :
      (c : Backend) (x : Text) → Written b c → Written b (pending_consume c x).0
  unfolding apply
  pending_consume-Written c x h = Written-apply b c (consumes_pending x) refl h

  claim_via-Written :
      (via : Option DeliveredVia) (c : Backend) (x : Text)
      → Written b c
      → Written b (claim_via via c x).0
  unfolding apply
  claim_via-Written via c x h =
      Written-apply b c (claims_delivery x (some (or_default via hook))) refl h

  lease_box-Written :
      (env : Env) (via : Option DeliveredVia) (id : Text) (until : ℕ) (c : Backend) (x : Text)
      → Written b c
      → Written b (lease_box env via id until c x).0
  unfolding apply
  lease_box-Written env via id until c x h =
      Written-apply b c (leases_delivery x (some (or_default via channel)) id env.now until) refl h

  check_project-Leaves :
      (env : Env) (c : Broker) (dir : Text) (consume : Bool) (token : Option Text)
      → Written b c.backend
      → Leaves b (check_project env c dir consume token)
  unfolding check_project
  check_project-Leaves env c dir true token h = if_Leaves b (is_managed_host env c token) _ _ h (
      if_Leaves b (not (is_project_member env c token dir)) _ _ h (
        consume_each-Written c.backend
          (still_owed_by env c (read_boxes pending c.backend (project_mailboxes c dir false))
            (alias_of_token env c token))
          h))
  check_project-Leaves env c dir false token h = h

  check_own-Leaves :
      (env : Env) (c : Broker) (alias : Text) (consume : Bool) (token : Option Text)
      → Written b c.backend
      → Leaves b (check_own env c alias consume token)
  unfolding check_own
  check_own-Leaves env c alias consume token h =
      let boxes = session_boxes env c alias in
      if_Leaves b (not (owns c token alias)) _ _ h (
        if_Leaves b (consume && is_managed_host env c token) _ _ h (
          if_Leaves b consume _ _
            (notify_all-Written b (with_backend c (over_boxes pending_consume c.backend boxes).0)
              boxes (over_boxes-Written pending_consume pending_consume-Written c.backend boxes h))
            h))

  pub check-Leaves :
      (env : Env) (c : Broker) (alias : Option Text) (consume : Bool) (project token : Option Text)
      → Written b c.backend
      → Leaves b (check env c alias consume project token)
  unfolding check
  check-Leaves env c alias consume project token h =
      option-Leaves b (truthy project) _ _
        (option-Leaves b (truthy alias) _ _ h (λ self. check_own-Leaves env c self consume token h))
        (λ dir. check_project-Leaves env c dir consume token h)

  pub deliver-Leaves :
      (env : Env) (c : Broker) (alias : Option Text) (via : Option DeliveredVia)
      (project token : Option Text)
      → Written b c.backend
      → Leaves b (deliver env c alias via project token)
  unfolding deliver deliver_own deliver_project
  deliver-Leaves env c alias via project token h =
      let claimed = over_boxes-Written (claim_via via) (claim_via-Written via) c.backend in
      option-Leaves b (truthy project) _ _
        (option-Leaves b (truthy alias) _ _ h (λ self. if_Leaves b (not (owns c token self)) _ _ h (
          notify_all-Written b
            (with_backend c (over_boxes (claim_via via) c.backend (session_boxes env c self)).0)
            (session_boxes env c self) (claimed (session_boxes env c self) h))))
        (λ dir.
          if_Leaves b (not (is_project_member env c token dir)) _ _ h
            (claimed (project_mailboxes c dir false) h))

  pub lease-Leaves :
      (env : Env) (c : Broker) (alias project : Option Text) (via : Option DeliveredVia)
      (lease_id : Option Text) (lease_s : Option ℕ) (token : Option Text)
      → Written b c.backend
      → Leaves b (lease env c alias project via lease_id lease_s token)
  unfolding lease lease_own lease_project
  lease-Leaves env c alias project via lease_id lease_s token h =
      option-Leaves b (truthy lease_id) _ _ h (λ id.
        option-Leaves b (truthy project) _ _
          (option-Leaves b (truthy alias) _ _ h (λ self.
            if_Leaves b (not (owns c token self)) _ _ h (
              over_boxes-Written (lease_box env via id (lease_until_of env lease_s))
                (lease_box-Written env via id (lease_until_of env lease_s)) c.backend
                (session_boxes env c self) h)))
          (λ dir. if_Leaves b (not (is_project_member env c token dir)) _ _ h h))

  ack_each-Written :
      (ack : Backend → Text → Backend × Bool)
      → ((c : Backend) (x : Text) → Written b c → Written b (ack c x).0)
      → (c : Backend) (ids : List Text) → Written b c
      → Written b (ack_each ack c ids).0
  unfolding ack_each
  ack_each-Written ack keeps c [] h = h
  ack_each-Written ack keeps c (x ∷ ids) h =
      ack_each-Written ack keeps (ack c x).0 ids (keeps c x h)

  ack_boxes-Written :
      (id : Text) (c : Backend) (boxes : List Text) (m : Text)
      → Written b c
      → Written b (ack_boxes c boxes id m).0
  unfolding apply
  ack_boxes-Written id c [] m h = h
  ack_boxes-Written id c (x ∷ boxes) m h =
      ack_boxes-Written id (Leases.ack_delivery c x id (m ∷ [])).0 boxes m
        (Written-apply b c (acks_delivery x id (m ∷ [])) refl h)

  pair_if :
      (x : Bool) (p q : Backend × Bool)
      → Written b p.0
      → Written b q.0
      → Written b (if x then p else q).0
  pair_if true p q h k = h
  pair_if false p q h k = k

  ack_shared_row :
      (o : Option Message) (c : Backend) (f : Message → Backend × Bool)
      → Written b c
      → ((m : Message) → Written b (f m).0)
      → Written b ((elim o as (λ o. Backend × Bool) [ none ↦ (c, false) | some m ↦ f m ]).0)
  ack_shared_row none c f h k = h
  ack_shared_row (some m) c f h k = k m

  ack_shared-Written :
      (boxes : List Text) (self : Text) (c : Backend) (id : Text)
      → Written b c
      → Written b (ack_shared c boxes self id).0
  unfolding ack_shared apply
  ack_shared-Written boxes self c id h = ack_shared_row (get_message c id) c _ h (λ m.
      pair_if (is_past c (m.to_alias ∷ []) id) _ _ h
        (pair_if _ _ _ h (Written-apply b c (marks_project_surfaced id self) refl h)))

  pub acknowledge-Leaves :
      (env : Env) (c : Broker) (alias project lease_id : Option Text) (ids : Option (List Text))
      (token : Option Text)
      → Written b c.backend
      → Leaves b (acknowledge env c alias project lease_id ids token)
  unfolding acknowledge ack_owned
  acknowledge-Leaves env c alias project lease_id none token h = h
  acknowledge-Leaves env c alias project lease_id (some ids) token h =
      option-Leaves b (truthy lease_id) _ _ h (λ id.
        option-Leaves b (truthy project) _ _
          (option-Leaves b (truthy alias) _ _ h (λ self.
            if_Leaves b (not (owns c token self)) _ _ h (
              ack_each-Written (λ t m. ack_owned t (session_boxes env c self) id m)
                (λ t m. ack_boxes-Written id t (session_boxes env c self) m) c.backend ids h)))
          (λ dir. if_Leaves b (not (is_project_member env c token dir)) _ _ h (
            ack_each-Written
              (λ t m.
                ack_shared t (project_mailboxes c dir false)
                  (or_default (alias_of_token env c token) []) m)
              (λ t m.
                ack_shared-Written (project_mailboxes c dir false)
                  (or_default (alias_of_token env c token) []) t m)
              c.backend ids h)))
