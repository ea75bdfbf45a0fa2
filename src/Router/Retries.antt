-- ===== src/Router/Retries.antt =====
-- Sending twice under one operation id, and showing a message once.
use claude_ipc.Base.{
  Text, contains, true, false, not, ◌&&◌, Option, List, [], ◌∷◌, ◌≡◌, ◌∙◌, refl, ap, arith,
  if◌then◌else◌, some_of, is_some, Option-cases, Bool-cases, inl, inr, ◌==◌,
}
use claude_ipc.Models.{Message, SendArgs}
use claude_ipc.Storage.State.{Backend, bump_seq}
use claude_ipc.Storage.Inbox.{enqueue}
use claude_ipc.Storage.Asks.{open_awaiting}
use claude_ipc.Storage.Projects.{pass_project}
use claude_ipc.Broker.{Broker, Env}
use claude_ipc.Registry.{touch_by_act, truthy}
use claude_ipc.Router.Guards.{session_boxes, dedupe_by_id, dedupe_from}
use claude_ipc.Router.Send.{
  fan_out, pass_all, pass_own, reopen, replay, replay_targets, send_as, send_to, send,
  existing_message, canonical,
}
use claude_ipc.Router.Writes.{notify_all-backend, touch_by_act-backend}

pub fan_out-messages :
    (b : Backend) (id : Text) (ts : List Text) → (fan_out b id ts).messages ≡ b.messages
unfolding enqueue bump_seq
fan_out-messages b id [] = refl
fan_out-messages b id (t ∷ ts) = ground (arith, fan_out-messages (enqueue b id t) id ts)

pub pass_all-messages :
    (b : Backend) (id : Text) (aliases : List Text) → (pass_all b id aliases).messages ≡ b.messages
unfolding pass_project
pass_all-messages b id [] = refl
pass_all-messages b id (a ∷ aliases) = pass_all-messages (pass_project b id a) id aliases

pass_own-messages :
    (env : Env) (b : Broker) (id to from : Text)
    → (pass_own env b id to from).backend.messages ≡ b.backend.messages
pass_own-messages env b id to from =
    ground (arith, pass_all-messages b.backend id (session_boxes env b from))

reopen-messages :
    (env : Env) (b : Broker) (m : Message) (a : SendArgs)
    → (reopen env b m a).backend.messages ≡ b.backend.messages
unfolding open_awaiting
reopen-messages env b m a = ground arith

replay-messages :
    (env : Env) (b : Broker) (a : SendArgs) (from to : Text) (m : Message)
    → (replay env b a from to m).0.backend.messages ≡ b.backend.messages
unfolding replay
replay-messages env b a from to m =
    let targets = replay_targets env b m in
    let queued : Broker = record b { backend = fan_out b.backend m.id targets } in
    let passed = pass_own env queued m.id m.to_alias m.from_alias in
    ground (
      arith,
      ap (λ s. s.messages) (notify_all-backend (reopen env passed m a) targets),
      reopen-messages env passed m a,
      pass_own-messages env queued m.id m.to_alias m.from_alias,
      fan_out-messages b.backend m.id targets,
    )

send_as-messages :
    (env : Env) (b : Broker) (a : SendArgs) (from to : Text)
    → is_some (existing_message b a) ≡ true
    → (send_as env b a from to).0.backend.messages ≡ b.backend.messages
unfolding send_as
send_as-messages env b a from to h = elim (Option-cases (existing_message b a)) [
  | inl e ↦ ground arith
  | inr (m, e) ↦ rw (e, send_as) (replay-messages env b a from to m)
]

pub existing_message-touch_by_act :
    (env : Env) (b : Broker) (a : SendArgs) (alias : Text)
    → existing_message (touch_by_act env b alias) a ≡ existing_message b a
existing_message-touch_by_act env b a alias = rw (touch_by_act-backend env b alias) refl

send_to-messages :
    (env : Env) (b : Broker) (a : SendArgs) (token : Option Text) (from to : Text)
    → is_some (existing_message b a) ≡ true
    → (send_to env b a token from to).0.backend.messages ≡ b.backend.messages
unfolding send_to
send_to-messages env b a token from to h =
    let c = touch_by_act env b from in
    ground (
      arith,
      send_as-messages env c a from (canonical to)
          (ap is_some (existing_message-touch_by_act env b a from) ∙ h),
      ap (λ s. s.messages) (touch_by_act-backend env b from),
    )

-- A send under an operation id that a stored message already has stores no message, whether it is
-- answered as a replay or refused.
pub send-messages :
    (env : Env) (b : Broker) (a : SendArgs) (token : Option Text)
    → is_some (existing_message b a) ≡ true
    → (send env b a token).0.backend.messages ≡ b.backend.messages
unfolding send
send-messages env b a token h = elim (Option-cases (truthy a.from_alias)) [
  | inl e ↦ rw (e, send) refl
  | inr (from, e) ↦ elim (Option-cases (truthy a.to)) [
    | inl k ↦ rw (e, k, send) refl
    | inr (to, k) ↦ rw (e, k, send) (send_to-messages env b a token from to h)
  ]
]

-- No two messages of the list have one id.
abbrev pub Distinct : List Message → Type 0
Distinct [] = Unit
Distinct (m ∷ ms) = (some_of (λ x. x.id == m.id) ms ≡ false) × Distinct ms

dedupe_from-ids :
    (seen : List Text) (ms : List Message) (id : Text)
    → some_of (λ x. x.id == id) (dedupe_from seen ms)
      ≡ (not (contains seen id) && some_of (λ x. x.id == id) ms)
dedupe_from-ids seen [] id = ground arith
dedupe_from-ids seen (m ∷ ms) id = ground (
  arith,
  dedupe_from-ids (if contains seen m.id then seen else m.id ∷ seen) ms id,
  ap (contains seen) {x = m.id} {y = id},
)

dedupe_from-Distinct : (seen : List Text) (ms : List Message) → Distinct (dedupe_from seen ms)
dedupe_from-Distinct seen [] = tt
dedupe_from-Distinct seen (m ∷ ms) = elim (Bool-cases (contains seen m.id)) [
  | inl e ↦ rw e (dedupe_from-Distinct seen ms)
  | inr e ↦
      rw e (
        ground (arith, dedupe_from-ids (m.id ∷ seen) ms m.id),
        dedupe_from-Distinct (m.id ∷ seen) ms,
      )
]

-- The list without repetitions, by which a session is shown its boxes, has a message of an id
-- exactly if the whole list has one, and no two messages of it have one id.
pub dedupe_by_id-Distinct :
    (ms : List Message) (id : Text)
    → Distinct (dedupe_by_id ms)
      × (some_of (λ x. x.id == id) (dedupe_by_id ms) ≡ some_of (λ x. x.id == id) ms)
unfolding dedupe_by_id
dedupe_by_id-Distinct ms id = (dedupe_from-Distinct [] ms, dedupe_from-ids [] ms id)
