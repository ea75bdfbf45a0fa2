-- ===== src/Sweeper/Chasing.antt =====
-- How often an unanswered ask is chased, and what a sweep keeps.
use claude_ipc.Base.{
  ℕ, Text, Bool, true, false, Option, none, some, List, [], ◌∷◌, ◌≡◌, ◌∙◌, refl, ap, arith, subst,
  ◌⊎◌, inl, inr, if◌then◌else◌, Option-cases, Bool-cases,
}
use claude_ipc.Base.Map
use claude_ipc.Base.Map.{get-set}
use claude_ipc.Models.{Message, Awaiting, NudgeStage, parked, ClosedReason}
use claude_ipc.Storage.State.{Backend, bump_seq}
use claude_ipc.Storage.Messages.{append, origin_of}
use claude_ipc.Storage.Inbox.{enqueue}
use claude_ipc.Storage.Asks.{
  get_awaiting, close_awaiting, mark_nudged, stage_before, open_awaitings,
}
use claude_ipc.Storage.Transitions.{settled_at, run-settled}
use claude_ipc.Storage.Machine.{appends, enqueues, marks_nudged, closes_awaiting, apply}
use claude_ipc.Router.Writes.{Written, Written-refl, Written-apply}
use claude_ipc.Sweeper.{
  Sweep, Clock, post_notice, notice, last_call_text, no_reply_text, nudge_text, is_sender_due,
  is_nudge_due, release, nudge, chase, sweep_one, sweep_each, sweep_reply_deadlines,
}

post_notice-awaiting :
    (c : Clock) (o : Message) (corr : Text) (s : Sweep) (to body : Text) (t : Bool)
    → (post_notice c o corr s to body t).backend.awaiting ≡ s.backend.awaiting
unfolding post_notice append enqueue bump_seq
post_notice-awaiting c o corr s to body t = ground arith

mark_nudged-get :
    (b : Backend) (id : Text) (stage : NudgeStage) (a : Awaiting)
    → get_awaiting b id ≡ some a
    → get_awaiting (mark_nudged b id stage) id
      ≡ some (if stage_before a.nudged_stage stage then record a { nudged_stage = stage } else a)
unfolding mark_nudged
mark_nudged-get b id stage a e = grind (arith, get-set)

close_awaiting-get :
    (b : Backend) (id : Text) (r : Option ClosedReason) (a : Awaiting)
    → get_awaiting b id ≡ some a
    → get_awaiting (close_awaiting b id r) id
      ≡ some (if a.closed then a else record a { closed = true; closed_reason = r })
unfolding close_awaiting
close_awaiting-get b id r a e = grind (arith, get-set)

abbrev is_done : Option Awaiting → Bool
is_done none = false
is_done (some a) = a.closed

release-is_done :
    (c : Clock) (s : Sweep) (a : Awaiting) (o : Message)
    → get_awaiting s.backend o.id ≡ some a
    → is_done (get_awaiting (release c s a o).backend o.id) ≡ true
unfolding release
release-is_done c s a o e =
    let told = post_notice c o o.id s o.to_alias (last_call_text c o) false in
    let freed = post_notice c o o.id told o.from_alias (no_reply_text c a o) true in
    let k : get_awaiting freed.backend o.id ≡ some a =
      ap (λ m. Map.get m o.id)
        (post_notice-awaiting c o o.id told o.from_alias (no_reply_text c a o) true
          ∙ post_notice-awaiting c o o.id s o.to_alias (last_call_text c o) false)
      ∙ e in
    ground (
      arith,
      close_awaiting-get (mark_nudged freed.backend o.id NudgeStage.two) o.id (some parked) _
          (mark_nudged-get freed.backend o.id NudgeStage.two a k),
    )

nudge-get :
    (c : Clock) (s : Sweep) (a : Awaiting) (o : Message)
    → get_awaiting s.backend o.id ≡ some a
    → get_awaiting (nudge c s o).backend o.id
      ≡ some (
          if stage_before a.nudged_stage NudgeStage.one
          then record a { nudged_stage = NudgeStage.one }
          else a)
unfolding nudge
nudge-get c s a o e =
    let told = post_notice c o o.id s o.to_alias (nudge_text c o) false in
    mark_nudged-get told.backend o.id NudgeStage.one a (
      ap (λ m. Map.get m o.id) (post_notice-awaiting c o o.id s o.to_alias (nudge_text c o) false)
      ∙ e)

-- An ask that has been nudged, at a moment when its sender is not yet to be released.
nudged_again :
    (c : Clock) (a : Awaiting) (r : ℕ) (o : Message) (t : Sweep)
    → is_sender_due c a r o ≡ false
    → is_nudge_due c a r ≡ true
    → chase c t
        (if stage_before a.nudged_stage NudgeStage.one
          then record a { nudged_stage = NudgeStage.one }
          else a)
        r
        o
      ≡ t
unfolding chase
nudged_again c a r o t d n = ground arith

chase_by :
    (c : Clock) (s : Sweep) (a : Awaiting) (r : ℕ) (o : Message)
    → chase c s a r o ≡ (
        if is_sender_due c a r o
        then release c s a o
        else if is_nudge_due c a r
        then nudge c s o
        else s)
unfolding chase
chase_by c s a r o = refl

-- Each stage of a chase is fired once: after an ask was chased, it is closed, or a second chase at
-- the same moment, by its record as it then stands, posts nothing and changes nothing.
pub chase-chase :
    (c : Clock) (s : Sweep) (a again : Awaiting) (r : ℕ) (o : Message)
    → get_awaiting s.backend o.id ≡ some a
    → get_awaiting (chase c s a r o).backend o.id ≡ some again
    → (again.closed ≡ true) ⊎ (chase c (chase c s a r o) again r o ≡ chase c s a r o)
chase-chase c s a again r o e k = elim (Bool-cases (is_sender_due c a r o)) [
  | inl d ↦ inl (ground (arith, release-is_done c s a o e, chase_by c s a r o))
  | inr d ↦ elim (Bool-cases (is_nudge_due c a r)) [
    | inl n ↦ inr (
        ground
          (arith, nudge-get c s a o e, chase_by c s a r o, nudged_again c a r o (nudge c s o) d n))
    | inr n ↦ inr (ground (arith, chase_by c s a r o))
  ]
]

module _ (b : Backend) (c : Clock) where
  post_notice-Written :
      (o : Message) (corr : Text) (s : Sweep) (to body : Text) (t : Bool)
      → Written b s.backend
      → Written b (post_notice c o corr s to body t).backend
  unfolding post_notice apply
  post_notice-Written o corr s to body t h =
      Written-apply b (append s.backend (notice c s.ids_drawn corr to body t o))
        (enqueues (c.new_id s.ids_drawn) to) refl
        (Written-apply b s.backend (appends (notice c s.ids_drawn corr to body t o)) refl h)

  release-Written :
      (s : Sweep) (a : Awaiting) (o : Message)
      → Written b s.backend
      → Written b (release c s a o).backend
  unfolding release apply
  release-Written s a o h =
      let told = post_notice c o o.id s o.to_alias (last_call_text c o) false in
      let freed = post_notice c o o.id told o.from_alias (no_reply_text c a o) true in
      Written-apply b (mark_nudged freed.backend o.id NudgeStage.two)
        (closes_awaiting o.id (some parked)) refl
        (Written-apply b freed.backend (marks_nudged o.id NudgeStage.two) refl (
          post_notice-Written o o.id told o.from_alias (no_reply_text c a o) true
            (post_notice-Written o o.id s o.to_alias (last_call_text c o) false h)))

  nudge-Written : (s : Sweep) (o : Message) → Written b s.backend → Written b (nudge c s o).backend
  unfolding nudge apply
  nudge-Written s o h =
      Written-apply b (post_notice c o o.id s o.to_alias (nudge_text c o) false).backend
        (marks_nudged o.id NudgeStage.one) refl
        (post_notice-Written o o.id s o.to_alias (nudge_text c o) false h)

  if_swept :
      (x : Bool) (p q : Sweep)
      → Written b p.backend
      → Written b q.backend
      → Written b (if x then p else q).backend
  if_swept true p q h k = h
  if_swept false p q h k = k

  chase-Written :
      (s : Sweep) (a : Awaiting) (r : ℕ) (o : Message)
      → Written b s.backend
      → Written b (chase c s a r o).backend
  unfolding chase
  chase-Written s a r o h =
      if_swept (is_sender_due c a r o) (release c s a o)
        (if is_nudge_due c a r then nudge c s o else s) (release-Written s a o h)
        (if_swept (is_nudge_due c a r) (nudge c s o) s (nudge-Written s o h) h)

  sweep_one-Written :
      (s : Sweep) (a : Awaiting) → Written b s.backend → Written b (sweep_one c s a).backend
  unfolding sweep_one
  sweep_one-Written s a h = elim (Option-cases a.reply_by_s) [
    | inl e ↦ rw (e, sweep_one) h
    | inr (r, e) ↦ elim (Option-cases (origin_of s.backend a.origin_id)) [
      | inl k ↦ rw (e, k, sweep_one) h
      | inr (o, k) ↦ rw (e, k, sweep_one) (chase-Written s a r o h)
    ]
  ]

  sweep_each-Written :
      (s : Sweep) (asks : List Awaiting)
      → Written b s.backend
      → Written b (sweep_each c s asks).backend
  sweep_each-Written s [] h = h
  sweep_each-Written s (a ∷ asks) h =
      sweep_each-Written (sweep_one c s a) asks (sweep_one-Written s a h)

-- A sweep of the reply deadlines leaves every delivery that is consumed, accepted or declined one of
-- the three.
pub sweep_reply_deadlines-settled :
    (c : Clock) (s : Sweep) (k : Text)
    → settled_at s.backend k ≡ true
    → settled_at (sweep_reply_deadlines c s).backend k ≡ true
unfolding sweep_reply_deadlines
sweep_reply_deadlines-settled c s k h =
    let w = sweep_each-Written s.backend c s (open_awaitings s.backend) (Written-refl s.backend) in
    subst (λ x. settled_at x k ≡ true) w.runs (run-settled s.backend w.writes k w.mild h)
