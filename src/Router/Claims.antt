-- ===== src/Router/Claims.antt =====
-- Who may take project mail, and what a cancelled ask refuses.
use claude_ipc.Base.{
  Text, ◌==◌, is_empty, Bool, true, false, not, some, List, [], ◌∷◌, ◌≡◌, ◌∙◌, refl, arith,
  if◌then◌else◌,
}
use claude_ipc.Base.Map
use claude_ipc.Base.Map.{get-set, has}
use claude_ipc.Base.Map.Entries.{get-delete}
use claude_ipc.Models.{Message, Delivery, Awaiting, cancelled}
use claude_ipc.Storage.State.{Backend, bump_seq}
use claude_ipc.Storage.Messages.{append}
use claude_ipc.Storage.Inbox.{enqueue, mark_consumed, deliveries_for}
use claude_ipc.Storage.Asks.{get_awaiting, close_awaiting, is_awaiting_open}
use claude_ipc.Storage.Projects.{project_claim, claim_project, release_claim}
use claude_ipc.Broker.{Broker, Env}
use claude_ipc.Registry
use claude_ipc.Registry.{truthy, list}
use claude_ipc.Router.Guards.{Response, ok, fail, claim_still_held, ask_cancelled}
use claude_ipc.Router.Replies.{
  ReplyArgs, consume, post, is_cancelled, consume_project, reply_to_ask,
}
use claude_ipc.Router.Consent.{
  claim, free_stale, AcceptResult, with_backend, cancel_ask, cancel_each, tell_cancelled,
  cancelled_note, is_unsettled, is_unseen,
}
use claude_ipc.Router.Writes.{notify_members-backend}

-- The answer of an accept that takes the mail, and of one that comes second.
abbrev pub won_by : Text → Response AcceptResult
won_by self = ok (record { accepted = true; claimed_by = some self })

abbrev pub taken_by : Text → Response AcceptResult
taken_by owner = ok (record { accepted = false; claimed_by = some owner })

claim-held :
    (env : Env) (b : Broker) (self owner id : Text)
    → project_claim b.backend id ≡ some owner
    → is_empty owner ≡ false
    → owner == self ≡ false
    → claim_still_held env b owner ≡ true
    → claim env b self id ≡ (b, taken_by owner)
unfolding claim free_stale claim_project
claim-held env b self owner id e n d h = ground arith

claim-won :
    (env : Env) (b : Broker) (self id : Text)
    → (claim env b self id).1 ≡ won_by self
    → project_claim (claim env b self id).0.backend id ≡ some self
unfolding claim free_stale claim_project release_claim
claim-won env b self id h = grind (arith, get-set, get-delete)

claim-holder :
    (env : Env) (b : Broker) (self id owner : Text)
    → claim_still_held env (claim env b self id).0 owner ≡ claim_still_held env b owner
unfolding claim claim_still_held Registry.get
claim-holder env b self id owner = refl

-- Project mail has one owner at a time: once a claim has won it for an alias, a claim under another
-- alias right after is refused, names the owner and changes nothing, if the owner's alias is not
-- empty and not offline.
pub claim-claim_other :
    (env : Env) (b : Broker) (self other id : Text)
    → (claim env b self id).1 ≡ won_by self
    → is_empty self ≡ false
    → self == other ≡ false
    → claim_still_held env b self ≡ true
    → claim env (claim env b self id).0 other id ≡ ((claim env b self id).0, taken_by self)
claim-claim_other env b self other id w n d h =
    claim-held env (claim env b self id).0 other self id (claim-won env b self id w) n d
      (claim-holder env b self id self ∙ h)

-- Telling somebody of a cancellation leaves every ask as it is.
tell_cancelled-awaiting :
    (env : Env) (b : Broker) (corr : Text) (o : Message) (to : Text)
    → (tell_cancelled env b corr o to).backend.awaiting ≡ b.backend.awaiting
unfolding append enqueue bump_seq
tell_cancelled-awaiting env b corr o to =
    let p = post b (cancelled_note env b to corr o) in
    ground (arith, notify_members-backend env p (list env p) to)

mark_consumed-awaiting : (b : Backend) (id a : Text) → (mark_consumed b id a).awaiting ≡ b.awaiting
unfolding mark_consumed bump_seq
mark_consumed-awaiting b id a = ground arith

if_awaiting :
    (x : Bool) (p q : Broker) (m : Map.Map Awaiting)
    → p.backend.awaiting ≡ m
    → q.backend.awaiting ≡ m
    → (if x then p else q).backend.awaiting ≡ m
if_awaiting true p q m h k = h
if_awaiting false p q m h k = k

cancel_each-awaiting :
    (env : Env) (b : Broker) (corr : Text) (o : Message) (ds : List Delivery)
    → (cancel_each env b corr o ds).backend.awaiting ≡ b.backend.awaiting
unfolding cancel_each
cancel_each-awaiting env b corr o [] = refl
cancel_each-awaiting env b corr o (d ∷ ds) =
    let e = consume b corr d.to_alias in
    let told = tell_cancelled env e corr o d.to_alias in
    let rest : Broker = if is_unseen d.state then e else told in
    let next : Broker = if not (is_unsettled d.state) then b else rest in
    let k = mark_consumed-awaiting b.backend corr d.to_alias in
    let t = tell_cancelled-awaiting env e corr o d.to_alias ∙ k in
    cancel_each-awaiting env next corr o ds
    ∙ if_awaiting (not (is_unsettled d.state)) b rest b.backend.awaiting refl
        (if_awaiting (is_unseen d.state) e told b.backend.awaiting k t)

cancel_ask-is_cancelled :
    (env : Env) (b : Broker) (corr : Text) (o : Message)
    → is_awaiting_open b.backend corr ≡ true
    → is_cancelled (get_awaiting (cancel_ask env b corr o).backend corr) ≡ true
unfolding cancel_ask is_awaiting_open close_awaiting
cancel_ask-is_cancelled env b corr o h =
    let c = with_backend b (close_awaiting b.backend corr (some cancelled)) in
    grind (arith, get-set, cancel_each-awaiting env c corr o (deliveries_for c.backend corr))

mark_consumed-messages : (b : Backend) (id a : Text) → (mark_consumed b id a).messages ≡ b.messages
unfolding mark_consumed bump_seq
mark_consumed-messages b id a = ground arith

consume_project-messages :
    (b : Broker) (from corr : Text) (p : Message)
    → (consume_project (consume b corr from) corr p).backend.messages ≡ b.backend.messages
consume_project-messages b from corr p = ground (
  arith,
  mark_consumed-messages b.backend corr from,
  mark_consumed-messages (mark_consumed b.backend corr from) corr p.to_alias,
)

-- A reply to an ask that is served right after the ask was cancelled while open is refused as
-- cancelled and stores no message.
pub reply_to_ask-cancel_ask :
    (env later : Env) (b : Broker) (a : ReplyArgs) (from corr : Text) (o p : Message)
    → is_awaiting_open b.backend corr ≡ true
    → let b' = cancel_ask env b corr o in
      ((reply_to_ask later b' a from corr p).1 ≡ fail ask_cancelled)
      × ((reply_to_ask later b' a from corr p).0.backend.messages ≡ b'.backend.messages)
unfolding reply_to_ask
reply_to_ask-cancel_ask env later b a from corr o p h =
    rw (cancel_ask-is_cancelled env b corr o h)
      (refl, consume_project-messages (cancel_ask env b corr o) from corr p)
