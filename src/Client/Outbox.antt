-- ===== src/Client/Outbox.antt =====
-- What was sent while the broker was down, the broker takes over when it is back: `degraded` of
-- src/client.ts and `reconcile` of src/broker/router.ts.
use claude_ipc.Base.{
  text_eq_refl, ℕ, Text, ◌==◌, txt, Bool, true, false, ◌&&◌, ◌||◌, Option, none, some, List, [],
  ◌∷◌, ◌≡◌, refl, ap, ◌∙◌, arith, find, is_some, or_default, if◌then◌else◌,
}
use claude_ipc.Base.Map
use claude_ipc.Base.Map.{Map, has, values}
use claude_ipc.Base.Map.Entries.{get-delete}
use claude_ipc.Models.{
  Message, Kind, ContextPtr, SendArgs, OutboundIntent, inform, query, request, response,
}
use claude_ipc.Storage.State.{Backend}
use claude_ipc.Storage.Messages.{
  append_routed, get_by_operation_id, queue_outbound, holds_text, delete_outbound,
}
use claude_ipc.Storage.Asks.{open_awaiting}
use claude_ipc.Broker.{Broker, Env}
use claude_ipc.Registry.{truthy, touch_by_act}
use claude_ipc.Router.Guards.{Response, ok, fail, is_reserved, owns}
use claude_ipc.Router.Send.{
  SendResult, replay, send, send_to, send_as, same_payload, same_number, same_text, same_context,
  kind_is, kind_eq, existing_message, canonical, bad_message_id, is_directed_ask, reply_by_or,
  fan_out, reply_by_or,
}
use claude_ipc.Router.Retries.{
  fan_out-messages, pass_all-messages, existing_message-touch_by_act, send-messages,
}
use claude_ipc.Router.Sessions.{sent, settle_intent, drop_intent}
use claude_ipc.Client.{
  stored_roster, session_in, own_aliases, pass_session, open_ask, awake_others, offline_message,
  intent_args, thread_of, queue_send,
}

find-set :
    {V : Type 0} (p : V → Bool) (m : Map V) (k : Text) (v : V)
    → has m k ≡ false
    → find p (values m) ≡ none
    → p v ≡ true
    → find p (values (Map.set m k v)) ≡ some v
unfolding Map.set Map.get
find-set p [] k v h f e = ground (arith, e)
find-set p ((j, w) ∷ m) k v h f e = ground (arith, find-set p m k v)

pass_session-messages :
    (b : Backend) (id to : Text) (sid : Option Text) (roster : Map claude_ipc.Models.RegistryEntry)
    → (pass_session b id to sid roster).messages ≡ b.messages
pass_session-messages b id to sid roster =
    ground (arith, pass_all-messages b id (own_aliases sid roster))

same_number_refl : (o : Option ℕ) → same_number o o ≡ true
same_number_refl none = refl
same_number_refl (some n) = ground arith

same_text_refl : (o : Option Text) → same_text o o ≡ true
same_text_refl none = refl
same_text_refl (some t) = ground arith

same_context_refl : (o : Option ContextPtr) → same_context o o ≡ true
same_context_refl none = refl
same_context_refl (some c) = ground arith

kind_eq_refl : (k : Kind) → kind_eq k k ≡ true
kind_eq_refl inform = refl
kind_eq_refl query = refl
kind_eq_refl request = refl
kind_eq_refl response = refl

kind_is_refl : (o : Option Kind) (k : Kind) → o ≡ some k → kind_is o k ≡ true
kind_is_refl none k h = ground (arith, h)
kind_is_refl (some j) k h = ground (arith, h, kind_eq_refl k)

reply_by-kept :
    (d : Bool) (r : Option (Option ℕ)) (e : Option ℕ)
    → same_number
        (if d then reply_by_or r e else none)
        (if d then reply_by_or r (if d then reply_by_or r e else none) else none)
      ≡ true
reply_by-kept false r e = refl
reply_by-kept true none e = same_number_refl e
reply_by-kept true (some r) e = same_number_refl r

and_true : (a b : Bool) → a ≡ true → b ≡ true → (a && b) ≡ true
and_true a b h k = ground (arith, h, k)

or_true : (a b : Bool) → b ≡ true → (a || b) ≡ true
or_true a b h = ground (arith, h)

-- The kept arguments match the message that the client stored.
same_payload-kept :
    (env : Env) (a : SendArgs) (operation_id from to id : Text) (kind : Kind)
    → a.kind ≡ some kind
    → same_payload
        (offline_message env a operation_id from to kind id)
        (intent_args a from to kind id)
        to
      ≡ true
same_payload-kept env a operation_id from to id kind h =
    and_true _ _
      (and_true _ _
        (and_true _ _
          (and_true _ _
            (and_true _ _ (and_true _ _ (text_eq_refl to) (kind_is_refl a.kind kind h))
              (text_eq_refl (or_default a.body [])))
            (same_number_refl a.ttl_s))
          (reply_by-kept (is_directed_ask to kind) a.reply_by_s env.default_reply_by_s))
        (or_true _ _ (same_text_refl (thread_of a to kind id))))
      (same_context_refl a.context_ptr)

if_messages :
    (x : Bool) (b c : Backend) (ms : Map Message)
    → b.messages ≡ ms
    → c.messages ≡ ms
    → (if x then b else c).messages ≡ ms
if_messages true b c ms h k = h
if_messages false b c ms h k = k

append_routed-messages :
    (b : Backend) (m : Message) (targets : List Text)
    → has b.messages m.id ≡ false
    → (append_routed b m targets).messages ≡ Map.set b.messages m.id m
unfolding append_routed
append_routed-messages b m targets h = rw h refl

queue_outbound-messages :
    (b : Backend) (i : OutboundIntent) → (queue_outbound b i).messages ≡ b.messages
unfolding queue_outbound
queue_outbound-messages b i = ground arith

open_ask-messages :
    (env : Env) (b : Backend) (id : Text) (ttl : Option ℕ) (r : Option (Option ℕ)) (from : ℕ)
    → (open_ask env b id ttl r from).messages ≡ b.messages
unfolding open_awaiting
open_ask-messages env b id ttl r from = refl

-- A queued send stores one message, and no other.
queue_send-messages :
    (env : Env) (b : Backend) (a : SendArgs) (operation_id from to : Text) (kind : Kind) (id : Text)
    → has b.messages id ≡ false
    → (queue_send env b a operation_id from to kind id).0.messages
      ≡ Map.set b.messages id (offline_message env a operation_id from to kind id)
unfolding queue_send
queue_send-messages env b a operation_id from to kind id h =
    let roster = stored_roster b in
    let sid = session_in roster from in
    let m = offline_message env a operation_id from to kind id in
    let intent : OutboundIntent = record {
      operation_id = operation_id;
      from_alias = from;
      args = intent_args a from to kind id;
      created_at = env.now;
    } in
    let targets = if to == txt "*" then awake_others sid roster else to ∷ [] in
    let queued = queue_outbound b intent in
    let appended = append_routed queued m targets in
    let e =
      pass_session-messages (fan_out appended id targets) id to sid roster
      ∙ fan_out-messages appended id targets
      ∙ append_routed-messages queued m targets
          (ap (λ ms. has ms id) (queue_outbound-messages b intent) ∙ h)
      ∙ ap (λ ms. Map.set ms id m) (queue_outbound-messages b intent) in
    let passed = pass_session (fan_out appended id targets) id to sid roster in
    if_messages (is_directed_ask to kind) _ _ _
      (open_ask-messages env passed id a.ttl_s a.reply_by_s env.now ∙ e) e

-- The message that the client stored is the one under its operation id.
queued-found :
    (env : Env) (b : Backend) (a : SendArgs) (operation_id from to : Text) (kind : Kind) (id : Text)
    → get_by_operation_id b operation_id ≡ none
    → has b.messages id ≡ false
    → get_by_operation_id (queue_send env b a operation_id from to kind id).0 operation_id
      ≡ some (offline_message env a operation_id from to kind id)
unfolding get_by_operation_id
queued-found env b a operation_id from to kind id f h =
    let p : Message → Bool = λ m. holds_text m.operation_id operation_id in
    ap (λ ms. find p (values ms)) (queue_send-messages env b a operation_id from to kind id h)
    ∙ find-set p b.messages id (offline_message env a operation_id from to kind id) h f
        (text_eq_refl operation_id)

-- What the router makes of the kept arguments.
replay-ok :
    (env : Env) (b : Broker) (a : SendArgs) (from to : Text) (m : Message)
    → m.from_alias ≡ from
    → same_payload m a to ≡ true
    → (r : SendResult) × (((replay env b a from to m).1 ≡ ok r)
        × ((r.msg_id ≡ m.id) × (r.idempotent_replay ≡ true)))
unfolding replay
replay-ok env b a from to m h k =
    let e : (m.from_alias == from) ≡ true = rw h (text_eq_refl from) in
    rw (e, replay) (rw k (_, (refl, (refl, refl))))

-- The guards that stand before the test for a retry let an owner's kept intent pass.
pub record Passes (b : Broker) (a : SendArgs) (token : Option Text) (from to : Text) : Type 0 where
  pub sender : truthy a.from_alias ≡ some from
  pub address : truthy a.to ≡ some to
  pub format : bad_message_id a ≡ false
  pub unreserved : is_reserved from ≡ false
  pub owned : owns b token from ≡ true
  pub stays : canonical to ≡ to

send-replay :
    (env : Env) (b : Broker) (a : SendArgs) (token : Option Text) (from to : Text) (m : Message)
    → Passes b a token from to
    → existing_message b a ≡ some m
    → send env b a token ≡ replay env (touch_by_act env b from) a from to m
unfolding send send_to send_as
send-replay env b a token from to m g h =
    let e = existing_message-touch_by_act env b a from ∙ h in
    rw (g.sender, g.address, send)
      (rw (g.format) (rw (g.unreserved) (rw (g.owned) (rw (g.stays) (rw (e, send_as) refl)))))

settle-ok :
    (operation_id : Text) (s : Broker × Response SendResult) (r : SendResult)
    → s.1 ≡ ok r
    → settle_intent operation_id s ≡ (drop_intent true s.0 operation_id, sent operation_id r)
settle-ok operation_id (b, ok q) r h = let e : q ≡ r = ground (arith, h) in rw e refl
settle-ok operation_id (b, fail c) r h = ground (arith, h)

outbound-delete_outbound :
    (b : Backend) (operation_id : Text)
    → Map.get (delete_outbound b operation_id).outbound operation_id ≡ none
unfolding delete_outbound
outbound-delete_outbound b operation_id =
    get-delete b.outbound operation_id operation_id ∙ rw (text_eq_refl operation_id) refl

delete_outbound-messages :
    (b : Backend) (operation_id : Text) → (delete_outbound b operation_id).messages ≡ b.messages
unfolding delete_outbound
delete_outbound-messages b operation_id = refl

-- A send that was queued while the broker was down, under an operation id and a message id of its
-- own, the message id one whose format the broker takes, by a sender that is no reserved name, to an
-- address in its canonical form: when a broker takes over the database and replays the intent for its
-- owner, it answers with the id of the queued message, stores no message, and the intent is gone.
pub settle_intent-queue_send :
    (env later : Env) (b : Backend) (c : Broker) (a : SendArgs) (operation_id from to : Text)
    (kind : Kind) (id : Text) (token : Option Text)
    → a.kind ≡ some kind
    → truthy a.operation_id ≡ some operation_id
    → get_by_operation_id b operation_id ≡ none
    → has b.messages id ≡ false
    → c.backend ≡ (queue_send env b a operation_id from to kind id).0
    → Passes c (intent_args a from to kind id) token from to
    → let (after, outcome) =
        settle_intent operation_id (send later c (intent_args a from to kind id) token) in
      ((r : SendResult) × ((outcome ≡ sent operation_id r) × (r.msg_id ≡ id)))
      × ((after.backend.messages ≡ c.backend.messages)
          × (Map.get after.backend.outbound operation_id ≡ none))
settle_intent-queue_send env later b c a operation_id from to kind id token k o f h e g =
    let kept = intent_args a from to kind id in
    let m = offline_message env a operation_id from to kind id in
    let found : existing_message c kept ≡ some m =
      rw (o, existing_message)
        (ap (λ s. get_by_operation_id s operation_id) e
          ∙ queued-found env b a operation_id from to kind id f h) in
    let again = send-replay later c kept token from to m g found in
    let (r, (p, (q, _))) =
      replay-ok later (touch_by_act later c from) kept from to m refl
        (same_payload-kept env a operation_id from to id kind k) in
    let done = settle-ok operation_id (send later c kept token) r (ap (λ s. s.1) again ∙ p) in
    (
      (r, (ap (λ s. s.1) done, q)),
      (
        ap (λ s. s.0.backend.messages) done
            ∙ delete_outbound-messages (send later c kept token).0.backend operation_id
            ∙ send-messages later c kept token (ap is_some found),
        ap (λ s. Map.get s.0.backend.outbound operation_id) done
            ∙ outbound-delete_outbound (send later c kept token).0.backend operation_id,
      ),
    )
