-- ===== src/Router/Machine.antt =====
-- The requests of `Router.handle` (src/broker/router.ts) that can change the storage, as one data
-- type, and the state that each leaves.
use claude_ipc.Base.{ℕ, Text, Bool, Option, List, [], ◌∷◌}
use claude_ipc.Models.{SendArgs, DeliveredVia}
use claude_ipc.Broker.{Broker, Env}
use claude_ipc.Router.Send
use claude_ipc.Router.Replies.{ReplyArgs}
use claude_ipc.Router.Replies
use claude_ipc.Router.Consent
use claude_ipc.Router.Inbox
use claude_ipc.Router.Sessions
use claude_ipc.Router.Sessions.{RegisterArgs}

-- The fields are those that the handler reads, in the order of the handler's arguments.
pub data Request : Type 0 where
  register : RegisterArgs → Request
  heartbeat : Option Text → Request
  leave : Option Text → Request
  send : SendArgs → Request
  reconcile : Option Text → Request
  check : Option Text → Bool → Option Text → Request
  deliver : Option Text → Option DeliveredVia → Option Text → Request
  lease : Option Text → Option Text → Option DeliveredVia → Option Text → Option ℕ → Request
  ack_delivery : Option Text → Option Text → Option Text → Option (List Text) → Request
  reply : ReplyArgs → Request
  snooze : Option Text → Option Text → Request
  accept : Option Text → Option Text → Request
  decline : Option Text → Option Text → Option Text → Request
  cancel : Option Text → Request
  supersede : Option Text → Option Text → Request
  prune : Option ℕ → Request

-- The state that a request leaves; the second argument from the end is the caller's token.
unfoldable pub handle : Env → Broker → Option Text → Request → Broker
handle env b token (register a) = (Sessions.register env b a token).0
handle env b token (heartbeat alias) = (Sessions.heartbeat_as env b alias token).0
handle env b token (leave alias) = (Sessions.leave_as b alias token).0
handle env b token (send a) = (Send.send env b a token).0
handle env b token (reconcile alias) = (Sessions.reconcile env b alias token).0
handle env b token (check alias consume project) = (Inbox.check env b alias consume project token).0
handle env b token (deliver alias via project) = (Inbox.deliver env b alias via project token).0
handle env b token (lease alias project via lease_id lease_s) =
    (Inbox.lease env b alias project via lease_id lease_s token).0
handle env b token (ack_delivery alias project lease_id msg_ids) =
    (Inbox.acknowledge env b alias project lease_id msg_ids token).0
handle env b token (reply a) = (Replies.reply env b a token).0
handle env b token (snooze alias msg_id) = (Consent.snooze env b alias msg_id token).0
handle env b token (accept alias msg_id) = (Consent.accept env b alias msg_id token).0
handle env b token (decline from msg_id reason) = (Consent.decline env b from msg_id reason token).0
handle env b token (cancel corr_id) = (Consent.cancel env b corr_id token).0
handle env b token (supersede old by_id) = (Sessions.supersede env b old by_id token).0
handle env b token (prune offline_for_s) = (Sessions.prune env b offline_for_s).0

-- One request after another, each with its own clock and its caller's token.
pub record Call : Type 0 where
  pub env : Env
  pub token : Option Text
  pub request : Request

unfoldable pub serve : Broker → List Call → Broker
unfolding handle
serve b [] = b
serve b (c ∷ calls) = serve (handle c.env b c.token c.request) calls
