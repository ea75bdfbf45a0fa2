-- ===== src/Examples/Outage.antt =====
-- A send that was queued during an outage, and the broker that comes back.
use claude_ipc.Base.{Text, txt, Option, none, some, [], ◌∷◌, ◌≡◌, refl, arith}
use claude_ipc.Base.Map
use claude_ipc.Models.{SendArgs, query}
use claude_ipc.Storage.State.{init}
use claude_ipc.Broker.{Broker}
use claude_ipc.Router.Send.{SendResult, send}
use claude_ipc.Router.Sessions.{sent, settle_intent}
use claude_ipc.Client.{intent_args, queue_send}
use claude_ipc.Client.Outbox.{Passes, settle_intent-queue_send}
use claude_ipc.Examples.Roster.{roster, at}
use claude_ipc.Examples.Desk.{again}

abbrev message_id : Text
message_id = txt "msg-00000000000000ab"

abbrev kept : SendArgs
kept = intent_args again (txt "ann") (txt "bob") query message_id

-- The broker has the roster, and the storage as the client left it.
abbrev back : Broker
back = record roster {
  backend =
      (queue_send (at 200) (init 1) again (txt "op1") (txt "ann") (txt "bob") query message_id).0;
}

passes : Passes back kept none (txt "ann") (txt "bob")
unfolding claude_ipc.Base.text_discrete claude_ipc.Router.Guards.owns Map.get
passes = record {
  sender = refl;
  address = refl;
  format = refl;
  unreserved = refl;
  owned = refl;
  stays = refl;
}

settle_intent-queue_send_example :
    ((r : SendResult) × (((settle_intent (txt "op1") (send (at 300) back kept none)).1
          ≡ sent (txt "op1") r)
        × (r.msg_id ≡ message_id)))
    × (((settle_intent (txt "op1") (send (at 300) back kept none)).0.backend.messages
          ≡ back.backend.messages)
        × (Map.get
              (settle_intent (txt "op1") (send (at 300) back kept none)).0.backend.outbound
              (txt "op1")
            ≡ none))
unfolding claude_ipc.Storage.Messages.get_by_operation_id Map.get
settle_intent-queue_send_example =
    settle_intent-queue_send (at 200) (at 300) (init 1) back again (txt "op1") (txt "ann")
      (txt "bob") query message_id none refl refl refl refl refl passes
