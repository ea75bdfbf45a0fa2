-- ===== src/Examples/Desk.antt =====
-- A broker with a stored ask, and what the theorems on the router say of it.
use claude_ipc.Base.{
  ◌≤◌, txt, true, false, none, some, List, [], ◌∷◌, ◌≡◌, ◌⊎◌, refl, arith, text_discrete,
}
use claude_ipc.Base.Map
use claude_ipc.Storage.Messages
use claude_ipc.Storage.Projects.{claim_project}
use claude_ipc.Registry
use claude_ipc.Models.{Awaiting, Message, NudgeStage, SendArgs, query, consumed}
use claude_ipc.Storage.State.{init, del_key, last_event_seq}
use claude_ipc.Storage.Transitions.{settled_at}
use claude_ipc.Storage.Cursor.{CursorOk}
use claude_ipc.Storage.Asks.{is_awaiting_open}
use claude_ipc.Broker.{Broker}
use claude_ipc.Router.Guards.{claim_still_held, fail, ask_cancelled, dedupe_by_id}
use claude_ipc.Router.Send
use claude_ipc.Router.Replies.{ReplyArgs, reply_to_ask}
use claude_ipc.Router.Consent.{claim, cancel_ask}
use claude_ipc.Router.Machine.{reply, check, Call, serve}
use claude_ipc.Router.Service.{serve-settled, last_event_seq-serve}
use claude_ipc.Router.Log.{strip_for_caller}
use claude_ipc.Router.Visibility.{reworded, strip_for_caller-reworded}
use claude_ipc.Sweeper.{Sweep, Clock, chase}
use claude_ipc.Sweeper.Chasing.{chase-chase}
use claude_ipc.Router.Claims.{taken_by, claim-claim_other, reply_to_ask-cancel_ask}
use claude_ipc.Router.Retries.{send-messages}
use claude_ipc.Examples.Mailboxes.{ask}
use claude_ipc.Examples.Roster.{roster, at}

abbrev pub first_ask : Message
first_ask = record ask { operation_id = some (txt "op1") }

abbrev waiting_ask : Awaiting
waiting_ask = record {
  origin_id = txt "m1";
  expires_at = none;
  closed = false;
  reply_by_s = some 100;
  nudged_stage = NudgeStage.zero;
  nudge_from = 5;
  closed_reason = none;
}

-- The ask is open, and the row of the alias `host` for it has been consumed.
abbrev pub desk : Broker
desk = record roster {
  backend = record (init 1) {
    messages = (txt "m1", first_ask) ∷ [];
    deliveries =
        (
          del_key (txt "m1") (txt "host"),
          record { msg_id = txt "m1"; to_alias = txt "host"; via = none; state = consumed; ts = 5 },
        )
        ∷ [];
    awaiting = (txt "m1", waiting_ask) ∷ [];
  };
}

abbrev answer_args : ReplyArgs
answer_args = record {
  from_alias = some (txt "host");
  corr_id = some (txt "m1");
  body = some (txt "yes");
  terminal = none;
  status = none;
  error_code = none;
}

-- An answer under the owner's token, then a reading without one.
abbrev calls : List Call
calls =
    record { env = at 200; token = some (txt "secret"); request = reply answer_args }
    ∷ record { env = at 201; token = none; request = check (some (txt "ann")) true none }
    ∷ []

serve-settled_example :
    settled_at (serve desk calls).backend (del_key (txt "m1") (txt "host")) ≡ true
unfolding Map.get
serve-settled_example = serve-settled desk calls (del_key (txt "m1") (txt "host")) refl

desk-CursorOk : CursorOk desk.backend
unfolding Map.get
desk-CursorOk a = omega arith

last_event_seq-serve_example :
    last_event_seq desk.backend (txt "ann" ∷ [])
    ≤ last_event_seq (serve desk calls).backend (txt "ann" ∷ [])
last_event_seq-serve_example = last_event_seq-serve desk calls (txt "ann" ∷ []) desk-CursorOk

claim-claim_other_example :
    claim (at 200) (claim (at 200) desk (txt "host") (txt "m1")).0 (txt "bob") (txt "m1")
    ≡ ((claim (at 200) desk (txt "host") (txt "m1")).0, taken_by (txt "host"))
unfolding claim claim_project Map.get claim_still_held Registry.get
claim-claim_other_example =
    claim-claim_other (at 200) desk (txt "host") (txt "bob") (txt "m1") refl refl refl refl

reply_to_ask-cancel_ask_example :
    ((reply_to_ask
        (at 201)
        (cancel_ask (at 200) desk (txt "m1") first_ask)
        answer_args
        (txt "host")
        (txt "m1")
        first_ask).1
      ≡ fail ask_cancelled)
    × ((reply_to_ask
          (at 201)
          (cancel_ask (at 200) desk (txt "m1") first_ask)
          answer_args
          (txt "host")
          (txt "m1")
          first_ask).0.backend.messages
        ≡ (cancel_ask (at 200) desk (txt "m1") first_ask).backend.messages)
unfolding is_awaiting_open Map.get
reply_to_ask-cancel_ask_example =
    reply_to_ask-cancel_ask (at 200) (at 201) desk answer_args (txt "host") (txt "m1") first_ask
      first_ask refl

abbrev pub again : SendArgs
again = record {
  from_alias = some (txt "ann");
  to = some (txt "bob");
  kind = some query;
  body = some (txt "ready?");
  conversation_id = none;
  ttl_s = none;
  reply_by_s = none;
  context_ptr = none;
  operation_id = some (txt "op1");
  message_id = none;
}

send-messages_example :
    (Send.send (at 200) desk again none).0.backend.messages ≡ desk.backend.messages
unfolding Messages.get_by_operation_id text_discrete
send-messages_example = send-messages (at 200) desk again none refl

strip_for_caller-reworded_example :
    strip_for_caller (at 200) desk (some (txt "secret")) false (reworded first_ask (txt "no") none)
    ≡ strip_for_caller (at 200) desk (some (txt "secret")) false first_ask
unfolding claude_ipc.Router.Guards.alias_of_token Registry.list Map.get
    claude_ipc.Router.Log.involves
strip_for_caller-reworded_example =
    strip_for_caller-reworded (at 200) desk (some (txt "secret")) first_ask (txt "no") none refl

abbrev nudged_ask : Awaiting
nudged_ask = record waiting_ask { nudged_stage = NudgeStage.one }

abbrev swept : Broker → Sweep
swept b = record { backend = b.backend; ids_drawn = 7; fired = 0 }

-- The recipient is due for a nudge, the sender not yet for a release.
abbrev morning : Clock
morning = record { now = 300; new_id = λ n. n ∷ []; final_grace_s = 600 }

chase-chase_example :
    (nudged_ask.closed ≡ true)
    ⊎ (chase morning (chase morning (swept desk) waiting_ask 100 first_ask) nudged_ask 100 first_ask
        ≡ chase morning (swept desk) waiting_ask 100 first_ask)
unfolding Map.get chase claude_ipc.Storage.Asks.mark_nudged claude_ipc.Storage.Inbox.enqueue
    Messages.append claude_ipc.Storage.State.bump_seq Map.set
chase-chase_example =
    chase-chase morning (swept desk) waiting_ask nudged_ask 100 first_ask refl refl
