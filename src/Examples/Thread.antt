-- ===== src/Examples/Thread.antt =====
-- A host whose thread holds nothing yet: it starts a turn, sees the mail in it, and acknowledges; also
-- where the answer to the start is lost.
use claude_ipc.Base.{
  ℕ, zero, suc, Text, txt, true, false, Option, none, some, List, [], ◌∷◌, ◌≡◌, refl, arith, length,
}
use claude_ipc.Codex.{
  World, Turn, alive, pumps, switches, new_host, visit_all, attached, saw, started, acked,
  acked_project,
}
use claude_ipc.Codex.Acts.{Justified}
use claude_ipc.Codex.Evidence.{visit_all-Justified}
use claude_ipc.Examples.Desk.{first_ask}

abbrev receipt : Turn
receipt = record {
  id = some (txt "t1");
  status = some (txt "active");
  items =
      record {
        item_type = some (txt "functionCallOutput");
        namespace = some (txt "claude-ipc");
        name = some (txt "receive");
        output = txt "m1";
      }
      ∷ [];
}

-- The world is whether the turn has been started.
abbrev turns_of : ℕ → List Turn
turns_of zero = []
turns_of (suc n) = receipt ∷ []

abbrev world : World ℕ
world = record {
  heartbeat = λ s. (s, alive);
  ensure_registered = none;
  read_active = λ t s. (s, some false);
  still_owns_thread = none;
  lease = λ s. (s, some (first_ask ∷ []));
  lease_project = λ s. (s, some []);
  ack = λ ids s. (s, some (length ids));
  ack_project = λ ids s. (s, some (length ids));
  list_turns = λ t c s. (s, some (record { data_ = turns_of s; next_cursor = none }));
  start_turn = λ t ids s. (suc s, some (some (txt "t1")));
  now = λ s. (s, 0);
  sleep = λ s. s;
  parse_ids = λ t. some (some t ∷ []);
  lease_s = none;
  persistence_timeout_ms = none;
}

-- The thread.
abbrev main : Text
main = txt "main"

ack_test :
    (visit_all world (pumps 5 ∷ []) (new_host world main true 0)).acts
    ≡ acked_project main []
      ∷ acked main (txt "m1" ∷ [])
      ∷ saw main (txt "m1" ∷ [])
      ∷ started main (txt "m1" ∷ [])
      ∷ attached main true
      ∷ []
unfolding visit_all claude_ipc.Base.Map.set
ack_test = refl

-- The same App Server, but the answers to `turn/start` are lost on the way.
abbrev lossy : World ℕ
lossy = record world { start_turn = λ t ids s. (suc s, none) }

-- The next pump finds the mail in the history, and asks for no second turn.
retry_test :
    (visit_all lossy (pumps 5 ∷ pumps 5 ∷ []) (new_host lossy main true 0)).acts
    ≡ acked_project main []
      ∷ acked main (txt "m1" ∷ [])
      ∷ saw main (txt "m1" ∷ [])
      ∷ started main (txt "m1" ∷ [])
      ∷ attached main true
      ∷ []
unfolding visit_all claude_ipc.Base.Map.set
retry_test = refl

visit_all-Justified_example :
    Justified
      (visit_all lossy
        (pumps 5 ∷ pumps 5 ∷ switches (txt "other") false ∷ pumps 5 ∷ [])
        (new_host lossy main true 0)).acts
visit_all-Justified_example =
    visit_all-Justified lossy main true 0
      (pumps 5 ∷ pumps 5 ∷ switches (txt "other") false ∷ pumps 5 ∷ [])
