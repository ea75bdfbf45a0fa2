-- ===== src/Router/Visibility.antt =====
-- What a caller learns of mail between others: `stripForCaller` of src/broker/router.ts.
use claude_ipc.Base.{Text, Bool, false, Option, none, some, ◌≡◌, refl, arith, if◌then◌else◌}
use claude_ipc.Models.{Message, ContextPtr}
use claude_ipc.Broker.{Broker, Env}
use claude_ipc.Registry.{truthy}
use claude_ipc.Router.Guards.{alias_of_token, boxes_of}
use claude_ipc.Router.Log.{involves, hide, strip_for_caller, self_entry, cwd_of}

-- The caller's session is an end of the message, or works in the project that it went to.
abbrev pub is_party : Env → Broker → Option Text → Message → Bool
is_party env b token m = elim (truthy (alias_of_token env b token)) [
  | none ↦ false
  | some self ↦ involves m (boxes_of (self_entry env b self) self) (cwd_of (self_entry env b self))
]

-- A message with other words and another pointer, and the same routing.
abbrev pub reworded : Message → Text → Option ContextPtr → Message
reworded m body context_ptr = record m { body = body; context_ptr = context_ptr }

strip_for_caller-is_party :
    (env : Env) (b : Broker) (token : Option Text) (m : Message)
    → strip_for_caller env b token false m ≡ (if is_party env b token m then m else hide m)
unfolding strip_for_caller involves
strip_for_caller-is_party env b token m = ground arith

is_party-reworded :
    (env : Env) (b : Broker) (token : Option Text) (m : Message) (body : Text)
    (ptr : Option ContextPtr)
    → is_party env b token (reworded m body ptr) ≡ is_party env b token m
unfolding involves
is_party-reworded env b token m body ptr = refl

-- What a caller that is no operator is shown of a message which its session is no party to does not
-- depend on the message's body or transcript pointer: the same message with any others is shown
-- alike.
pub strip_for_caller-reworded :
    (env : Env) (b : Broker) (token : Option Text) (m : Message) (body : Text)
    (ptr : Option ContextPtr)
    → is_party env b token m ≡ false
    → strip_for_caller env b token false (reworded m body ptr)
      ≡ strip_for_caller env b token false m
strip_for_caller-reworded env b token m body ptr h = ground (
  arith,
  strip_for_caller-is_party env b token m,
  strip_for_caller-is_party env b token (reworded m body ptr),
  is_party-reworded env b token m body ptr,
)
