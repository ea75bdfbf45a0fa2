-- ===== src/Router/Send/Payload.antt =====
-- The result of a send, the comparison of a retry with what was sent, and the fan-out to its
-- targets: parts of `send` of src/broker/router.ts.
use claude_ipc.Base.{
  ℕ, ◌+◌, Text, ◌==◌, is_empty, txt, starts_with, drop, length, leb, eqb, Bool, true, false, ◌&&◌,
  ◌||◌, not, Option, none, some, List, [], ◌∷◌, keep, is_some, or_default, if◌then◌else◌,
}
use claude_ipc.Models.{
  Message, Kind, inform, query, request, response, Awaiting, ContextPtr, SendArgs, PeerStatus,
  is_ask,
}
use claude_ipc.ProjectAddress.{is_project_address}
use claude_ipc.Storage.State.{Backend}
use claude_ipc.Storage.Messages.{route_for}
use claude_ipc.Storage.Inbox.{enqueue}
use claude_ipc.Storage.Asks.{open_awaiting, get_awaiting}
use claude_ipc.Storage.Projects.{pass_project}
use claude_ipc.Broker.{Broker, Env}
use claude_ipc.Registry.{live_aliases}
use claude_ipc.Router.Guards.{session_boxes, session_id_of, in_session}

pub record PeerView : Type 0 where
  pub status : PeerStatus
  pub last_seen : ℕ

pub record SendResult : Type 0 where
  pub msg_id : Text
  pub recipients : List Text
  pub conversation_id : Option Text
  pub reply_by_s : Option ℕ
  pub release_after_s : Option ℕ
  pub recipient : Option PeerView
  pub idempotent_replay : Bool

abbrev pub is_hex : ℕ → Bool
is_hex c = (leb b'a' c && leb c b'f') || (leb b'0' c && leb c b'9')

abbrev pub all_hex : Text → Bool
all_hex [] = true
all_hex (c ∷ s) = is_hex c && all_hex s

-- `/^msg-[a-f0-9]{16}$/`
abbrev pub is_message_id : Text → Bool
is_message_id s = starts_with s (txt "msg-") && eqb (length s) 20 && all_hex (drop 4 s)

abbrev pub kind_eq : Kind → Kind → Bool
kind_eq inform inform = true
kind_eq query query = true
kind_eq request request = true
kind_eq response response = true
kind_eq _ _ = false

abbrev pub kind_is : Option Kind → Kind → Bool
kind_is none k = false
kind_is (some j) k = kind_eq j k

abbrev pub same_number : Option ℕ → Option ℕ → Bool
same_number none none = true
same_number (some m) (some n) = eqb m n
same_number _ _ = false

abbrev pub same_text : Option Text → Option Text → Bool
same_text none none = true
same_text (some s) (some t) = s == t
same_text _ _ = false

-- `JSON.stringify` of two context pointers agrees.
abbrev pub same_context : Option ContextPtr → Option ContextPtr → Bool
same_context none none = true
same_context (some c) (some d) =
    c.session_id == d.session_id && c.transcript_path == d.transcript_path && c.cwd == d.cwd
same_context _ _ = false

-- A message that somebody else of the roster gets: the live aliases of other sessions.
abbrev pub other_session : Env → Broker → Option Text → Text → Bool
other_session env b none target = true
other_session env b (some sid) target = is_empty sid || not (in_session env b target sid)

abbrev pub broadcast_targets : Env → Broker → Text → List Text
broadcast_targets env b from =
    keep (other_session env b (session_id_of env b from)) (live_aliases env b from)

abbrev pub fan_out : Backend → Text → List Text → Backend
fan_out b id [] = b
fan_out b id (t ∷ targets) = fan_out (enqueue b id t) id targets

abbrev pub pass_all : Backend → Text → List Text → Backend
pass_all b id [] = b
pass_all b id (a ∷ aliases) = pass_all (pass_project b id a) id aliases

-- The sender's own boxes step back from project mail that the sender asks for.
abbrev pub pass_own : Env → Broker → Text → Text → Text → Broker
pass_own env b id to from =
    if is_project_address to
    then record b { backend = pass_all b.backend id (session_boxes env b from) }
    else b

abbrev pub is_directed_ask : Text → Kind → Bool
is_directed_ask to kind = not (to == txt "*") && is_ask kind

-- `replyByS === undefined ? default : replyByS`
abbrev pub reply_by_or : Option (Option ℕ) → Option ℕ → Option ℕ
reply_by_or none d = d
reply_by_or (some r) d = r

abbrev pub or_else : Option ℕ → Option ℕ → Option ℕ
or_else none b = b
or_else (some a) b = some a

abbrev pub deadline : ℕ → Option ℕ → Option ℕ
deadline from none = none
deadline from (some ttl) = some (from + ttl)

abbrev pub release_after : Env → Option ℕ → Option ℕ
release_after env none = none
release_after env (some r) = some (r + env.final_grace_s)

-- The test of a retry against the message that the first send left.
abbrev pub requested_reply_by : Message → SendArgs → Option ℕ
requested_reply_by m a =
    if is_directed_ask m.to_alias m.kind then reply_by_or a.reply_by_s m.reply_by_s else none

abbrev pub same_payload : Message → SendArgs → Text → Bool
same_payload m a to =
    m.to_alias == to
    && kind_is a.kind m.kind
    && m.body == or_default a.body []
    && same_number m.ttl_s a.ttl_s
    && same_number m.reply_by_s (requested_reply_by m a)
    && (not (is_some a.conversation_id) || same_text m.conversation_id a.conversation_id)
    && same_context m.context_ptr a.context_ptr

abbrev pub replay_targets : Env → Broker → Message → List Text
replay_targets env b m = elim (route_for b.backend m.id) [
  | some targets ↦ targets
  | none ↦ if m.to_alias == txt "*" then broadcast_targets env b m.from_alias else m.to_alias ∷ []
]

-- The awaiting record that a crash may have left unopened.
abbrev pub reopen : Env → Broker → Message → SendArgs → Broker
reopen env b m a =
    if not (is_some (get_awaiting b.backend m.id)) && is_directed_ask m.to_alias m.kind
    then record b {
      backend =
          open_awaiting b.backend m.id (deadline m.ts (or_else m.ttl_s env.default_ttl_s))
            (reply_by_or a.reply_by_s env.default_reply_by_s) m.ts;
    }
    else b

abbrev pub awaited_reply_by : Option Awaiting → Option ℕ
awaited_reply_by none = none
awaited_reply_by (some a) = a.reply_by_s
