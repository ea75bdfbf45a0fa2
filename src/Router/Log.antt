-- ===== src/Router/Log.antt =====
-- What src/broker/router.ts shows of messages: `status`, `history`, `stripForCaller`, `involves` and
-- `awaitReply`.
use claude_ipc.Base.{
  Text, ◌==◌, is_empty, txt, contains, Bool, true, false, ◌&&◌, ◌||◌, not, Option, none, some, List,
  [], ◌∷◌, keep, find, length, or_default, reverse, ℕ, if◌then◌else◌,
}
use claude_ipc.Models.{Message, Delivery, RegistryEntry, response}
use claude_ipc.ProjectAddress.{is_project_address, project_path, within_project}
use claude_ipc.Storage.Messages
use claude_ipc.Storage.Messages.{get_message, HistoryQuery}
use claude_ipc.Storage.Inbox.{pending, deliveries_for}
use claude_ipc.Broker.{Broker, Env}
use claude_ipc.Registry.{truthy, text_is, list}
use claude_ipc.Router.Guards.{
  bad_args, unauthorized, not_found, Response, ok, fail, owns, alias_of_token, boxes_of,
}
use claude_ipc.Router.Send.{kind_eq}

abbrev pub hidden_body : Text
hidden_body =
    txt "[hidden — you are not a party to this message; run with --operator to see all bodies]"

-- `involves`: the caller's session is an end of the message, or works in the project it went to.
unfoldable pub involves : Message → List Text → Text → Bool
involves m mine cwd =
    contains mine m.from_alias
    || contains mine m.to_alias
    || (m.to_alias == txt "*")
    || (is_project_address m.to_alias
        && not (is_empty cwd)
        && within_project cwd (project_path m.to_alias))

abbrev pub hide : Message → Message
hide m = record m { body = hidden_body; context_ptr = none; body_hidden = true }

abbrev pub cwd_of : Option RegistryEntry → Text
cwd_of none = []
cwd_of (some e) = e.cwd

-- The caller's row on the roster, by its token.
abbrev pub self_entry : Env → Broker → Text → Option RegistryEntry
self_entry env b self = find (λ e. e.alias == self) (list env b)

-- `stripForCaller`, at one message.
unfoldable pub strip_for_caller : Env → Broker → Option Text → Bool → Message → Message
unfolding involves
strip_for_caller env b token true m = m
strip_for_caller env b token false m = elim (truthy (alias_of_token env b token)) [
  | none ↦ hide m
  | some self ↦
      let e = self_entry env b self in if involves m (boxes_of e self) (cwd_of e) then m else hide m
]

abbrev pub strip_all : Env → Broker → Option Text → Bool → List Message → List Message
strip_all env b token operator [] = []
strip_all env b token operator (m ∷ ms) =
    strip_for_caller env b token operator m ∷ strip_all env b token operator ms

unfoldable pub history : Env → Broker → HistoryQuery → Bool → Option Text → List Message
unfolding strip_for_caller
history env b q operator token = strip_all env b token operator (Messages.history b.backend q)

pub record Lifecycle : Type 0 where
  pub message : Message
  pub deliveries : List Delivery
  pub responses : List Message

abbrev pub everything : HistoryQuery
everything = record { peer = none; since = none; conversation_id = none }

unfoldable pub status : Env → Broker → Option Text → Bool → Option Text → Response Lifecycle
unfolding strip_for_caller
status env b msg_id operator token = elim (truthy msg_id) [
  | none ↦ fail bad_args
  | some id ↦ elim (get_message b.backend id) [
    | none ↦ fail not_found
    | some m ↦ ok (record {
      message = strip_for_caller env b token operator m;
      deliveries = deliveries_for b.backend id;
      responses =
          strip_all env b token operator
            (keep (λ r. text_is r.corr_id id) (Messages.history b.backend everything));
    })
  ]
]

pub data Awaited : Type 0 where
  arrived : Message → Awaited
  waiting : ℕ → Awaited

abbrev pub last_of : List Message → Option Message
last_of ms = find (λ m. true) (reverse ms)

-- `awaitReply`.
unfoldable pub await_reply :
    Env → Broker → Option Text → Option Text → Option Bool → Option Text → Response Awaited
await_reply env b alias corr_id until_terminal token = elim (truthy alias) [
  | none ↦ fail bad_args
  | some self ↦ elim (truthy corr_id) [
    | none ↦ fail bad_args
    | some corr ↦
        let matches =
          keep (λ m. kind_eq m.kind response && text_is m.corr_id corr) (pending b.backend self) in
        let found =
          if or_default until_terminal true
          then find (λ m. m.terminal) matches
          else last_of matches in
        if not (owns b token self)
        then fail unauthorized
        else elim found [ none ↦ ok (waiting (length matches)) | some m ↦ ok (arrived m) ]
  ]
]
