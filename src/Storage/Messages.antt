-- ===== src/Storage/Messages.antt =====
-- Messages, routes and the outbound queue of `MemoryBackend`: `append` to `deleteOutbound`,
-- `saveRoute`, `routeFor`, `originOf` and `history` of src/storage/memoryBackend.ts.
use claude_ipc.Base.{
  ℕ, Text, ◌==◌, Bool, true, false, ◌&&◌, ◌||◌, Option, none, some, List, leb, keep, find, sort_on,
  if◌then◌else◌,
}
use claude_ipc.Base.Map
use claude_ipc.Base.Map.{Map, has, values}
use claude_ipc.Models.{Message, OutboundIntent, is_ask}
use claude_ipc.Storage.State.{Backend}

unfoldable pub append : Backend → Message → Backend
append b m = if has b.messages m.id then b else record b { messages = Map.set b.messages m.id m }

unfoldable pub append_routed : Backend → Message → List Text → Backend
append_routed b m targets =
    if has b.messages m.id
    then b
    else record b { messages = Map.set b.messages m.id m; routes = Map.set b.routes m.id targets }

abbrev pub get_message : Backend → Text → Option Message
get_message b id = Map.get b.messages id

-- `x === y` of a field that may be null and a string
abbrev pub holds_text : Option Text → Text → Bool
holds_text none t = false
holds_text (some s) t = s == t

unfoldable pub get_by_operation_id : Backend → Text → Option Message
get_by_operation_id b operation_id =
    find (λ m. holds_text m.operation_id operation_id) (values b.messages)

unfoldable pub queue_outbound : Backend → OutboundIntent → Backend
queue_outbound b intent =
    if has b.outbound intent.operation_id
    then b
    else record b { outbound = Map.set b.outbound intent.operation_id intent }

unfoldable pub pending_outbound : Backend → Text → List OutboundIntent
pending_outbound b from_alias =
    sort_on (λ i. i.created_at) (keep (λ i. i.from_alias == from_alias) (values b.outbound))

unfoldable pub pending_outbound_all : Backend → List OutboundIntent
pending_outbound_all b = sort_on (λ i. i.created_at) (values b.outbound)

unfoldable pub delete_outbound : Backend → Text → Backend
delete_outbound b operation_id = record b { outbound = Map.delete b.outbound operation_id }

unfoldable pub save_route : Backend → Text → List Text → Backend
save_route b msg_id targets =
    if has b.routes msg_id then b else record b { routes = Map.set b.routes msg_id targets }

abbrev pub route_for : Backend → Text → Option (List Text)
route_for b msg_id = Map.get b.routes msg_id

-- Only a query or a request opens a correlation.
unfoldable pub origin_of : Backend → Text → Option Message
origin_of b corr_id = elim (get_message b corr_id) [
  | none ↦ none
  | some m ↦ if is_ask m.kind then some m else none
]

pub record HistoryQuery : Type 0 where
  pub peer : Option Text
  pub since : Option ℕ
  pub conversation_id : Option Text

abbrev pub passes_query : HistoryQuery → Message → Bool
passes_query q m =
    elim q.peer [ none ↦ true | some p ↦ m.from_alias == p || m.to_alias == p ]
    && elim q.since [ none ↦ true | some s ↦ leb s m.ts ]
    && elim q.conversation_id [ none ↦ true | some c ↦ holds_text m.conversation_id c ]

unfoldable pub history : Backend → HistoryQuery → List Message
history b q = sort_on (λ m. m.ts) (keep (passes_query q) (values b.messages))
