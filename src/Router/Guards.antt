-- ===== src/Router/Guards.antt =====
-- The checks and listings that the handlers of src/broker/router.ts share: token ownership, the
-- boxes of a session, project membership, and who may act on a message.
use claude_ipc.Base.{
  Text, ◌==◌, is_empty, txt, contains, Bool, true, false, ◌&&◌, ◌||◌, not, Option, none, some, List,
  [], ◌∷◌, keep, find, some_of, or_default, if◌then◌else◌,
}
use claude_ipc.Models.{Message, RegistryEntry}
use claude_ipc.ProjectAddress.{
  is_project_address, project_path, normalize_project_path, same_lineage, within_project,
}
use claude_ipc.Storage.State.{Backend}
use claude_ipc.Storage.Messages.{get_message, origin_of}
use claude_ipc.Storage.Inbox.{deliveries_for, project_addresses}
use claude_ipc.Storage.Projects.{project_standing, project_claim, Standing, passed}
use claude_ipc.Broker.{Broker, Env}
use claude_ipc.Registry
use claude_ipc.Registry.{token_of, truthy, text_is, is_offline, list}

-- The codes that clients branch on. The sentence beside a code is not modelled.
pub data Code : Type 0 where
  bad_args unauthorized alias_taken operation_conflict not_registered empty_send no_peer : Code
  self_send not_allowed message_conflict managed_consume not_found invalid_state no_message : Code
  not_yours not_an_ask no_origin ask_cancelled empty_reply : Code

pub data Response (A : Type 0) : Type 0 where
  ok : A → Response A
  fail : Code → Response A

-- The names that no session may take.
abbrev pub is_reserved : Text → Bool
is_reserved alias = alias == txt "ipc" || alias == txt "*"

abbrev pub notify : Broker → Text → Broker
notify b alias = record b { notified = alias ∷ b.notified }

abbrev pub notify_all : Broker → List Text → Broker
notify_all b [] = b
notify_all b (a ∷ aliases) = notify_all (notify b a) aliases

-- `requireOwner` lets the operation pass.
unfoldable pub owns : Broker → Option Text → Text → Bool
owns b token alias = elim (truthy (token_of b alias)) [ none ↦ true | some t ↦ text_is token t ]

-- `aliasOfToken`: the first alias on the roster whose token was presented.
unfoldable pub alias_of_token : Env → Broker → Option Text → Option Text
alias_of_token env b token = elim (truthy token) [
  | none ↦ none
  | some t ↦ elim (find (λ e. text_is (token_of b e.alias) t) (list env b)) [
    | none ↦ none
    | some e ↦ some e.alias
  ]
]

abbrev pub boxes_of : Option RegistryEntry → Text → List Text
boxes_of none anchor = anchor ∷ []
boxes_of (some e) anchor = or_default e.session_aliases (anchor ∷ [])

-- Every mailbox that the session of an alias owns.
unfoldable pub session_boxes : Env → Broker → Text → List Text
session_boxes env b anchor = boxes_of (find (λ e. e.alias == anchor) (list env b)) anchor

abbrev pub dedupe_from : List Text → List Message → List Message
dedupe_from seen [] = []
dedupe_from seen (m ∷ ms) =
    let rest = dedupe_from (if contains seen m.id then seen else m.id ∷ seen) ms in
    if contains seen m.id then rest else m ∷ rest

unfoldable pub dedupe_by_id : List Message → List Message
dedupe_by_id = dedupe_from []

-- `projectMailboxes`: both ways for a peek, one way for a claim.
unfoldable pub project_mailboxes : Broker → Text → Bool → List Text
project_mailboxes b dir peek =
    let d = normalize_project_path dir in
    keep
      (λ addr.
        if peek then same_lineage (project_path addr) d else within_project d (project_path addr))
      (project_addresses b.backend)

unfoldable pub is_project_member : Env → Broker → Option Text → Text → Bool
is_project_member env b token dir = elim (truthy token) [
  | none ↦ false
  | some t ↦
      some_of
        (λ e. text_is (token_of b e.alias) t && within_project e.cwd (normalize_project_path dir))
        (list env b)
]

abbrev pub session_id_of : Env → Broker → Text → Option Text
session_id_of env b alias = elim (Registry.get env b alias) [
  | none ↦ none
  | some e ↦ some e.session_id
]

-- `registry.get(a)?.sessionId === sid`
abbrev pub in_session : Env → Broker → Text → Text → Bool
in_session env b alias sid = text_is (session_id_of env b alias) sid

unfoldable pub claim_still_held : Env → Broker → Text → Bool
claim_still_held env b owner = elim (Registry.get env b owner) [
  | none ↦ false
  | some e ↦ not (is_offline e.status)
]

abbrev pub is_passed : Option Standing → Bool
is_passed (some passed) = true
is_passed _ = false

-- For a notice of the broker, the sender of the ask that it speaks of.
abbrev pub causal_sender : Backend → Message → Option Text
causal_sender b m =
    if m.from_alias == txt "ipc"
    then elim (truthy m.corr_id) [
      | none ↦ some m.from_alias
      | some c ↦ elim (origin_of b c) [ none ↦ none | some o ↦ some o.from_alias ]
    ]
    else some m.from_alias

abbrev pub sent_by_session : Env → Broker → Option Text → Option Text → Bool
sent_by_session env b (some sid) (some sender) =
    not (is_empty sid) && not (is_empty sender) && in_session env b sender sid
sent_by_session env b _ _ = false

-- Project mail that the caller is still on the hook for.
unfoldable pub owed_by : Env → Broker → Text → Message → Bool
unfolding claim_still_held
owed_by env b self m =
    not (sent_by_session env b (session_id_of env b self) (causal_sender b.backend m))
    && not (is_passed (project_standing b.backend m.id self))
    && elim (project_claim b.backend m.id) [
      | none ↦ true
      | some owner ↦ owner == self || not (claim_still_held env b owner)
    ]

unfoldable pub still_owed_by : Env → Broker → List Message → Option Text → List Message
unfolding owed_by
still_owed_by env b messages self = elim (truthy self) [
  | none ↦ messages
  | some s ↦ keep (owed_by env b s) messages
]

abbrev pub has_cwd_within : Option RegistryEntry → Text → Bool
has_cwd_within none dir = false
has_cwd_within (some e) dir = not (is_empty e.cwd) && within_project e.cwd dir

-- `notActable`: the code of the refusal, or `none` when the alias may act on the message.
unfoldable pub not_actable : Env → Broker → Text → Text → Option Code
not_actable env b msg_id alias = elim (get_message b.backend msg_id) [
  | none ↦ some no_message
  | some m ↦
      if some_of (λ d. d.to_alias == alias) (deliveries_for b.backend msg_id)
        || (is_project_address m.to_alias
            && has_cwd_within (Registry.get env b alias) (project_path m.to_alias))
      then none
      else some not_yours
]
