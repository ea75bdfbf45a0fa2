-- ===== src/Dashboard.antt =====
-- The view model of the dashboard: the functions of src/tui/model.ts that make peers' text safe to
-- show, pick the messages of a session, and draw the traffic (Dashboard.Traffic).
pub mod OneLine
pub mod Traffic
use claude_ipc.Base.{
  ℕ, suc, ◌-◌, max, Text, ◌==◌, txt, contains, is_empty, Bool, true, false, ◌&&◌, ◌||◌, not, Option,
  none, some, List, [], ◌∷◌, ◌++◌, keep, take, length, ltb, leb, eqb, if◌then◌else◌,
}
use claude_ipc.Models.{
  Message, Kind, request, is_ask, DeliveryState, queued, delivered, surfaced, persisted, consumed,
  accepted, declined, Delivery,
}
use claude_ipc.Textarea.{spaces, is_control}
use claude_ipc.Router.Guards.{dedupe_by_id}

abbrev pub escape : ℕ
escape = 27

-- `.replace(/\x1b\][^\x07\x1b]*(?:\x07|\x1b\\)?/g, "")`: the flag says that the sequence goes on.
unfoldable pub drop_osc : Bool → Text → Text
drop_osc inside [] = []
drop_osc false (c ∷ []) = c ∷ []
drop_osc true (c ∷ []) = if eqb c escape then c ∷ [] else []
drop_osc false (c ∷ d ∷ s) =
    let skip = drop_osc true s in
    let rest = drop_osc false (d ∷ s) in if eqb c escape && eqb d b']' then skip else c ∷ rest
drop_osc true (c ∷ d ∷ s) =
    let skip = drop_osc true s in
    let rest = drop_osc false (d ∷ s) in
    let more = drop_osc true (d ∷ s) in
    let ended = drop_osc false s in
    if eqb c 7
    then rest
    else if not (eqb c escape)
    then more
    else if eqb d 0x5c
    then ended
    else if eqb d b']'
    then skip
    else c ∷ rest

-- The part of a CSI sequence that may go on.
pub data Part : Type 0 where
  outside params inters : Part

abbrev pub is_param : ℕ → Bool
is_param c = (leb b'0' c && leb c b'9') || eqb c b';' || eqb c b':' || eqb c b'?'

abbrev pub is_inter : ℕ → Bool
is_inter c = leb 32 c && leb c 47

abbrev pub is_final : ℕ → Bool
is_final c = leb 64 c && leb c 126

-- The part after this character, if the sequence takes it.
abbrev pub next_part : Part → ℕ → Option Part
next_part outside c = none
next_part params c =
    if is_param c
    then some params
    else if is_inter c
    then some inters
    else if is_final c
    then some outside
    else none
next_part inters c = if is_inter c then some inters else if is_final c then some outside else none

-- `.replace(/\x1b\[[0-9;:?]*[ -/]*[@-~]?/g, "")`
unfoldable pub drop_csi : Part → Text → Text
drop_csi part [] = []
drop_csi part (c ∷ []) = elim (next_part part c) [ none ↦ c ∷ [] | some p ↦ [] ]
drop_csi part (c ∷ d ∷ s) = elim (next_part part c) [
  | some p ↦ drop_csi p (d ∷ s)
  | none ↦
      let skip = drop_csi params s in
      let rest = drop_csi outside (d ∷ s) in if eqb c escape && eqb d b'[' then skip else c ∷ rest
]

-- What `.` does not match.
abbrev pub ends_line : ℕ → Bool
ends_line c = eqb c 10 || eqb c 13 || eqb c 0x2028 || eqb c 0x2029

-- `.replace(/\x1b./g, "")`
unfoldable pub drop_escape : Text → Text
drop_escape [] = []
drop_escape (c ∷ []) = c ∷ []
drop_escape (c ∷ d ∷ s) =
    let skip = drop_escape s in
    let rest = drop_escape (d ∷ s) in if eqb c escape && not (ends_line d) then skip else c ∷ rest

-- `.replace(/\r?\n/g, "␤")`
unfoldable pub mark_newlines : Text → Text
mark_newlines [] = []
mark_newlines (c ∷ []) = (if eqb c 10 then 0x2424 else c) ∷ []
mark_newlines (c ∷ d ∷ s) =
    let skip = mark_newlines s in
    let rest = mark_newlines (d ∷ s) in
    if eqb c 13 && eqb d 10 then 0x2424 ∷ skip else (if eqb c 10 then 0x2424 else c) ∷ rest

-- `[\x00-\x1f\x7f]`
abbrev pub is_low : ℕ → Bool
is_low c = leb c 31 || eqb c 127

unfoldable pub sanitize_inline : Text → Text
unfolding drop_osc drop_csi drop_escape mark_newlines
sanitize_inline s =
    keep (λ c. not (is_low c))
      (spaces (mark_newlines (drop_escape (drop_csi outside (drop_osc false s)))))

unfoldable pub sanitize_block : Text → Text
unfolding drop_osc drop_csi drop_escape
sanitize_block s =
    keep (λ c. not (is_control c)) (spaces (drop_escape (drop_csi outside (drop_osc false s))))

unfoldable pub inline_head : Text → ℕ → Text
unfolding sanitize_inline
inline_head s n =
    let clean = sanitize_inline s in
    if leb (length clean) n then clean else take (n - 1) clean ++ txt "…"

pub record Stats : Type 0 where
  pub unread : ℕ
  pub owed : ℕ

abbrev pub pending_stats : List Message → Stats
pending_stats ms = record { unread = length ms; owed = length (keep (λ m. is_ask m.kind) ms) }

abbrev pub dedupe_messages : List Message → List Message
dedupe_messages = dedupe_by_id

-- The latest of two, the first one if they are as old.
abbrev pub latest : Option Message → Message → Message
latest none m = m
latest (some l) m = if ltb l.ts m.ts then m else l

-- `for (const m of history) { if (…) continue; if (!latest || m.ts > latest.ts) latest = m; }`
unfoldable pub latest_that : (Message → Bool) → Option Message → List Message → Option Message
latest_that p out [] = out
latest_that p out (m ∷ ms) = latest_that p (if p m then some (latest out m) else out) ms

abbrev pub last_message_for : List Message → List Text → Option Message
last_message_for history names =
    latest_that (λ m. contains names m.from_alias || contains names m.to_alias) none history

abbrev pub last_open_ask_from : List Message → List Text → Option Message
last_open_ask_from inbox names =
    latest_that (λ m. is_ask m.kind && contains names m.from_alias) none inbox

pub record Actions : Type 0 where
  pub reply : Bool
  pub accept : Bool
  pub decline : Bool
  pub snooze : Bool

abbrev pub is_request : Kind → Bool
is_request request = true
is_request _ = false

abbrev pub actions_for : Message → Actions
actions_for m = record {
  reply = is_ask m.kind;
  accept = is_request m.kind;
  decline = is_request m.kind;
  snooze = is_ask m.kind;
}

abbrev pub state_label : DeliveryState → Text
state_label queued = txt "queued — not yet claimed by their session · waits for their next wake"
state_label delivered = txt "delivered — claimed by their wake, not yet shown"
state_label surfaced = txt "surfaced — placed in their context (NOT confirmed read)"
state_label consumed = txt "settled — read, accepted, declined, or cancelled"
state_label persisted = txt "persisted in recipient thread — reading not confirmed"
state_label accepted = txt "accepted"
state_label declined = txt "declined"

abbrev pub delivery_lines : List Delivery → List Text
delivery_lines [] = []
delivery_lines (d ∷ ds) =
    (sanitize_inline d.to_alias ++ (txt ": " ++ state_label d.state)) ∷ delivery_lines ds
