-- ===== src/Router/Obligations.antt =====
-- No ask drops out of the listings of src/broker/router.ts unseen: `orphans`, `asks` and `digest`.
use claude_ipc.Base.{
  ℕ, ◌+◌, ◌-◌, ◌≤◌, Text, ◌==◌, Bool, true, false, ◌&&◌, not, Option, none, some, List, [], ◌∷◌,
  ◌≡◌, refl, ap, inl, inr, arith, map, keep, length, is_some, Option-cases,
}
use claude_ipc.Base.Map
use claude_ipc.Base.Map.{Map}
use claude_ipc.Models.{Message, Awaiting, RegistryEntry, is_ask}
use claude_ipc.Storage.State.{Backend}
use claude_ipc.Storage.Asks.{open_awaitings}
use claude_ipc.Storage.Messages.{origin_of}
use claude_ipc.Storage.Projects.{superseded_by}
use claude_ipc.Broker.{Broker, Env}
use claude_ipc.Router.Listings.{is_superseded, orphan_row, ask_rows, asks}
use claude_ipc.Router.Digest.{is_unresolved}

module _ {A : Type 0} where
  length-keep-not :
      (p : A → Bool) (xs : List A)
      → length (keep p xs) + length (keep (λ x. not (p x)) xs) ≡ length xs
  length-keep-not p [] = omega arith
  length-keep-not p (x ∷ xs) = ground (arith, length-keep-not p xs)

  length-keep-weaker :
      (p q : A → Bool) (xs : List A)
      → ((x : A) → p x ≡ true → q x ≡ true)
      → length (keep p xs) ≤ length (keep q xs)
  length-keep-weaker p q [] h = omega arith
  length-keep-weaker p q (x ∷ xs) h = ground (arith, h x, length-keep-weaker p q xs h)

-- An ask that nobody marked as superseded.
abbrev pub is_standing : Backend → Message → Bool
is_standing b m = is_ask m.kind && not (is_some (superseded_by b m.id))

is_superseded-is_standing :
    (b : Backend) (peers : List Message) (m : Message)
    → is_standing b m ≡ true
    → not (is_superseded b peers m) ≡ true
unfolding is_superseded
is_superseded-is_standing b peers m h = ground arith

-- The triage of a dead mailbox splits its mail in two, the folded and the open; and every ask in it
-- that was not explicitly marked as superseded counts as open, whatever came later in its thread.
pub orphan_row-open_mail :
    (b : Backend) (addr : Text) (e : Option RegistryEntry) (msgs : List Message)
    → let row = orphan_row b true addr e msgs in
      (folded : ℕ) × ((opened : ℕ) × ((row.folded ≡ some folded)
          × ((row.open_mail ≡ some opened)
              × ((folded + opened ≡ row.pending) × (length (keep (is_standing b) msgs) ≤ opened)))))
unfolding orphan_row
orphan_row-open_mail b addr e msgs =
    let folded = length (keep (is_superseded b msgs) msgs) in
    let n = length-keep-not (is_superseded b msgs) msgs in
    let w =
      length-keep-weaker (is_standing b) (λ m. not (is_superseded b msgs m)) msgs
        (is_superseded-is_standing b msgs) in
    (folded, (length msgs - folded, (refl, (refl, (omega (arith, n), omega (arith, n, w))))))

abbrev pub has_origin : Backend → Awaiting → Bool
has_origin b w = is_some (origin_of b w.origin_id)

ask_rows-corr_id :
    (env : Env) (b : Broker) (side : Map Text) (ws : List Awaiting)
    → map (λ r. r.corr_id) (ask_rows env b side ws)
      ≡ map (λ w. w.origin_id) (keep (has_origin b.backend) ws)
ask_rows-corr_id env b side [] = refl
ask_rows-corr_id env b side (w ∷ ws) = elim (Option-cases (origin_of b.backend w.origin_id)) [
  | inl e ↦ rw (e, ask_rows) (ask_rows-corr_id env b side ws)
  | inr (o, e) ↦ rw (e, ask_rows) (ap (λ t. w.origin_id ∷ t) (ask_rows-corr_id env b side ws))
]

-- `asks` lists each open ask whose message is kept, once, in the order of the ledger, and no other.
pub asks-open_awaitings :
    (env : Env) (b : Broker) (side : Map Text)
    → map (λ r. r.corr_id) (asks env b side).0
      ≡ map (λ w. w.origin_id) (keep (has_origin b.backend) (open_awaitings b.backend))
unfolding asks
asks-open_awaitings env b side = ask_rows-corr_id env b side (open_awaitings b.backend)

-- Some of these asks went to this alias, which nothing resolves.
abbrev pub asks_lost : Env → Broker → Map Text → Text → Awaiting → Bool
asks_lost env b side to w = elim (origin_of b.backend w.origin_id) [
  | none ↦ false
  | some o ↦ o.to_alias == to && is_unresolved env b side o.to_alias
]
