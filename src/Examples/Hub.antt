-- ===== src/Examples/Hub.antt =====
-- The listings over a broker with an open ask to an alias that nothing knows.
use claude_ipc.Base.{
  ℕ, ◌+◌, ◌≤◌, txt, true, false, Option, none, some, [], ◌∷◌, ◌≡◌, map, keep, length, arith,
}
use claude_ipc.Base.Map
use claude_ipc.Base.Map.{Map}
use claude_ipc.Router.Listings.{orphan_row}
use claude_ipc.Router.Digest.{Entry, unresolved, unresolved_key}
use claude_ipc.Router.Obligations.{is_standing, orphan_row-open_mail}
use claude_ipc.Examples.Desk.{desk, first_ask}

orphan_row-open_mail_example :
    (folded : ℕ) × ((opened : ℕ) × (((orphan_row desk.backend true
            (txt "bob")
            none
            (first_ask ∷ [])).folded
          ≡ some folded)
        × (((orphan_row desk.backend true (txt "bob") none (first_ask ∷ [])).open_mail
              ≡ some opened)
            × ((folded + opened
                  ≡ (orphan_row desk.backend true (txt "bob") none (first_ask ∷ [])).pending)
                × (length (keep (is_standing desk.backend) (first_ask ∷ [])) ≤ opened)))))
orphan_row-open_mail_example = orphan_row-open_mail desk.backend (txt "bob") none (first_ask ∷ [])

abbrev hub : Map Entry
hub = (unresolved_key, unresolved (txt "bob" ∷ [])) ∷ []
