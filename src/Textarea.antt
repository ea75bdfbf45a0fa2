-- ===== src/Textarea.antt =====
-- src/tui/widgets/textarea-ops.ts: the editing of the dashboard's multi-line text area.
pub mod Cursor
pub mod Columns
use claude_ipc.Base.{
  ℕ, zero, suc, ◌+◌, ◌-◌, min, Text, is_empty, Bool, true, false, ◌&&◌, ◌||◌, not, Option, none,
  some, List, [], ◌∷◌, ◌++◌, take, drop, length, ltb, leb, eqb, keep, if◌then◌else◌,
}

pub record EditState : Type 0 where
  pub text : Text
  pub cursor : ℕ

abbrev pub is_newline : ℕ → Bool
is_newline c = eqb c 10

-- `raw.replace(/\r\n?/g, "\n")`: the flag says that a `\r` stands before.
abbrev pub newlines : Bool → Text → Text
newlines after [] = []
newlines after (c ∷ s) =
    let rest = newlines (eqb c 13) s in
    if eqb c 13 then 10 ∷ rest else if after && eqb c 10 then rest else c ∷ rest

-- `.replace(/\t/g, "  ")`
abbrev pub spaces : Text → Text
spaces [] = []
spaces (c ∷ s) = let rest = spaces s in if eqb c 9 then 32 ∷ 32 ∷ rest else c ∷ rest

-- `[\x00-\x09\x0b-\x1f\x7f]`
abbrev pub is_control : ℕ → Bool
is_control c = leb c 9 || (leb 11 c && leb c 31) || eqb c 127

unfoldable pub clean : Text → Text
clean raw = keep (λ c. not (is_control c)) (spaces (newlines false raw))

unfoldable pub insert : EditState → Text → EditState
unfolding clean
insert s raw =
    let t = clean raw in
    if is_empty t then s else record {
      text = (take s.cursor s.text ++ t) ++ drop s.cursor s.text;
      cursor = s.cursor + length t;
    }

unfoldable pub backspace : EditState → EditState
backspace s =
    if eqb s.cursor 0
    then s
    else record { text = take (s.cursor - 1) s.text ++ drop s.cursor s.text; cursor = s.cursor - 1 }

unfoldable pub forward_delete : EditState → EditState
forward_delete s = record {
  text = take s.cursor s.text ++ drop (s.cursor + 1) s.text;
  cursor = s.cursor;
}

-- `(before.match(/\n/g) ?? []).length`
abbrev pub count_newlines : Text → ℕ
count_newlines [] = 0
count_newlines (c ∷ s) = let rest = count_newlines s in if is_newline c then suc rest else rest

-- `before.lastIndexOf("\n") + 1`: `last` is what was found before the place `i`.
abbrev pub line_start_from : ℕ → ℕ → Text → ℕ
line_start_from i last [] = last
line_start_from i last (c ∷ s) = line_start_from (suc i) (if is_newline c then suc i else last) s

abbrev pub line_start : Text → ℕ
line_start = line_start_from 0 0

pub record Position : Type 0 where
  pub row : ℕ
  pub col : ℕ

unfoldable pub cursor_pos : EditState → Position
cursor_pos s =
    let before = take s.cursor s.text in
    record { row = count_newlines before; col = s.cursor - line_start before }

abbrev pub onto_first : ℕ → List Text → List Text
onto_first c [] = (c ∷ []) ∷ []
onto_first c (l ∷ ls) = (c ∷ l) ∷ ls

-- `text.split("\n")`
abbrev pub split_lines : Text → List Text
split_lines [] = [] ∷ []
split_lines (c ∷ s) =
    let rest = split_lines s in if is_newline c then [] ∷ rest else onto_first c rest

abbrev pub text_lines : EditState → List Text
text_lines s = split_lines s.text

-- A step of -1 or of 1.
pub data Delta : Type 0 where
  back ahead : Delta

-- `clamp(cursor + delta, 0, text.length)`
unfoldable pub move_horizontal : EditState → Delta → EditState
move_horizontal s back = record s { cursor = min (length s.text) (s.cursor - 1) }
move_horizontal s ahead = record s { cursor = min (length s.text) (s.cursor + 1) }

-- `ls.slice(0, target).reduce((n, l) => n + l.length + 1, 0)`
abbrev pub offset_of : ℕ → List Text → ℕ
offset_of n [] = n
offset_of n (l ∷ ls) = offset_of (n + length l + 1) ls

abbrev pub length_at : List Text → ℕ → ℕ
length_at [] i = 0
length_at (l ∷ ls) zero = length l
length_at (l ∷ ls) (suc i) = length_at ls i

abbrev pub move_to_row : EditState → ℕ → ℕ → EditState
move_to_row s col target =
    let ls = text_lines s in
    if leb (length ls) target
    then s
    else record s { cursor = offset_of 0 (take target ls) + min col (length_at ls target) }

unfoldable pub move_vertical : EditState → Delta → EditState
unfolding cursor_pos
move_vertical s ahead = let p = cursor_pos s in move_to_row s p.col (suc p.row)
move_vertical s back =
    let p = cursor_pos s in if eqb p.row 0 then s else move_to_row s p.col (p.row - 1)

unfoldable pub line_home : EditState → EditState
line_home s = record s { cursor = line_start (take s.cursor s.text) }

-- The distance to the first newline, if there is one.
abbrev pub index_of_newline : Text → Option ℕ
index_of_newline [] = none
index_of_newline (c ∷ s) =
    let rest = index_of_newline s in
    if is_newline c then some 0 else elim rest [ none ↦ none | some i ↦ some (suc i) ]

unfoldable pub line_end : EditState → EditState
line_end s = elim (index_of_newline (drop s.cursor s.text)) [
  | none ↦ record s { cursor = length s.text }
  | some i ↦ record s { cursor = s.cursor + i }
]

-- One stroke of a key.
pub data Stroke : Type 0 where
  types : Text → Stroke
  erases deletes goes_home goes_end : Stroke
  moves climbs : Delta → Stroke

unfoldable pub press : EditState → Stroke → EditState
press s (types raw) = insert s raw
press s erases = backspace s
press s deletes = forward_delete s
press s goes_home = line_home s
press s goes_end = line_end s
press s (moves d) = move_horizontal s d
press s (climbs d) = move_vertical s d

unfoldable pub press_all : EditState → List Stroke → EditState
unfolding press
press_all s [] = s
press_all s (k ∷ ks) = press_all (press s k) ks
