-- ===== src/Textarea/Cursor.antt =====
-- Where the cursor of src/tui/widgets/textarea-ops.ts can be.
use claude_ipc.Base.{
  ℕ, zero, suc, ◌+◌, ◌-◌, ◌≤◌, ◌<◌, Text, is_empty, true, false, some, List, [], ◌∷◌, ◌++◌, ◌≡◌,
  refl, ap, ◌∙◌, inl, inr, arith, take, drop, length, length-append, length-take, length-drop, leb,
  eqb, if◌then◌else◌, Bool-cases, Option-cases,
}
use claude_ipc.Textarea.{
  EditState, is_newline, clean, insert, backspace, forward_delete, line_start_from, cursor_pos,
  onto_first, split_lines, text_lines, Delta, back, ahead, move_horizontal, offset_of, length_at,
  move_to_row, move_vertical, line_home, index_of_newline, line_end, Stroke, types, erases, deletes,
  goes_home, goes_end, moves, climbs, press, press_all,
}

-- The cursor is an index into the text, or just behind it.
abbrev pub InText : EditState → Type 0
InText s = s.cursor ≤ length s.text

insert-InText : (s : EditState) (raw : Text) → InText s → InText (insert s raw)
unfolding insert
insert-InText s raw h = elim (Bool-cases (is_empty (clean raw))) [
  | inl e ↦ rw e h
  | inr e ↦ rw e (
      omega (
        arith,
        h,
        length-append (take s.cursor s.text ++ clean raw) (drop s.cursor s.text),
        length-append (take s.cursor s.text) (clean raw),
        length-take s.cursor s.text,
        length-drop s.cursor s.text,
      ))
]

backspace-InText : (s : EditState) → InText s → InText (backspace s)
unfolding backspace
backspace-InText s h = ground (
  arith,
  length-append (take (s.cursor - 1) s.text) (drop s.cursor s.text),
  length-take (s.cursor - 1) s.text,
  length-drop s.cursor s.text,
)

forward_delete-InText : (s : EditState) → InText s → InText (forward_delete s)
unfolding forward_delete
forward_delete-InText s h = omega (
  arith,
  h,
  length-append (take s.cursor s.text) (drop (s.cursor + 1) s.text),
  length-take s.cursor s.text,
  length-drop (s.cursor + 1) s.text,
)

line_start_from-le : (i last : ℕ) (t : Text) → last ≤ i → line_start_from i last t ≤ i + length t
line_start_from-le i last [] h = omega (arith, h)
line_start_from-le i last (c ∷ t) h =
    ground (arith, line_start_from-le (suc i) (if is_newline c then suc i else last) t)

line_home-InText : (s : EditState) → InText s → InText (line_home s)
unfolding line_home
line_home-InText s h = omega (
  arith,
  h,
  line_start_from-le 0 0 (take s.cursor s.text) (omega arith),
  length-take s.cursor s.text,
)

index_of_newline-le : (t : Text) (i : ℕ) → index_of_newline t ≡ some i → i ≤ length t
index_of_newline-le [] i h = cc
index_of_newline-le (c ∷ t) i h = grind (arith, index_of_newline-le t)

line_end-InText : (s : EditState) → InText s → InText (line_end s)
unfolding line_end
line_end-InText s h = elim (Option-cases (index_of_newline (drop s.cursor s.text))) [
  | inl e ↦ rw (e, line_end) (omega arith)
  | inr (i, e) ↦
      rw (e, line_end)
        (omega
          (arith, h, index_of_newline-le (drop s.cursor s.text) i e, length-drop s.cursor s.text))
]

move_horizontal-InText : (s : EditState) (d : Delta) → InText (move_horizontal s d)
unfolding move_horizontal
move_horizontal-InText s back = omega arith
move_horizontal-InText s ahead = omega arith

offset_of-cons :
    (n : ℕ) (l : Text) (ls : List Text) → offset_of n (l ∷ ls) ≡ offset_of (n + length l + 1) ls
offset_of-cons n l ls = refl

offset_of-add : (n : ℕ) (ls : List Text) → offset_of n ls ≡ n + offset_of 0 ls
offset_of-add n [] = omega arith
offset_of-add n (l ∷ ls) = omega (
  arith,
  offset_of-cons n l ls,
  offset_of-cons 0 l ls,
  offset_of-add (n + length l + 1) ls,
  offset_of-add (0 + length l + 1) ls,
)

-- Where the line of a text starts, and how long it is.
abbrev pub line_offset : Text → ℕ → ℕ
line_offset t r = offset_of 0 (take r (split_lines t))

abbrev pub line_length : Text → ℕ → ℕ
line_length t r = length_at (split_lines t) r

pub split_lines-some : (t : Text) → 0 < length (split_lines t)
split_lines-some [] = omega arith
split_lines-some (c ∷ t) = ground (arith, split_lines-some t, length-onto_first c (split_lines t))
  where
    length-onto_first : (c : ℕ) (ls : List Text) → 0 < length (onto_first c ls)
    length-onto_first c [] = omega arith
    length-onto_first c (l ∷ ls) = omega arith

module _ (c : ℕ) (ls : List Text) (h : 0 < length ls) where
  length-onto_first : length (onto_first c ls) ≡ length ls
  length-onto_first = go ls h
    where
      go : (ls : List Text) → 0 < length ls → length (onto_first c ls) ≡ length ls
      go [] h = ground arith
      go (l ∷ ls) h = refl

  length_at-onto_first :
      (r : ℕ) → length_at (onto_first c ls) r ≡ length_at ls r + (if eqb r 0 then 1 else 0)
  length_at-onto_first r = go ls h r
    where
      go :
          (ls : List Text)
          → 0 < length ls
          → (r : ℕ) → length_at (onto_first c ls) r ≡ length_at ls r + (if eqb r 0 then 1 else 0)
      go [] h r = ground arith
      go (l ∷ ls) h zero = omega arith
      go (l ∷ ls) h (suc r) = ground arith

  offset_of-onto_first :
      (r : ℕ) → offset_of 0 (take (suc r) (onto_first c ls)) ≡ suc (offset_of 0 (take (suc r) ls))
  offset_of-onto_first r = go ls h r
    where
      go :
          (ls : List Text)
          → 0 < length ls
          → (r : ℕ)
          → offset_of 0 (take (suc r) (onto_first c ls)) ≡ suc (offset_of 0 (take (suc r) ls))
      go [] h r = ground arith
      go (l ∷ ls) h r = omega (
        arith,
        offset_of-cons 0 (c ∷ l) (take r ls),
        offset_of-cons 0 l (take r ls),
        offset_of-add (0 + suc (length l) + 1) (take r ls),
        offset_of-add (0 + length l + 1) (take r ls),
      )

-- What a character before a text makes of its lines.
module _ (c : ℕ) (t : Text) where
  pub newline-lines : is_newline c ≡ true → split_lines (c ∷ t) ≡ [] ∷ split_lines t
  newline-lines e = rw e refl

  pub other-lines : is_newline c ≡ false → split_lines (c ∷ t) ≡ onto_first c (split_lines t)
  other-lines e = rw e refl

  pub newline-offset :
      (r : ℕ) → is_newline c ≡ true → line_offset (c ∷ t) (suc r) ≡ suc (line_offset t r)
  newline-offset r e = omega (
    arith,
    ap (λ ls. offset_of 0 (take (suc r) ls)) (newline-lines e),
    offset_of-cons 0 [] (take r (split_lines t)),
    offset_of-add (0 + 0 + 1) (take r (split_lines t)),
  )

  pub other-offset :
      (r : ℕ) → is_newline c ≡ false → line_offset (c ∷ t) (suc r) ≡ suc (line_offset t (suc r))
  other-offset r e =
      ap (λ ls. offset_of 0 (take (suc r) ls)) (other-lines e)
      ∙ offset_of-onto_first c (split_lines t) (split_lines-some t) r

  pub newline-length : (r : ℕ) → is_newline c ≡ true → line_length (c ∷ t) (suc r) ≡ line_length t r
  newline-length r e = ap (λ ls. length_at ls (suc r)) (newline-lines e)

  pub other-length :
      (r : ℕ)
      → is_newline c ≡ false
      → line_length (c ∷ t) r ≡ line_length t r + (if eqb r 0 then 1 else 0)
  other-length r e =
      ap (λ ls. length_at ls r) (other-lines e)
      ∙ length_at-onto_first c (split_lines t) (split_lines-some t) r

  pub newline-count :
      is_newline c ≡ true → length (split_lines (c ∷ t)) ≡ suc (length (split_lines t))
  newline-count e = ap length (newline-lines e)

  pub other-count : is_newline c ≡ false → length (split_lines (c ∷ t)) ≡ length (split_lines t)
  other-count e =
      ap length (other-lines e) ∙ length-onto_first c (split_lines t) (split_lines-some t)

-- A line ends in the text.
pub line_offset-le :
    (t : Text) (r : ℕ) → r < length (split_lines t) → line_offset t r + line_length t r ≤ length t
line_offset-le [] zero h = omega arith
line_offset-le [] (suc r) h = ground arith
line_offset-le (c ∷ t) zero h = elim (Bool-cases (is_newline c)) [
  | inl e ↦ omega (arith, ap (λ ls. length_at ls 0) (newline-lines c t e))
  | inr e ↦ ground (arith, other-length c t 0 e, line_offset-le t 0 (split_lines-some t))
]
line_offset-le (c ∷ t) (suc r) h = elim (Bool-cases (is_newline c)) [
  | inl e ↦ omega (
    arith,
    newline-offset c t r e,
    newline-length c t r e,
    line_offset-le t r (omega (arith, newline-count c t e, h)),
  )
  | inr e ↦ ground (
    arith,
    other-offset c t r e,
    other-length c t (suc r) e,
    line_offset-le t (suc r) (omega (arith, other-count c t e, h)),
  )
]

move_to_row-InText : (s : EditState) (col row : ℕ) → InText s → InText (move_to_row s col row)
move_to_row-InText s col row h = elim (Bool-cases (leb (length (text_lines s)) row)) [
  | inl e ↦ rw e h
  | inr e ↦ rw e (omega (arith, line_offset-le s.text row (ground (arith, e))))
]

move_vertical-InText : (s : EditState) (d : Delta) → InText s → InText (move_vertical s d)
unfolding move_vertical
move_vertical-InText s ahead h = let p = cursor_pos s in move_to_row-InText s p.col (suc p.row) h
move_vertical-InText s back h = elim (Bool-cases (eqb (cursor_pos s).row 0)) [
  | inl e ↦ rw (e, move_vertical) h
  | inr e ↦ rw (e, move_vertical) (let p = cursor_pos s in move_to_row-InText s p.col (p.row - 1) h)
]

press-InText : (s : EditState) (k : Stroke) → InText s → InText (press s k)
unfolding press
press-InText s (types raw) h = insert-InText s raw h
press-InText s erases h = backspace-InText s h
press-InText s deletes h = forward_delete-InText s h
press-InText s goes_home h = line_home-InText s h
press-InText s goes_end h = line_end-InText s h
press-InText s (moves d) h = move_horizontal-InText s d
press-InText s (climbs d) h = move_vertical-InText s d h

-- Whatever is typed, erased and moved over, in whatever order, a cursor that is in the text stays an
-- index into the text, or just behind its end.
pub press_all-InText : (s : EditState) (ks : List Stroke) → InText s → InText (press_all s ks)
unfolding press_all
press_all-InText s [] h = h
press_all-InText s (k ∷ ks) h = press_all-InText (press s k) ks (press-InText s k h)
