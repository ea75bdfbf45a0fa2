-- ===== src/Textarea/Columns.antt =====
-- Up and down keep the column: `moveVertical` of src/tui/widgets/textarea-ops.ts.
use claude_ipc.Base.{
  ℕ, zero, suc, ◌+◌, ◌-◌, ◌≤◌, ◌<◌, min, Text, true, false, [], ◌∷◌, ◌≡◌, refl, ap, ◌∙◌, inl, inr,
  arith, take, length, ltb, leb, eqb, if◌then◌else◌, Bool-cases,
}
use claude_ipc.Textarea.{
  EditState, is_newline, count_newlines, line_start_from, cursor_pos, split_lines, text_lines, back,
  ahead, length_at, move_to_row, move_vertical,
}
use claude_ipc.Textarea.Cursor.{
  line_offset, line_length, newline-lines, newline-offset, newline-length, newline-count,
  other-offset, other-length, other-count, split_lines-some,
}

abbrev start_of : ℕ → ℕ → ℕ → ℕ → ℕ
start_of i last off zero = last
start_of i last off (suc r) = i + off

-- The first `n` characters of a text hold `r` newlines, and the last line of them starts at `off`.
abbrev Reaches : Text → ℕ → ℕ → ℕ → Type 0
Reaches t n off r =
    (count_newlines (take n t) ≡ r)
    × ((i last : ℕ) → line_start_from i last (take n t) ≡ start_of i last off r)

take_nil : (n : ℕ) → take {A = ℕ} n [] ≡ []
take_nil zero = refl
take_nil (suc n) = refl

Reaches-nil : (n : ℕ) → Reaches [] n 0 0
Reaches-nil n = rw (take_nil n) (refl, λ i last. refl)

module _ (c : ℕ) (t : Text) (m off : ℕ) where
  Reaches-other :
      (r n off' : ℕ)
      → is_newline c ≡ false
      → n ≡ suc m
      → ((s : ℕ) → r ≡ suc s → off' ≡ suc off)
      → Reaches t m off r
      → Reaches (c ∷ t) n off' r
  Reaches-other r n off' e f g (p, q) =
      rw f (rw e p, λ i last. rw (e, line_start_from) (q (suc i) last ∙ go r g i last))
    where
      go :
          (r : ℕ)
          → ((s : ℕ) → r ≡ suc s → off' ≡ suc off)
          → (i last : ℕ) → start_of (suc i) last off r ≡ start_of i last off' r
      go zero g i last = refl
      go (suc r) g i last = omega (arith, g r refl)

  Reaches-newline :
      (r n off' : ℕ)
      → is_newline c ≡ true
      → n ≡ suc m
      → off' ≡ suc off
      → (r ≡ 0 → off ≡ 0)
      → Reaches t m off r
      → Reaches (c ∷ t) n off' (suc r)
  Reaches-newline r n off' e f g z (p, q) =
      rw f (rw e (ap suc p), λ i last. rw (e, line_start_from) (q (suc i) (suc i) ∙ go r z i))
    where
      go : (r : ℕ) → (r ≡ 0 → off ≡ 0) → (i : ℕ) → start_of (suc i) (suc i) off r ≡ i + off'
      go zero z i = omega (arith, z refl, g)
      go (suc r) z i = omega (arith, g)

line-Reaches :
    (t : Text) (r k : ℕ)
    → r < length (split_lines t)
    → k ≤ line_length t r
    → Reaches t (line_offset t r + k) (line_offset t r) r
line-Reaches [] zero k h l = Reaches-nil (0 + k)
line-Reaches [] (suc r) k h l = ground arith
line-Reaches (c ∷ t) zero zero h l = (refl, λ i last. refl)
line-Reaches (c ∷ t) zero (suc k) h l = elim (Bool-cases (is_newline c)) [
  | inl e ↦ let z = ap (λ ls. length_at ls 0) (newline-lines c t e) in ground arith
  | inr e ↦
      Reaches-other c t (0 + k) 0 0 (0 + suc k) 0 e (omega arith) (λ s z. ground arith)
        (line-Reaches t 0 k (split_lines-some t) (ground (arith, other-length c t 0 e)))
]
line-Reaches (c ∷ t) (suc r) k h l = elim (Bool-cases (is_newline c)) [
  | inl e ↦
      Reaches-newline c t (line_offset t r + k) (line_offset t r) r _ _ e
        (omega (arith, newline-offset c t r e)) (newline-offset c t r e) (line_offset-zero t r)
        (line-Reaches t r k (omega (arith, newline-count c t e, h))
          (omega (arith, newline-length c t r e, l)))
  | inr e ↦
      Reaches-other c t (line_offset t (suc r) + k) (line_offset t (suc r)) (suc r) _ _ e
        (omega (arith, other-offset c t r e)) (λ s z. other-offset c t r e)
        (line-Reaches t (suc r) k (omega (arith, other-count c t e, h))
          (ground (arith, other-length c t (suc r) e)))
]
  where
    line_offset-zero : (t : Text) (r : ℕ) → r ≡ 0 → line_offset t r ≡ 0
    line_offset-zero t r z = rw z refl

start_of-line_offset :
    (t : Text) (row : ℕ) → start_of 0 0 (line_offset t row) row ≡ line_offset t row
start_of-line_offset t zero = refl
start_of-line_offset t (suc row) = omega arith

cursor_pos-move_to_row :
    (s : EditState) (col row : ℕ)
    → row < length (text_lines s)
    → cursor_pos (move_to_row s col row)
      ≡ record { row = row; col = min col (line_length s.text row) }
unfolding cursor_pos
cursor_pos-move_to_row s col row h =
    let k = min col (line_length s.text row) in
    let (p, q) = line-Reaches s.text row k h (omega arith) in
    let e : leb (length (text_lines s)) row ≡ false = ground arith in
    rw e (
      rw p (
        rw (q 0 0) (
          ap (λ x. record { row = row; col = x })
            (omega (arith, start_of-line_offset s.text row)))))

count_newlines-lt : (t : Text) (n : ℕ) → count_newlines (take n t) < length (split_lines t)
count_newlines-lt t zero = split_lines-some t
count_newlines-lt [] (suc n) = omega arith
count_newlines-lt (c ∷ t) (suc n) = elim (Bool-cases (is_newline c)) [
  | inl e ↦ ground (arith, newline-count c t e, count_newlines-lt t n)
  | inr e ↦ ground (arith, other-count c t e, count_newlines-lt t n)
]

row-lt : (s : EditState) → (cursor_pos s).row - 1 < length (text_lines s)
unfolding cursor_pos
row-lt s = omega (arith, count_newlines-lt s.text s.cursor)

stays_below :
    (s : EditState)
    → ltb (suc (cursor_pos s).row) (length (text_lines s)) ≡ false
    → cursor_pos (move_vertical s ahead) ≡ cursor_pos s
unfolding move_vertical
stays_below s e =
    let f : leb (length (text_lines s)) (suc (cursor_pos s).row) ≡ true = ground (arith, e) in
    rw f refl

stays_above :
    (s : EditState)
    → eqb (cursor_pos s).row 0 ≡ true
    → cursor_pos (move_vertical s back) ≡ cursor_pos s
unfolding move_vertical
stays_above s e = rw e refl

climbs_above :
    (s : EditState)
    → eqb (cursor_pos s).row 0 ≡ false
    → cursor_pos (move_vertical s back) ≡ record {
      row = (cursor_pos s).row - 1;
      col = min (cursor_pos s).col (line_length s.text ((cursor_pos s).row - 1));
    }
unfolding move_vertical
climbs_above s e =
    let p = cursor_pos s in rw e (cursor_pos-move_to_row s p.col (p.row - 1) (row-lt s))

-- Up and down go to the neighbouring line and keep the column, or stop at the end of a line that is
-- too short for it; above the first line and below the last one they do nothing.
pub cursor_pos-move_vertical :
    (s : EditState)
    → let p = cursor_pos s in
      (cursor_pos (move_vertical s ahead) ≡ (
        if ltb (suc p.row) (length (text_lines s))
        then record { row = suc p.row; col = min p.col (line_length s.text (suc p.row)) }
        else p))
      × (cursor_pos (move_vertical s back) ≡ (
          if eqb p.row 0
          then p
          else record { row = p.row - 1; col = min p.col (line_length s.text (p.row - 1)) }))
cursor_pos-move_vertical s = (
  elim (Bool-cases (ltb (suc (cursor_pos s).row) (length (text_lines s)))) [
    | inl e ↦ rw e (
        unfold move_vertical in
        cursor_pos-move_to_row s (cursor_pos s).col (suc (cursor_pos s).row) (ground (arith, e)))
    | inr e ↦ rw e (stays_below s e)
  ],
  elim (Bool-cases (eqb (cursor_pos s).row 0)) [
    | inl e ↦ rw e (stays_above s e)
    | inr e ↦ rw e (climbs_above s e)
  ],
)
