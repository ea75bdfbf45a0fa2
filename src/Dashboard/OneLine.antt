-- ===== src/Dashboard/OneLine.antt =====
-- What src/tui/model.ts shows of a peer's text is one line without ASCII control characters.
use claude_ipc.Base.{
  some_of, ◌||◌, ℕ, ◌-◌, ◌≤◌, max, Text, txt, Bool, true, false, not, [], ◌∷◌, ◌++◌, ◌≡◌, refl, ap,
  ◌∙◌, inl, inr, arith, keep, take, every, every-take, length, length-append, length-take, leb, eqb,
  Bool-cases,
}
use claude_ipc.Textarea.{spaces}
use claude_ipc.Dashboard.{
  ends_line, is_param, is_inter, is_final, params, escape, drop_osc, outside, drop_csi, drop_escape,
  mark_newlines, is_low, sanitize_inline, inline_head,
}

abbrev pub contains_char : Text → ℕ → Bool
contains_char s c = some_of (λ d. eqb c d) s

abbrev pub Clean : Text → Type 0
Clean t = every (λ c. not (is_low c)) t ≡ true

keep-Clean : (t : Text) → Clean (keep (λ c. not (is_low c)) t)
keep-Clean [] = refl
keep-Clean (c ∷ t) = ground (arith, keep-Clean t)

Clean-tail : (c : ℕ) (t : Text) → Clean (c ∷ t) → (is_low c ≡ false) × Clean t
Clean-tail c t h = ground arith

-- A clean text is left as it is by every step.
drop_osc-Clean : (t : Text) → Clean t → drop_osc false t ≡ t
unfolding drop_osc
drop_osc-Clean [] h = refl
drop_osc-Clean (c ∷ []) h = refl
drop_osc-Clean (c ∷ d ∷ t) h =
    let (l, k) = Clean-tail c (d ∷ t) h in
    let e : eqb c escape ≡ false = ground (arith, l) in
    rw e (ap (λ s. c ∷ s) (drop_osc-Clean (d ∷ t) k))

drop_csi-Clean : (t : Text) → Clean t → drop_csi outside t ≡ t
unfolding drop_csi
drop_csi-Clean [] h = refl
drop_csi-Clean (c ∷ []) h = refl
drop_csi-Clean (c ∷ d ∷ t) h =
    let (l, k) = Clean-tail c (d ∷ t) h in
    let e : eqb c escape ≡ false = ground (arith, l) in
    rw e (ap (λ s. c ∷ s) (drop_csi-Clean (d ∷ t) k))

drop_escape-Clean : (t : Text) → Clean t → drop_escape t ≡ t
unfolding drop_escape
drop_escape-Clean [] h = refl
drop_escape-Clean (c ∷ []) h = refl
drop_escape-Clean (c ∷ d ∷ t) h =
    let (l, k) = Clean-tail c (d ∷ t) h in
    let e : eqb c escape ≡ false = ground (arith, l) in
    rw e (ap (λ s. c ∷ s) (drop_escape-Clean (d ∷ t) k))

mark_newlines-Clean : (t : Text) → Clean t → mark_newlines t ≡ t
unfolding mark_newlines
mark_newlines-Clean [] h = refl
mark_newlines-Clean (c ∷ []) h = let e : eqb c 10 ≡ false = ground (arith, h) in rw e refl
mark_newlines-Clean (c ∷ d ∷ t) h =
    let (l, k) = Clean-tail c (d ∷ t) h in
    let e : eqb c 13 ≡ false = ground (arith, l) in
    let f : eqb c 10 ≡ false = ground (arith, l) in
    rw e (rw f (ap (λ s. c ∷ s) (mark_newlines-Clean (d ∷ t) k)))

spaces-Clean : (t : Text) → Clean t → spaces t ≡ t
spaces-Clean [] h = refl
spaces-Clean (c ∷ t) h =
    let (l, k) = Clean-tail c t h in
    let e : eqb c 9 ≡ false = ground (arith, l) in rw e (ap (λ s. c ∷ s) (spaces-Clean t k))

keep-every : (p : ℕ → Bool) (t : Text) → every p t ≡ true → keep p t ≡ t
keep-every p [] h = refl
keep-every p (c ∷ t) h = ground (arith, keep-every p t)

sanitize_inline-Clean : (s : Text) → Clean (sanitize_inline s)
unfolding sanitize_inline
sanitize_inline-Clean s =
    keep-Clean (spaces (mark_newlines (drop_escape (drop_csi outside (drop_osc false s)))))

append-Clean : (s t : Text) → Clean s → Clean t → Clean (s ++ t)
append-Clean [] t h k = k
append-Clean (c ∷ s) t h k = ground (arith, append-Clean s t, h, k)

-- Whatever a peer wrote, its head in a cell of some width has no ASCII control character (none below
-- U+0020, and no U+007F), and no more characters than the cell, except for the ellipsis that a cell
-- of width 0 is given.
pub inline_head-Clean :
    (s : Text) (n : ℕ) → Clean (inline_head s n) × (length (inline_head s n) ≤ max 1 n)
unfolding inline_head
inline_head-Clean s n =
    let clean = sanitize_inline s in
    let h = sanitize_inline-Clean s in
    let p : ℕ → Bool = λ c. not (is_low c) in
    elim (Bool-cases (leb (length clean) n)) [
      | inl e ↦ rw e ((h, ground (arith, e)))
      | inr e ↦ rw e (
          (
            append-Clean (take (n - 1) clean) (txt "…") (every-take p (n - 1) clean h) refl,
            omega (arith, length-append (take (n - 1) clean) (txt "…"), length-take (n - 1) clean),
          ))
    ]

-- A step that copies a character that is not low goes past a clean text.
prefix-Clean :
    (step : Text → Text)
    → ((c d : ℕ) (s : Text) → is_low c ≡ false → step (c ∷ d ∷ s) ≡ c ∷ step (d ∷ s))
    → (a t : Text) → Clean a
    → step (a ++ escape ∷ t) ≡ a ++ step (escape ∷ t)
prefix-Clean step copies [] t h = refl
prefix-Clean step copies (c ∷ []) t h = copies c escape t (Clean-tail c [] h).0
prefix-Clean step copies (c ∷ d ∷ a) t h =
    let (l, k) = Clean-tail c (d ∷ a) h in
    copies c d (a ++ escape ∷ t) l ∙ ap (λ s. c ∷ s) (prefix-Clean step copies (d ∷ a) t k)

not_escape : (c : ℕ) → is_low c ≡ false → eqb c escape ≡ false
not_escape c h = ground (arith, h)

drop_osc-copies :
    (c d : ℕ) (s : Text)
    → is_low c ≡ false
    → drop_osc false (c ∷ d ∷ s) ≡ c ∷ drop_osc false (d ∷ s)
unfolding drop_osc
drop_osc-copies c d s h = rw (not_escape c h) refl

drop_csi-copies :
    (c d : ℕ) (s : Text)
    → is_low c ≡ false
    → drop_csi outside (c ∷ d ∷ s) ≡ c ∷ drop_csi outside (d ∷ s)
unfolding drop_csi
drop_csi-copies c d s h = rw (not_escape c h) refl

drop_escape-copies :
    (c d : ℕ) (s : Text) → is_low c ≡ false → drop_escape (c ∷ d ∷ s) ≡ c ∷ drop_escape (d ∷ s)
unfolding drop_escape
drop_escape-copies c d s h = rw (not_escape c h) refl

-- Control sequences as terminals read them: a CSI sequence with parameters and a final character, an
-- OSC sequence that BEL ends, and a bare escape with one character.
pub data Sequence : Type 0 where
  csi : Text → ℕ → Sequence
  osc : Text → Sequence
  bare : ℕ → Sequence

-- A sequence, with a text behind it.
abbrev pub written : Sequence → Text → Text
written (csi ps f) b = escape ∷ b'[' ∷ (ps ++ f ∷ b)
written (osc t) b = escape ∷ b']' ∷ (t ++ 7 ∷ b)
written (bare c) b = escape ∷ c ∷ b

-- Parameters are digits and `;:?`; a final character is one from `@` to `~`; the text of an OSC
-- sequence has no BEL and no escape in it; and what follows a bare escape is neither a low character,
-- nor a bracket, nor a line separator.
abbrev pub IsSequence : Sequence → Type 0
IsSequence (csi ps f) =
    (every (contains_char (txt "0123456789;:?")) ps ≡ true) × (64 ≤ f) × (f ≤ 126)
IsSequence (osc t) = every (λ c. not (contains_char (7 ∷ 27 ∷ []) c)) t ≡ true
IsSequence (bare c) = (is_low c || contains_char (b'[' ∷ b']' ∷ 0x2028 ∷ 0x2029 ∷ []) c) ≡ false

final-no_part :
    (f : ℕ) → 64 ≤ f → f ≤ 126 → (is_param f ≡ false) × (is_inter f ≡ false) × (is_final f ≡ true)
final-no_part f h k = (ground (arith, h, k), ground (arith, h, k), ground (arith, h, k))

is_param-char : (c : ℕ) → contains_char (txt "0123456789;:?") c ≡ true → is_param c ≡ true
is_param-char c h = ground (arith, h)

-- The parameters of a sequence and its last character are dropped.
drop_csi-params :
    (ps : Text) (f : ℕ) (b : Text)
    → IsSequence (csi ps f)
    → Clean b
    → drop_csi params (ps ++ f ∷ b) ≡ b
unfolding drop_csi
drop_csi-params [] f [] (h, k, l) m =
    let (e, i, j) = final-no_part f k l in rw (e, drop_csi) (rw i (rw j refl))
drop_csi-params [] f (d ∷ b) (h, k, l) m =
    let (e, i, j) = final-no_part f k l in rw (e, drop_csi) (rw i (rw j (drop_csi-Clean (d ∷ b) m)))
drop_csi-params (p ∷ []) f b (h, k, l) m =
    let e = is_param-char p (ground (arith, h)) in
    rw (e, drop_csi) (drop_csi-params [] f b (refl, k, l) m)
drop_csi-params (p ∷ q ∷ ps) f b (h, k, l) m =
    let e = is_param-char p (ground (arith, h)) in
    rw (e, drop_csi) (drop_csi-params (q ∷ ps) f b (ground (arith, h), k, l) m)

params-Clean :
    (ps : Text) (f : ℕ) (b : Text) → IsSequence (csi ps f) → Clean b → Clean (ps ++ f ∷ b)
params-Clean [] f b (h, k, l) m = ground (arith, k, l, m)
params-Clean (p ∷ ps) f b (h, k, l) m =
    ground (arith, h, params-Clean ps f b (ground (arith, h), k, l) m)

-- The text of an OSC sequence and its BEL are dropped.
drop_osc-osc : (t b : Text) → IsSequence (osc t) → Clean b → drop_osc true (t ++ 7 ∷ b) ≡ b
unfolding drop_osc
drop_osc-osc [] [] h k = refl
drop_osc-osc [] (d ∷ b) h k = drop_osc-Clean (d ∷ b) k
drop_osc-osc (c ∷ []) b h k =
    let e : eqb c 7 ≡ false = ground (arith, h) in
    let f : eqb c escape ≡ false = ground (arith, h) in
    rw (e, drop_osc) (rw f (drop_osc-osc [] b refl k))
drop_osc-osc (c ∷ d ∷ t) b h k =
    let e : eqb c 7 ≡ false = ground (arith, h) in
    let f : eqb c escape ≡ false = ground (arith, h) in
    rw (e, drop_osc) (rw f (drop_osc-osc (d ∷ t) b (ground (arith, h)) k))

-- The three steps that drop sequences.
abbrev dropped : Text → Text
dropped s = drop_escape (drop_csi outside (drop_osc false s))

dropped-csi :
    (ps : Text) (f : ℕ) (b : Text)
    → IsSequence (csi ps f)
    → Clean b
    → (drop_osc false (written (csi ps f) b) ≡ written (csi ps f) b)
      × (drop_csi outside (written (csi ps f) b) ≡ b)
unfolding drop_osc drop_csi
dropped-csi ps f b h k = (
  ap (λ s. escape ∷ s) (drop_osc-Clean (b'[' ∷ (ps ++ f ∷ b)) (params-Clean ps f b h k)),
  drop_csi-params ps f b h k,
)

dropped-bare :
    (c : ℕ) (b : Text)
    → IsSequence (bare c)
    → Clean b
    → (drop_osc false (written (bare c) b) ≡ written (bare c) b)
      × (drop_csi outside (written (bare c) b) ≡ written (bare c) b)
      × (drop_escape (written (bare c) b) ≡ b)
unfolding drop_osc drop_csi drop_escape
dropped-bare c b h k =
    let clean : Clean (c ∷ b) = ground (arith, h, k) in
    let o : eqb c b']' ≡ false = ground (arith, h) in
    let s : eqb c b'[' ≡ false = ground (arith, h) in
    let n : ends_line c ≡ false = ground (arith, h) in
    (
      rw (o, drop_osc) (ap (λ t. escape ∷ t) (drop_osc-Clean (c ∷ b) clean)),
      rw (s, drop_csi) (ap (λ t. escape ∷ t) (drop_csi-Clean (c ∷ b) clean)),
      rw (n, drop_escape) (drop_escape-Clean b k),
    )

dropped-written :
    (a : Text) (e : Sequence) (b : Text)
    → Clean a
    → IsSequence e
    → Clean b
    → dropped (a ++ written e b) ≡ a ++ b
unfolding drop_osc
dropped-written a (csi ps f) b h i k =
    let (o, c) = dropped-csi ps f b i k in
    ap (λ s. drop_escape (drop_csi outside s))
      (prefix-Clean (drop_osc false) drop_osc-copies a _ h ∙ ap (λ s. a ++ s) o)
    ∙ ap drop_escape (prefix-Clean (drop_csi outside) drop_csi-copies a _ h ∙ ap (λ s. a ++ s) c)
    ∙ drop_escape-Clean (a ++ b) (append-Clean a b h k)
dropped-written a (osc t) b h i k =
    ap (λ s. drop_escape (drop_csi outside s))
      (prefix-Clean (drop_osc false) drop_osc-copies a _ h
        ∙ ap (λ s. a ++ s) (drop_osc-osc t b i k))
    ∙ ap drop_escape (drop_csi-Clean (a ++ b) (append-Clean a b h k))
    ∙ drop_escape-Clean (a ++ b) (append-Clean a b h k)
dropped-written a (bare c) b h i k =
    let (o, s, n) = dropped-bare c b i k in
    ap (λ s. drop_escape (drop_csi outside s))
      (prefix-Clean (drop_osc false) drop_osc-copies a _ h ∙ ap (λ s. a ++ s) o)
    ∙ ap drop_escape (prefix-Clean (drop_csi outside) drop_csi-copies a _ h ∙ ap (λ s. a ++ s) s)
    ∙ prefix-Clean drop_escape drop_escape-copies a _ h
    ∙ ap (λ s. a ++ s) n

-- In a text without ASCII control characters otherwise, a control sequence goes as a whole, and what
-- is shown is the text before it and the text behind it. The sequence is a CSI sequence with
-- parameters of digits and `;:?` and a final character from `@` to `~`; an OSC sequence that BEL ends,
-- with no BEL and no escape in its text; or an escape with one character that is no ASCII control
-- character, no square bracket and neither U+2028 nor U+2029.
pub sanitize_inline-written :
    (a : Text) (e : Sequence) (b : Text)
    → Clean a
    → IsSequence e
    → Clean b
    → sanitize_inline (a ++ written e b) ≡ a ++ b
unfolding sanitize_inline
sanitize_inline-written a e b h i k =
    let p : ℕ → Bool = λ c. not (is_low c) in
    let clean = append-Clean a b h k in
    ap (λ u. keep p (spaces (mark_newlines u))) (dropped-written a e b h i k)
    ∙ ap (λ u. keep p (spaces u)) (mark_newlines-Clean (a ++ b) clean)
    ∙ ap (keep p) (spaces-Clean (a ++ b) clean)
    ∙ keep-every p (a ++ b) clean
