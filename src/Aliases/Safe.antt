-- ===== src/Aliases/Safe.antt =====
-- What a sanitized alias can hold, and where the cut to 64 leaves one that is refused.
use mathlib.Core.List.{reverse-append, reverse-reverse}
use claude_ipc.Base.{
  ℕ, zero, suc, ◌≤◌, ◌<◌, Text, is_empty, trim, drop_spaces, Bool, true, false, some, [], ◌∷◌, ◌++◌,
  ◌≡◌, ◌≢◌, ◌∙◌, sym, refl, ap, inl, inr, arith, min, reverse, keep, every, length, if◌then◌else◌,
  length-reverse, length-keep-le, length-take, every-reverse, every-take, Bool-cases,
}
use claude_ipc.Aliases.{
  lower, squeeze, is_blank, is_alias_char, is_dash, is_edge, drop_while, strip, slugged, max_alias,
  cut, sanitize_alias, dash,
}

abbrev pub starts_in : (ℕ → Bool) → Text → Bool
starts_in p [] = false
starts_in p (c ∷ s) = p c

abbrev pub ends_in : (ℕ → Bool) → Text → Bool
ends_in p t = starts_in p (reverse t)

every-keep : (p : ℕ → Bool) (s : Text) → every p (keep p s) ≡ true
every-keep p [] = refl
every-keep p (c ∷ s) = ground (arith, every-keep p s)

module _ (p q : ℕ → Bool) where
  every-squeeze :
      (i : Bool) (s : Text) → p dash ≡ true → every p s ≡ true → every p (squeeze q i s) ≡ true
  unfolding squeeze
  every-squeeze i [] d h = refl
  every-squeeze i (c ∷ s) d h = ground (arith, every-squeeze (q c) s d)

  every-drop_while : (s : Text) → every p s ≡ true → every p (drop_while q s) ≡ true
  unfolding drop_while
  every-drop_while [] h = refl
  every-drop_while (c ∷ s) h = ground (arith, every-drop_while s)

  every-strip : (s : Text) → every p s ≡ true → every p (strip q s) ≡ true
  unfolding strip
  every-strip s h =
      every-reverse p (drop_while q (reverse (drop_while q s)))
      ∙ every-drop_while (reverse (drop_while q s))
          (every-reverse p (drop_while q s) ∙ every-drop_while s h)

module _ (q : ℕ → Bool) where
  starts_in-drop_while : (s : Text) → starts_in q (drop_while q s) ≡ false
  unfolding drop_while
  starts_in-drop_while [] = refl
  starts_in-drop_while (c ∷ s) = ground (arith, starts_in-drop_while s)

  dropped : Text → Text
  dropped [] = []
  dropped (c ∷ s) = let rest = dropped s in if q c then c ∷ rest else []

  append-dropped : (s : Text) → dropped s ++ drop_while q s ≡ s
  unfolding dropped drop_while
  append-dropped [] = refl
  append-dropped (c ∷ s) = ground (arith, append-dropped s)

  length-drop_while-le : (s : Text) → length (drop_while q s) ≤ length s
  unfolding drop_while
  length-drop_while-le [] = omega arith
  length-drop_while-le (c ∷ s) = ground (arith, length-drop_while-le s)

  length-strip-le : (s : Text) → length (strip q s) ≤ length s
  unfolding strip
  length-strip-le s =
      let u = drop_while q s in
      omega (
        arith,
        length-reverse (drop_while q (reverse u)),
        length-drop_while-le (reverse u),
        length-reverse u,
        length-drop_while-le s,
      )

  length-squeeze-le : (i : Bool) (s : Text) → length (squeeze q i s) ≤ length s
  unfolding squeeze
  length-squeeze-le i [] = omega arith
  length-squeeze-le i (c ∷ s) = ground (arith, length-squeeze-le (q c) s)

starts_in-append :
    (q : ℕ → Bool) (s t : Text) → is_empty s ≡ false → starts_in q (s ++ t) ≡ starts_in q s
starts_in-append q [] t h = cc
starts_in-append q (c ∷ s) t h = refl

-- Cutting the end off leaves the beginning, if anything is left.
starts_in-cut_end :
    (q : ℕ → Bool) (u : Text)
    → is_empty (reverse (drop_while q (reverse u))) ≡ false
    → starts_in q u ≡ starts_in q (reverse (drop_while q (reverse u)))
starts_in-cut_end q u h =
    let d = drop_while q (reverse u) in
    let e : u ≡ reverse d ++ reverse (dropped q (reverse u)) =
      sym (reverse-reverse u)
      ∙ ap reverse (sym (append-dropped q (reverse u)))
      ∙ reverse-append (dropped q (reverse u)) d in
    ap (starts_in q) e ∙ starts_in-append q (reverse d) (reverse (dropped q (reverse u))) h

starts_in-strip : (q : ℕ → Bool) (s : Text) → starts_in q (strip q s) ≡ false
unfolding strip
starts_in-strip q s =
    elim (Bool-cases (is_empty (reverse (drop_while q (reverse (drop_while q s)))))) [
      | inl e ↦ empty_start q _ e
      | inr e ↦ sym (starts_in-cut_end q (drop_while q s) e) ∙ starts_in-drop_while q s
    ]
  where
    empty_start : (q : ℕ → Bool) (t : Text) → is_empty t ≡ true → starts_in q t ≡ false
    empty_start q [] h = refl
    empty_start q (c ∷ t) h = cc

ends_in-strip : (q : ℕ → Bool) (s : Text) → ends_in q (strip q s) ≡ false
unfolding strip
ends_in-strip q s =
    ap (starts_in q) (reverse-reverse (drop_while q (reverse (drop_while q s))))
    ∙ starts_in-drop_while q (reverse (drop_while q s))

slugged-every : (raw : Text) → every is_alias_char (slugged raw) ≡ true
unfolding slugged
slugged-every raw =
    let kept = keep is_alias_char (squeeze is_blank false (lower (trim raw))) in
    every-strip is_alias_char is_edge (squeeze is_dash false kept) (
      every-squeeze is_alias_char is_dash false kept refl
        (every-keep is_alias_char (squeeze is_blank false (lower (trim raw)))))

slugged-starts : (raw : Text) → starts_in is_edge (slugged raw) ≡ false
unfolding slugged
slugged-starts raw =
    starts_in-strip is_edge
      (squeeze is_dash false (keep is_alias_char (squeeze is_blank false (lower (trim raw)))))

slugged-ends : (raw : Text) → ends_in is_edge (slugged raw) ≡ false
unfolding slugged
slugged-ends raw =
    ends_in-strip is_edge
      (squeeze is_dash false (keep is_alias_char (squeeze is_blank false (lower (trim raw)))))

cut-starts : (p : ℕ → Bool) (n : ℕ) (t : Text) → 0 < n → starts_in p (cut n t) ≡ starts_in p t
unfolding cut
cut-starts p zero t h = ground arith
cut-starts p (suc n) [] h = ground arith
cut-starts p (suc n) (c ∷ t) h = ground arith

cut-every : (p : ℕ → Bool) (n : ℕ) (t : Text) → every p t ≡ true → every p (cut n t) ≡ true
unfolding cut
cut-every p n t h = ground (arith, every-take p n t)

length-cut : (n : ℕ) (t : Text) → length (cut n t) ≡ min n (length t)
unfolding cut
length-cut n t = ground (arith, length-take n t)

length-pos : (t : Text) → is_empty t ≡ false → 0 < length t
length-pos [] h = cc
length-pos (c ∷ t) h = omega arith

-- An alias that can stand in a frame or a shell command as it is.
pub record IsSafe (t : Text) : Type 0 where
  pub chars : every is_alias_char t ≡ true
  pub some_chars : 0 < length t
  pub few_chars : length t ≤ max_alias
  pub head : starts_in is_edge t ≡ false

sanitized-cut :
    (raw t : Text)
    → sanitize_alias raw ≡ some t
    → (t ≡ cut max_alias (slugged raw)) × (is_empty (slugged raw) ≡ false)
unfolding sanitize_alias
sanitized-cut raw t h = ground arith

-- What `sanitizeAlias` returns has between 1 and 64 characters, all of them lower-case ASCII letters,
-- digits, dots and dashes, and the first is no dot and no dash.
pub sanitize_alias-IsSafe : (raw t : Text) → sanitize_alias raw ≡ some t → IsSafe t
sanitize_alias-IsSafe raw t h =
    let (e, n) = sanitized-cut raw t h in
    record {
      chars = rw e (cut-every is_alias_char max_alias (slugged raw) (slugged-every raw));
      some_chars =
          rw e (omega (arith, length-cut max_alias (slugged raw), length-pos (slugged raw) n));
      few_chars = rw e (omega (arith, length-cut max_alias (slugged raw)));
      head = rw e (cut-starts is_edge max_alias (slugged raw) (omega arith) ∙ slugged-starts raw);
    }

length-drop_spaces-le : (s : Text) → length (drop_spaces s) ≤ length s
unfolding drop_spaces
length-drop_spaces-le [] = omega arith
length-drop_spaces-le (c ∷ s) = ground (arith, length-drop_spaces-le s)

length-trim-le : (s : Text) → length (trim s) ≤ length s
unfolding trim
length-trim-le s =
    let u = drop_spaces s in
    omega (
      arith,
      length-reverse (drop_spaces (reverse u)),
      length-drop_spaces-le (reverse u),
      length-reverse u,
      length-drop_spaces-le s,
    )

every-drop_spaces : (p : ℕ → Bool) (s : Text) → every p s ≡ true → every p (drop_spaces s) ≡ true
unfolding drop_spaces
every-drop_spaces p [] h = refl
every-drop_spaces p (c ∷ s) h = ground (arith, every-drop_spaces p s)

every-trim : (p : ℕ → Bool) (s : Text) → every p s ≡ true → every p (trim s) ≡ true
unfolding trim
every-trim p s h =
    every-reverse p (drop_spaces (reverse (drop_spaces s)))
    ∙ every-drop_spaces p (reverse (drop_spaces s))
        (every-reverse p (drop_spaces s) ∙ every-drop_spaces p s h)

length-lower : (s : Text) → every is_alias_char s ≡ true → length (lower s) ≡ length s
unfolding lower
length-lower [] h = refl
length-lower (c ∷ s) h = ground (arith, length-lower s)

length-slugged-le : (t : Text) → every is_alias_char t ≡ true → length (slugged t) ≤ length t
unfolding slugged
length-slugged-le t h =
    let l = lower (trim t) in
    let k = keep is_alias_char (squeeze is_blank false l) in
    omega (
      arith,
      length-strip-le is_edge (squeeze is_dash false k),
      length-squeeze-le is_dash false k,
      length-keep-le is_alias_char (squeeze is_blank false l),
      length-squeeze-le is_blank false l,
      length-lower (trim t) (every-trim is_alias_char t h),
      length-trim-le t,
    )

cut-of_short : (n : ℕ) (t : Text) → length t ≤ n → cut n t ≡ t
unfolding cut
cut-of_short n t h = ground arith

-- When the cut to 64 characters leaves a dot or a dash at the end, the alias that `sanitizeAlias`
-- returned does not pass `sanitizeAlias` itself, which `register` asks of every alias.
pub sanitize_alias-sanitize_alias :
    (raw t : Text)
    → sanitize_alias raw ≡ some t
    → ends_in is_edge t ≡ true
    → sanitize_alias t ≢ some t
sanitize_alias-sanitize_alias raw t h e k =
    let s = sanitize_alias-IsSafe raw t h in
    let (c, n) = sanitized-cut t t k in
    let u : t ≡ slugged t =
      c
      ∙ cut-of_short max_alias (slugged t)
          (omega (arith, length-slugged-le t s.chars, s.few_chars)) in
    let f : ends_in is_edge t ≡ false = ap (ends_in is_edge) u ∙ slugged-ends t in
    ground (arith, f, e)
