-- ===== src/Base/Texts.antt =====
-- JavaScript strings: lists of UTF-16 code units. Comparison with `===` is decided unit by unit.
use Prim.Native.Nat.{ℕ}
use Prim.Native.Char.{code}
use Prim.Native.String.{String}
use mathlib.Core.Path.{◌≡◌, refl, ap₂}
use mathlib.Core.Bool.{Bool, true, false, ◌&&◌, ◌||◌}
use native.Mathlib.Omega.{arith}
use mathlib.Core.List.{List, [], ◌∷◌, ◌++◌, reverse}
use native.Mathlib.Decide.{ℕ_discrete}
use claude_ipc.Base.Tests.{eqb, leb, ltb, if◌then◌else◌}

abbrev pub Text : Type 0
Text = List ℕ

-- The code units of a literal in the basic plane.
abbrev pub txt : String → Text
txt String.[] = []
txt (String.◌∷◌ c s) = code c ∷ txt s

cons_dec : (a b : ℕ) (s t : Text) → Dec (a ≡ b) → Dec (s ≡ t) → Dec (a ∷ s ≡ b ∷ t)
cons_dec a b s t (yes p) (yes q) = yes (ap₂ (λ x y. x ∷ y) p q)
cons_dec a b s t (yes p) (no q) = no (λ e. q (cc e))
cons_dec a b s t (no p) _ = no (λ e. p (cc e))

unfoldable pub text_discrete : Discrete Text
unfolding cons_dec ℕ_discrete
text_discrete [] [] = yes refl
text_discrete [] (b ∷ t) = no (λ e. cc)
text_discrete (a ∷ s) [] = no (λ e. cc)
text_discrete (a ∷ s) (b ∷ t) = cons_dec a b s t (ℕ_discrete a b) (text_discrete s t)

-- `s === t`
infix 50 ◌==◌
abbrev pub ◌==◌ : Text → Text → Bool
s == t = elim (text_discrete s t) [ yes _ ↦ true | no _ ↦ false ]

-- `!s` of a string
pub text_eq_refl : (t : Text) → (t == t) ≡ true
text_eq_refl t = ground arith

abbrev pub is_empty : Text → Bool
is_empty [] = true
is_empty (_ ∷ _) = false

-- `s.startsWith(p)`
abbrev pub starts_with : Text → Text → Bool
starts_with s [] = true
starts_with [] (_ ∷ _) = false
starts_with (a ∷ s) (b ∷ p) = eqb a b && starts_with s p

-- A `Set` of strings, and `Array.includes`.
abbrev pub contains : List Text → Text → Bool
contains [] s = false
contains (t ∷ ts) s = t == s || contains ts s

abbrev pub add : List Text → Text → List Text
add ts s = if contains ts s then ts else ts ++ s ∷ []

contains-snoc :
    (ts : List Text) (s x : Text) → contains (ts ++ s ∷ []) x ≡ (contains ts x || s == x)
contains-snoc [] s x = ground arith
contains-snoc (t ∷ ts) s x = ground (arith, contains-snoc ts s x)

-- A set holds what it held, and what was added.
pub contains-add : (ts : List Text) (s x : Text) → contains (add ts s) x ≡ (contains ts x || s == x)
contains-add ts s x = ground (arith, contains-snoc ts s x)

-- The code units that `String.prototype.trim` and `\s` take for white space.
unfoldable pub is_space : ℕ → Bool
is_space c =
    (leb 9 c && leb c 13)
    || eqb c 32
    || eqb c 0xa0
    || eqb c 0x1680
    || (leb 0x2000 c && leb c 0x200a)
    || eqb c 0x2028
    || eqb c 0x2029
    || eqb c 0x202f
    || eqb c 0x205f
    || eqb c 0x3000
    || eqb c 0xfeff

unfoldable pub drop_spaces : Text → Text
unfolding is_space
drop_spaces [] = []
drop_spaces (c ∷ s) = if is_space c then drop_spaces s else c ∷ s

-- `s.trim()`
unfoldable pub trim : Text → Text
unfolding drop_spaces
trim s = reverse (drop_spaces (reverse (drop_spaces s)))

-- The order of strings by code units, and `xs.sort()` by it.
abbrev pub text_leb : Text → Text → Bool
text_leb [] t = true
text_leb (a ∷ s) [] = false
text_leb (a ∷ s) (b ∷ t) = ltb a b || (eqb a b && text_leb s t)

abbrev pub insert_text : Text → List Text → List Text
insert_text s [] = s ∷ []
insert_text s (t ∷ ts) = if text_leb s t then s ∷ t ∷ ts else t ∷ insert_text s ts

abbrev pub sort_texts : List Text → List Text
sort_texts [] = []
sort_texts (s ∷ ts) = insert_text s (sort_texts ts)

-- Sorting loses and adds nothing.
contains-insert_text :
    (s : Text) (ts : List Text) (x : Text)
    → contains (insert_text s ts) x ≡ (s == x || contains ts x)
contains-insert_text s [] x = refl
contains-insert_text s (t ∷ ts) x = ground (arith, contains-insert_text s ts x)

pub contains-sort_texts : (ts : List Text) (x : Text) → contains (sort_texts ts) x ≡ contains ts x
contains-sort_texts [] x = refl
contains-sort_texts (s ∷ ts) x =
    ground (arith, contains-insert_text s (sort_texts ts) x, contains-sort_texts ts x)
