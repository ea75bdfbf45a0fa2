-- ===== src/Aliases.antt =====
-- The names of sessions: `sanitizeAlias`, `slug` and `deriveAlias` of src/aliasStore.ts.
pub mod Safe
use claude_ipc.Base.{
  ℕ, suc, ◌+◌, Text, ◌==◌, is_empty, txt, trim, is_space, Bool, true, false, ◌&&◌, ◌||◌, not,
  Option, none, some, List, [], ◌∷◌, ◌++◌, reverse, keep, take, length, leb, ltb, eqb, or_default,
  if◌then◌else◌,
}

abbrev pub is_lower : ℕ → Bool
is_lower c = leb b'a' c && leb c b'z'

abbrev pub is_upper : ℕ → Bool
is_upper c = leb b'A' c && leb c b'Z'

abbrev pub is_digit : ℕ → Bool
is_digit c = leb b'0' c && leb c b'9'

-- `s.toLowerCase()`, as far as the tests that follow it can see: they drop all that is not ASCII.
-- Two letters outside ASCII lower to an ASCII one, the Kelvin sign and the dotted capital I.
unfoldable pub lower : Text → Text
lower [] = []
lower (c ∷ s) =
    let rest = lower s in
    if is_upper c
    then (c + 32) ∷ rest
    else if eqb c 0x212a
    then b'k' ∷ rest
    else if eqb c 0x130
    then b'i' ∷ 0x307 ∷ rest
    else c ∷ rest

abbrev pub dash : ℕ
dash = b'-'

-- `s.replace(/[class]+/g, "-")`: the flag says that the run has been replaced already.
unfoldable pub squeeze : (ℕ → Bool) → Bool → Text → Text
squeeze p inside [] = []
squeeze p inside (c ∷ s) =
    let rest = squeeze p (p c) s in if p c then (if inside then rest else dash ∷ rest) else c ∷ rest

unfoldable pub is_blank : ℕ → Bool
unfolding is_space
is_blank c = is_space c || eqb c b'_'

-- `[a-z0-9.-]`
abbrev pub is_alias_char : ℕ → Bool
is_alias_char c = is_lower c || is_digit c || eqb c b'.' || eqb c dash

abbrev pub is_dash : ℕ → Bool
is_dash c = eqb c dash

abbrev pub is_edge : ℕ → Bool
is_edge c = eqb c dash || eqb c b'.'

unfoldable pub drop_while : (ℕ → Bool) → Text → Text
drop_while p [] = []
drop_while p (c ∷ s) = let rest = drop_while p s in if p c then rest else c ∷ s

-- `s.replace(/^[class]+|[class]+$/g, "")`
unfoldable pub strip : (ℕ → Bool) → Text → Text
unfolding drop_while
strip p s = reverse (drop_while p (reverse (drop_while p s)))

-- The chain of replacements, before the cut.
unfoldable pub slugged : Text → Text
unfolding lower squeeze strip is_blank
slugged raw =
    strip is_edge
      (squeeze is_dash false (keep is_alias_char (squeeze is_blank false (lower (trim raw)))))

abbrev pub max_alias : ℕ
max_alias = 64

unfoldable pub cut : ℕ → Text → Text
cut n t = if ltb n (length t) then take n t else t

-- An absent title is the empty text, which the first test takes for the same.
unfoldable pub sanitize_alias : Text → Option Text
unfolding slugged cut
sanitize_alias raw =
    let t = slugged raw in if is_empty raw || is_empty t then none else some (cut max_alias t)

abbrev pub is_slug_char : ℕ → Bool
is_slug_char c = is_lower c || is_digit c

-- A path segment in kebab case.
unfoldable pub slug : Text → Text
unfolding lower squeeze strip
slug s = strip is_dash (squeeze (λ c. not (is_slug_char c)) false (lower s))

abbrev pub is_slash : ℕ → Bool
is_slash c = eqb c b'/'

-- What follows the last slash.
unfoldable pub last_segment : Text → Text → Text
last_segment out [] = out
last_segment out (c ∷ s) = last_segment (if is_slash c then [] else out ++ c ∷ []) s

-- `basename`: the slashes at the end of the path do not count.
unfoldable pub base_name : Text → Text
unfolding last_segment drop_while
base_name path = last_segment [] (reverse (drop_while is_slash (reverse path)))

-- The first 8 letters and digits of the session id.
unfoldable pub id_tag : Text → Text
unfolding lower
id_tag session_id = take 8 (lower (keep (λ c. is_lower c || is_upper c || is_digit c) session_id))

abbrev pub join_alias : Text → Text → Text
join_alias [] [] = txt "session"
join_alias [] tag = tag
join_alias base [] = base
join_alias base tag = base ++ dash ∷ tag

unfoldable pub derive_alias : Text → Text → Text
unfolding slug base_name id_tag
derive_alias cwd session_id = join_alias (slug (base_name cwd)) (id_tag session_id)
