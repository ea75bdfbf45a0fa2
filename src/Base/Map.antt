-- ===== src/Base/Map.antt =====
-- JavaScript's `Map` with string keys: entries in order of insertion. `set` of a key that is there
-- changes its value in place; of a new key it appends.
pub mod Entries
use mathlib.Core.Path.{◌≡◌, refl}
use mathlib.Core.Bool.{Bool}
use mathlib.Core.List.{List, [], ◌∷◌}
use mathlib.Core.Option.{Option, none, some}
use native.Mathlib.Omega.{arith}
use claude_ipc.Base.Tests.{if◌then◌else◌, is_some}
use claude_ipc.Base.Texts.{Text, ◌==◌, text_discrete}

abbrev pub Map {ℓ} : Type ℓ → Type ℓ
Map V = List (Text × V)

module _ {ℓ} {V : Type ℓ} where
  unfoldable pub get : Map V → Text → Option V
  unfolding text_discrete
  get [] k = none
  get ((j, v) ∷ m) k = if j == k then some v else get m k

  abbrev pub has : Map V → Text → Bool
  has m k = is_some (get m k)

  unfoldable pub set : Map V → Text → V → Map V
  unfolding text_discrete
  set [] k v = (k, v) ∷ []
  set ((j, w) ∷ m) k v = if j == k then (j, v) ∷ m else (j, w) ∷ set m k v

  unfoldable pub delete : Map V → Text → Map V
  unfolding text_discrete
  delete [] k = []
  delete ((j, v) ∷ m) k = let rest = delete m k in if j == k then rest else (j, v) ∷ rest

  abbrev pub values : Map V → List V
  values [] = []
  values ((j, v) ∷ m) = v ∷ values m

  -- Assignments to fields of the values, in a loop over them.
  abbrev pub update_values : (V → V) → Map V → Map V
  update_values f [] = []
  update_values f ((j, v) ∷ m) = (j, f v) ∷ update_values f m

  pub get-set :
      (m : Map V) (k j : Text) (v : V) → get (set m k v) j ≡ (if k == j then some v else get m j)
  unfolding get set
  get-set [] k j v = refl
  get-set ((i, w) ∷ m) k j v = ground (arith, get-set m k j v)
