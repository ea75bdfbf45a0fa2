-- ===== src/Base/Map/Entries.antt =====
-- Laws of the maps: reads after writes, and predicates that hold of every entry.
use claude_ipc.Base.Tests.{if◌then◌else◌, is_some}
use claude_ipc.Base.Texts.{Text, ◌==◌}
use claude_ipc.Base.Lists.{some_of}
use claude_ipc.Base.Map.{Map, get, set, delete, values, update_values, get-set}
use mathlib.Core.Path.{◌≡◌, refl}
use mathlib.Core.Bool.{Bool, true, false}
use mathlib.Core.List.{[], ◌∷◌}
use mathlib.Core.Option.{none, some}
use native.Mathlib.Omega.{arith}

module _ {ℓ} {V : Type ℓ} where
  pub get-delete :
      (m : Map V) (k j : Text) → get (delete m k) j ≡ (if k == j then none else get m j)
  unfolding get delete
  get-delete [] k j = ground arith
  get-delete ((i, w) ∷ m) k j = ground (arith, get-delete m k j)

  pub get-update_values :
      (f : V → V) (m : Map V) (k : Text)
      → get (update_values f m) k ≡ elim (get m k) [ none ↦ none | some v ↦ some (f v) ]
  unfolding get
  get-update_values f [] k = refl
  get-update_values f ((i, w) ∷ m) k = ground (arith, get-update_values f m k)

  -- A test that passes at a key passes at some value.
  pub some_of-get :
      (p : V → Bool) (m : Map V) (k : Text) {v : V}
      → get m k ≡ some v
      → p v ≡ true
      → some_of p (values m) ≡ true
  unfolding get
  some_of-get p [] k e h = ground arith
  some_of-get p ((i, w) ∷ m) k {v} e h = ground (arith, some_of-get p m k {v = v})

  -- A predicate of every entry.
  abbrev pub All : (Text → V → Type 0) → Map V → Type 0
  All P [] = Unit
  All P ((k, v) ∷ m) = P k v × All P m

  pub All-set :
      (P : Text → V → Type 0) (m : Map V) (k : Text) (v : V) → P k v → All P m → All P (set m k v)
  unfolding set
  All-set P [] k v h a = (h, tt)
  All-set P ((i, w) ∷ m) k v h a = ground (arith, All-set P m k v)

  pub All-delete : (P : Text → V → Type 0) (m : Map V) (k : Text) → All P m → All P (delete m k)
  unfolding delete
  All-delete P [] k a = tt
  All-delete P ((i, w) ∷ m) k a = ground (arith, All-delete P m k)

  pub All-get :
      (P : Text → V → Type 0) (m : Map V) (k : Text) (v : V) → All P m → get m k ≡ some v → P k v
  unfolding get
  All-get P [] k v a e = ground arith
  All-get P ((i, w) ∷ m) k v a e = ground (arith, All-get P m k v)

  -- No key occurs twice.
  abbrev pub Unique : Map V → Type 0
  Unique [] = Unit
  Unique ((k, v) ∷ m) = (is_some (get m k) ≡ false) × Unique m

  pub Unique-set : (m : Map V) (k : Text) (v : V) → Unique m → Unique (set m k v)
  unfolding set get
  Unique-set [] k v u = ground arith
  Unique-set ((j, w) ∷ m) k v u = ground (arith, Unique-set m k v, get-set m k j v)

  pub Unique-delete : (m : Map V) (k : Text) → Unique m → Unique (delete m k)
  unfolding delete
  Unique-delete [] k u = tt
  Unique-delete ((j, w) ∷ m) k u = ground (arith, Unique-delete m k, get-delete m k j)

  pub Unique-update_values : (f : V → V) (m : Map V) → Unique m → Unique (update_values f m)
  Unique-update_values f [] u = tt
  Unique-update_values f ((j, w) ∷ m) u =
      ground (arith, Unique-update_values f m, get-update_values f m j)
