-- ===== src/Base/Sort.antt =====
-- `xs.sort((a, b) => key(a) - key(b))`: JavaScript's sort is stable, so insertion before the first
-- element that is not smaller gives its result.
use Prim.Native.Nat.{ℕ, ◌≤◌}
use mathlib.Core.List.{List, [], ◌∷◌, Perm}
use mathlib.Core.List.Perm
use mathlib.Core.Logic.{inl, inr}
use native.Mathlib.Omega.{arith}
use mathlib.Core.Path.{◌≡◌, refl}
use mathlib.Core.Bool.{Bool, ◌||◌}
use claude_ipc.Base.Tests.{leb, if◌then◌else◌, Bool-cases}
use claude_ipc.Base.Lists.{some_of}

module _ {ℓ} {A : Type ℓ} where
  pub insert_on : (A → ℕ) → A → List A → List A
  insert_on key x [] = x ∷ []
  insert_on key x (y ∷ ys) = if leb (key x) (key y) then x ∷ y ∷ ys else y ∷ insert_on key x ys

  unfoldable pub sort_on : (A → ℕ) → List A → List A
  unfolding insert_on
  sort_on key [] = []
  sort_on key (x ∷ xs) = insert_on key x (sort_on key xs)

  -- Every key from the head on is at least the bound, and so on down the list.
  abbrev pub Ascends : (A → ℕ) → ℕ → List A → Type 0
  Ascends key n [] = Unit
  Ascends key n (x ∷ xs) = (n ≤ key x) × Ascends key (key x) xs

  insert_on-perm : (key : A → ℕ) (x : A) (xs : List A) → Perm (insert_on key x xs) (x ∷ xs)
  unfolding insert_on
  insert_on-perm key x [] = Perm.refl (x ∷ [])
  insert_on-perm key x (y ∷ ys) = elim (Bool-cases (leb (key x) (key y))) [
    | inl e ↦ rw e (Perm.refl (x ∷ y ∷ ys))
    | inr e ↦ rw e (Perm.trans (Perm.cons y (insert_on-perm key x ys)) (Perm.swap x y ys))
  ]

  pub sort_on-perm : (key : A → ℕ) (xs : List A) → Perm (sort_on key xs) xs
  unfolding sort_on
  sort_on-perm key [] = Perm.refl []
  sort_on-perm key (x ∷ xs) =
      Perm.trans (insert_on-perm key x (sort_on key xs)) (Perm.cons x (sort_on-perm key xs))

  insert_on-Ascends :
      (key : A → ℕ) (n : ℕ) (x : A) (xs : List A)
      → n ≤ key x
      → Ascends key n xs
      → Ascends key n (insert_on key x xs)
  unfolding insert_on
  insert_on-Ascends key n x [] h a = (h, tt)
  insert_on-Ascends key n x (y ∷ ys) h a = ground (arith, insert_on-Ascends key (key y) x ys)

  pub sort_on-Ascends : (key : A → ℕ) (xs : List A) → Ascends key 0 (sort_on key xs)
  unfolding sort_on
  sort_on-Ascends key [] = tt
  sort_on-Ascends key (x ∷ xs) =
      insert_on-Ascends key 0 x (sort_on key xs) (omega arith) (sort_on-Ascends key xs)

  some_of-insert_on :
      (key : A → ℕ) (p : A → Bool) (x : A) (xs : List A)
      → some_of p (insert_on key x xs) ≡ (p x || some_of p xs)
  unfolding insert_on
  some_of-insert_on key p x [] = ground arith
  some_of-insert_on key p x (y ∷ ys) = ground (arith, some_of-insert_on key p x ys)

  pub some_of-sort_on :
      (key : A → ℕ) (p : A → Bool) (xs : List A) → some_of p (sort_on key xs) ≡ some_of p xs
  unfolding sort_on
  some_of-sort_on key p [] = refl
  some_of-sort_on key p (x ∷ xs) =
      ground (arith, some_of-insert_on key p x (sort_on key xs), some_of-sort_on key p xs)
