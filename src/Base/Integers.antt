-- ===== src/Base/Integers.antt =====
-- The integers over the native numbers, as far as the source subtracts past zero.
use Prim.Native.Nat.{ℕ, ◌-◌}
use claude_ipc.Base.Tests.{leb, if◌then◌else◌}

pub data ℤ : Type 0 where
  pos negsuc : ℕ → ℤ

-- `a - b`
unfoldable pub difference : ℕ → ℕ → ℤ
difference a b = if leb b a then pos (a - b) else negsuc (b - a - 1)

unfoldable pub min_int : ℤ → ℤ → ℤ
min_int (pos a) (pos b) = if leb a b then pos a else pos b
min_int (pos a) (negsuc b) = negsuc b
min_int (negsuc a) (pos b) = negsuc a
min_int (negsuc a) (negsuc b) = if leb a b then negsuc b else negsuc a
