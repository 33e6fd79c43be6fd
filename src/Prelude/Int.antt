-- ===== src/Prelude/Int.antt =====
-- Python's integers, by native numbers: `negsuc n` is -(n + 1).
use Prim.Native.Nat.{ℕ, suc}
use Prim.Native.String.{String, ◌++◌ as ◌<>◌}
use strongclaw.Prelude.Text.{show_nat}

pub data ℤ : Type 0 where
  pos negsuc : ℕ → ℤ

-- str(n)
unfoldable pub show_int : ℤ → String
show_int (pos n) = show_nat n
show_int (negsuc n) = "-" <> show_nat (suc n)
