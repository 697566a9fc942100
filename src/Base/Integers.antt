-- ===== src/Base/Integers.antt =====
-- Signed numbers, as `strconv.Atoi` returns them.
use Prim.Native.Nat.{ℕ}
use mathlib.Core.Bool.{Bool, false}
use vessica_knowledge_server.Base.Tests.{nat_eq, if◌then◌else◌}

-- `negsuc n` is -(n + 1).
pub data ℤ : Type 0 where
  pos : ℕ → ℤ
  negsuc : ℕ → ℤ

-- A negative number counts as 0.
abbrev pub from_int : ℤ → ℕ
from_int (pos n) = n
from_int (negsuc n) = 0

-- `if n <= 0 { n = otherwise }`
unfoldable pub positive_or : ℕ → ℤ → ℕ
positive_or otherwise (pos n) = if nat_eq n 0 then otherwise else n
positive_or otherwise (negsuc n) = otherwise

abbrev pub int_eq : ℤ → ℤ → Bool
int_eq (pos m) (pos n) = nat_eq m n
int_eq (negsuc m) (negsuc n) = nat_eq m n
int_eq _ _ = false
