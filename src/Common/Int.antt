-- ===== src/Common/Int.antt =====
-- Signed numbers on top of the native ones, for the coordinates that the source keeps in `i64`.
use Prim.Native.Nat.{ℕ, suc, ◌+◌, ◌-◌, ◌*◌, ◌^◌}
use mathlib.Core.Bool.{Bool}
use wasabi_os.Common.Tests.{ltb, leb, if◌then◌else◌}
use wasabi_os.Common.Outcomes.{Outcome, done, panic}

-- `negsuc k` stands for -1 - k.
pub data ℤ : Type 0 where
  pos negsuc : ℕ → ℤ

-- An integer as up - down, with one of the two zero.
abbrev pub up : ℤ → ℕ
up (negsuc k) = 0
up (pos k) = k

abbrev pub down : ℤ → ℕ
down (negsuc k) = suc k
down (pos k) = 0

abbrev pub difference : ℕ → ℕ → ℤ
difference k l = if ltb k l then negsuc (l - suc k) else pos (k - l)

infixl 65 ◌+ℤ◌ ◌-ℤ◌
infixl 70 ◌*ℤ◌
unfoldable pub ◌+ℤ◌ : ℤ → ℤ → ℤ
i +ℤ j = difference (up i + up j) (down i + down j)

unfoldable pub ◌-ℤ◌ : ℤ → ℤ → ℤ
i -ℤ j = difference (up i + down j) (up j + down i)

unfoldable pub ◌*ℤ◌ : ℤ → ℤ → ℤ
i *ℤ j = difference (up i * up j + down i * down j) (down i * up j + up i * down j)

unfoldable pub abs : ℤ → ℕ
abs i = up i + down i

unfoldable pub signum : ℤ → ℤ
signum (pos k) = if ltb 0 k then pos 1 else pos 0
signum (negsuc k) = negsuc 0

abbrev pub lt_ℤ : ℤ → ℤ → Bool
lt_ℤ i j = ltb (up i + down j) (up j + down i)

abbrev pub le_ℤ : ℤ → ℤ → Bool
le_ℤ i j = leb (up i + down j) (up j + down i)

-- An `i64` operation, given its exact result.
abbrev pub checked_i64 : ℤ → Outcome ℤ
checked_i64 (pos k) = if ltb k (2 ^ 63) then done (pos k) else panic
checked_i64 (negsuc k) = if ltb k (2 ^ 63) then done (negsuc k) else panic
