-- ===== src/Common/Outcomes.antt =====
-- What a Rust call comes to: a value, or a panic. Overflow checks are on, as in the default (dev)
-- profile that `cargo run` builds, so an overflow of `+`, `-` or `*` is a panic as well.
use Prim.Native.Nat.{ℕ, ◌+◌, ◌-◌, ◌*◌, ◌^◌}
use Prim.Native.String.{String}
use mathlib.Core.Bool.{Bool, true, false}
use wasabi_os.Common.Tests.{ltb, if◌then◌else◌}

-- `core::result::Result<T, &'static str>` of result.rs.
pub data Result {ℓ} (A : Type ℓ) : Type ℓ where
  ok : A → Result A
  err : String → Result A

pub data Outcome {ℓ} (A : Type ℓ) : Type ℓ where
  done : A → Outcome A
  panic : Outcome A

infixl 5 ◌>>=◌ ◌>>◌
abbrev pub ◌>>=◌ {ℓ κ} : {A : Type ℓ} {B : Type κ} → Outcome A → (A → Outcome B) → Outcome B
done a >>= f = f a
panic >>= f = panic

abbrev pub ◌>>◌ {ℓ} : {B : Type ℓ} → Outcome (Unit {0}) → Outcome B → Outcome B
m >> k = m >>= λ _. k

-- `assert!`.
abbrev pub assert : Bool → Outcome (Unit {0})
assert true = done tt
assert false = panic

-- The checked operations of a 64-bit `usize` or `u64`.
abbrev pub checked_add : ℕ → ℕ → Outcome ℕ
checked_add a b = if ltb (a + b) (2 ^ 64) then done (a + b) else panic

abbrev pub checked_sub : ℕ → ℕ → Outcome ℕ
checked_sub a b = if ltb a b then panic else done (a - b)

abbrev pub checked_mul : ℕ → ℕ → Outcome ℕ
checked_mul a b = if ltb (a * b) (2 ^ 64) then done (a * b) else panic
