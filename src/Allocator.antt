-- ===== src/Allocator.antt =====
-- allocator.rs: the first-fit allocator. The chain of `Option<Box<Header>>` that starts at
-- `first_header` owns its headers, so it is a list; a header keeps the address that it stands at.
pub mod Alloc
pub mod Boxed
pub mod Boxes
pub mod Carve
pub mod Contract
pub mod Descriptor
pub mod Invariant
pub mod Live
pub mod Memory
pub mod Pow2
pub mod Provide
pub mod Slack
pub mod Tests
pub mod UnitTests
use wasabi_os.Common.{
  ℕ, zero, suc, ◌+◌, ◌-◌, ◌*◌, ◌/◌, ◌%◌, ◌^◌, max, bit_and, Bool, true, false, Option, none, some,
  List, [], ◌∷◌, ◌++◌, Result, ok, err, Outcome, done, ◌>>=◌, ◌>>◌, assert, checked_add,
  checked_sub, checked_mul, ltb, leb, ◌==◌, if◌then◌else◌,
}

-- `usize::leading_zeros` counts down from the position of the highest bit set.
bit_length : ℕ → ℕ → ℕ
bit_length zero v = 0
bit_length (suc w) v = if v == 0 then 0 else suc (bit_length w (v / 2))

unfoldable pub leading_zeros : ℕ → ℕ
unfolding bit_length
leading_zeros v = 64 - bit_length 64 v

abbrev pub wrapping_sub : ℕ → ℕ → ℕ
wrapping_sub a b = (a + 2 ^ 64 - b) % 2 ^ 64

-- `1usize.checked_shl(n)`.
abbrev pub checked_shl_one : ℕ → Option ℕ
checked_shl_one n = if ltb n 64 then some (2 ^ n) else none

pub round_up_to_nearest_pow2 : ℕ → Result ℕ
round_up_to_nearest_pow2 v = elim (checked_shl_one (64 - leading_zeros (wrapping_sub v 1))) [
  | some r ↦ ok r
  | none ↦ err "Out of range"
]

pub record Header : Type 0 where
  pub addr : ℕ
  pub size : ℕ
  pub is_allocated : Bool

abbrev pub header_size : ℕ
header_size = 32

abbrev pub header : ℕ → ℕ → Bool → Header
header a s b = record { addr = a; size = s; is_allocated = b }

pub can_provide : Header → ℕ → ℕ → Outcome Bool
can_provide h size align = do
  slack ← checked_mul (header_size * 2) align
  need ← checked_add size slack
  done (leb need h.size)

pub end_addr : Header → Outcome ℕ
end_addr h = checked_add h.addr h.size

abbrev pub new_from_addr : ℕ → Header
new_from_addr a = header a 0 false

-- The last lines of `provide`: the header itself shrinks, and the new ones follow it.
settle : Header → ℕ → ℕ → List Header → Outcome (ℕ × List Header)
settle h size_used allocated_addr parts = do
  least ← checked_add size_used header_size
  assert (leb least h.size)
  rest ← checked_sub h.size size_used
  done (allocated_addr, record h { size = rest } ∷ parts)

-- The branch of `provide` that carves the request from the end of the region.
pub carve : Header → ℕ → ℕ → Outcome (ℕ × List Header)
unfolding end_addr settle
carve h size align = do
  end ← end_addr h
  top ← checked_sub end size
  low ← checked_sub align 1
  let allocated_addr = bit_and top (2 ^ 64 - 1 - low)
  at ← checked_sub allocated_addr header_size
  total ← checked_add size header_size
  let allocated = record (new_from_addr at) { is_allocated = true; size = total }
  allocated_end ← end_addr allocated
  if allocated_end == end then settle h total allocated_addr (allocated ∷ []) else do
    pad ← checked_sub end allocated_end
    used ← checked_add total pad
    let padding = record (new_from_addr allocated_end) { size = pad }
    settle h used allocated_addr (allocated ∷ padding ∷ [])

-- The guard of `provide`, for the adjusted size and alignment.
pub try_carve : Header → ℕ → ℕ → Outcome (Option (ℕ × List Header))
try_carve h size align = if h.is_allocated then done none else do
  fits ← can_provide h size align
  if fits then (do r ← carve h size align; done (some r)) else done none

-- `none` leaves the header alone; `some` gives the address and the headers that replace this one.
pub provide : Header → ℕ → ℕ → Outcome (Option (ℕ × List Header))
provide h size align = elim (round_up_to_nearest_pow2 size) [
  | err _ ↦ done none
  | ok rounded ↦ try_carve h (max rounded header_size) (max align header_size)
]

pub record Layout : Type 0 where
  pub size : ℕ
  pub align : ℕ

-- What `alloc_with_options` does with the answer of `provide` at one header.
resume :
    Header
    → List Header
    → Option (ℕ × List Header)
    → Outcome (ℕ × List Header)
    → Outcome (ℕ × List Header)
resume h rest (some (p, hs)) later = done (p, hs ++ rest)
resume h rest none later = do (p, rest') ← later; done (p, h ∷ rest')

-- The loop over the chain; address 0 is `null_mut()`.
pub alloc_with_options : Layout → List Header → Outcome (ℕ × List Header)
alloc_with_options l [] = done (0, [])
alloc_with_options l (h ∷ rest) =
    let later = alloc_with_options l rest in do r ← provide h l.size l.align; resume h rest r later

-- `dealloc` reads the header below the pointer. `none`: no header of the chain stands there, and
-- the behaviour of the program is undefined.
pub dealloc : ℕ → List Header → Option (List Header)
dealloc ptr [] = none
dealloc ptr (h ∷ rest) =
    let later = dealloc ptr rest in
    if h.addr + header_size == ptr
    then some (record h { is_allocated = false } ∷ rest)
    else elim later [ none ↦ none | some rest' ↦ some (h ∷ rest') ]
