-- ===== src/Allocator/Memory.antt =====
-- allocator.rs in memory: the headers stand in the bytes that they describe, linked by
-- `next_header`, and the functions change them statement by statement. How the compiler lays a
-- `Header` out in its 32 bytes is a parameter. A null pointer is 0.
pub mod Blocks
pub mod Bytes
pub mod Carve
pub mod Chain
pub mod Free
pub mod Init
pub mod Overlap
pub mod Provide
pub mod Refine
pub mod Trace
pub mod Writes
mod Tests
use wasabi_os.Common.{
  ℕ, zero, suc, ◌+◌, ◌-◌, ◌*◌, ◌^◌, ◌<◌, ◌≡◌, max, bit_and, Bool, true, false, Option, none, some,
  List, [], ◌∷◌, Result, ok, err, Outcome, done, panic, ◌>>=◌, ◌>>◌, assert, checked_add,
  checked_sub, checked_mul, leb, ltb, ◌==◌, ◌&&◌, if◌then◌else◌,
}
use wasabi_os.Uefi.{EfiMemoryDescriptor}
use wasabi_os.Allocator.{
  Header, header, header_size, can_provide, end_addr, round_up_to_nearest_pow2, Layout,
}
use wasabi_os.Allocator.Descriptor.{is_conventional}

-- What the bytes of a header say: `next_header`, `size` and `is_allocated`.
pub record Cell : Type 0 where
  pub next : ℕ
  pub size : ℕ
  pub is_allocated : Bool

abbrev pub cell : ℕ → ℕ → Bool → Cell
cell n s b = record { next = n; size = s; is_allocated = b }

pub record IsCell (c : Cell) : Type 0 where
  pub next : c.next < 2 ^ 64
  pub size : c.size < 2 ^ 64

-- The layout of `Header`: what is written into its 32 bytes is read back from them.
pub record HeaderLayout : Type 0 where
  pub encode : Cell → ℕ → ℕ
  pub decode : (ℕ → ℕ) → Cell
  pub decode-encode : (c : Cell) → IsCell c → decode (encode c) ≡ c
  pub decode_local : (f g : ℕ → ℕ) → ((i : ℕ) → i < 32 → f i ≡ g i) → decode f ≡ decode g

abbrev pub Memory : Type 0
Memory = ℕ → ℕ

module _ (layout : HeaderLayout) where
  pub load : ℕ → Memory → Cell
  load a m = layout.decode (λ i. m (a + i))

  pub store : ℕ → Cell → Memory → Memory
  store a c m x = if leb a x && ltb x (a + header_size) then layout.encode c (x - a) else m x

  -- The header at an address.
  abbrev pub header_at : ℕ → Memory → Header
  header_at a m = header a (load a m).size (load a m).is_allocated

  -- `Header::new_from_addr`.
  abbrev pub write_new : ℕ → Memory → Memory
  write_new a m = store a (cell 0 0 false) m

  abbrev pub set_size : ℕ → ℕ → Memory → Memory
  set_size a size m = store a (record (load a m) { size = size }) m

  abbrev pub set_allocated : ℕ → Bool → Memory → Memory
  set_allocated a b m = store a (record (load a m) { is_allocated = b }) m

  abbrev pub set_next : ℕ → ℕ → Memory → Memory
  set_next a next m = store a (record (load a m) { next = next }) m

  -- `to.next_header = from.next_header.take()`.
  abbrev pub take_next : ℕ → ℕ → Memory → Memory
  take_next from to m = set_next to (load from m).next (set_next from 0 m)

  -- The end of `Header::provide`: the header at `a` shrinks, and the one at `at` follows it.
  pub settle : ℕ → ℕ → ℕ → ℕ → Memory → Outcome (Option ℕ × Memory)
  settle a size_used at allocated_addr m = do
    least ← checked_add size_used header_size
    assert (leb least (load a m).size)
    rest ← checked_sub (load a m).size size_used
    done (some allocated_addr, set_next a at (set_size a rest m))

  -- `header_for_allocated`, with the rest of the chain behind it.
  abbrev pub write_allocated : ℕ → ℕ → ℕ → Memory → Memory
  write_allocated a at total m =
      take_next a at (set_size at total (set_allocated at true (write_new at m)))

  -- `header_for_padding`, between `header_for_allocated` and the rest of the chain.
  abbrev pub write_padding : ℕ → ℕ → ℕ → Memory → Memory
  write_padding at pad size m =
      set_next at pad
        (take_next at pad (set_size pad size (set_allocated pad false (write_new pad m))))

  -- From the comparison of the two ends on: the padding, if there is any, and the end of `provide`.
  pub pad_and_settle : ℕ → ℕ → ℕ → ℕ → Memory → Outcome (Option ℕ × Memory)
  unfolding end_addr
  pad_and_settle a total at allocated_addr m = do
    allocated_end ← end_addr (header_at at m)
    end ← end_addr (header_at a m)
    if allocated_end == end then settle a total at allocated_addr m else do
      pad ← checked_sub end allocated_end
      used ← checked_add total pad
      settle a used at allocated_addr (write_padding at allocated_end pad m)

  -- The branch of `Header::provide` that carves the request from the end of the region at `a`.
  pub carve : ℕ → ℕ → ℕ → Memory → Outcome (Option ℕ × Memory)
  unfolding end_addr
  carve a size align m = do
    end ← end_addr (header_at a m)
    top ← checked_sub end size
    low ← checked_sub align 1
    let allocated_addr = bit_and top (2 ^ 64 - 1 - low)
    at ← checked_sub allocated_addr header_size
    total ← checked_add size header_size
    pad_and_settle a total at allocated_addr (write_allocated a at total m)

  -- The guard of `Header::provide`, for the adjusted size and alignment.
  pub try_carve : ℕ → ℕ → ℕ → Memory → Outcome (Option ℕ × Memory)
  try_carve a size align m = if (load a m).is_allocated then done (none, m) else do
    fits ← can_provide (header_at a m) size align
    if fits then carve a size align m else done (none, m)

  -- `Header::provide` of the header at `a`.
  pub provide : ℕ → ℕ → ℕ → Memory → Outcome (Option ℕ × Memory)
  provide a size align m = elim (round_up_to_nearest_pow2 size) [
    | err _ ↦ done (none, m)
    | ok rounded ↦ try_carve a (max rounded header_size) (max align header_size) m
  ]

  -- What the loop does with the answer of one header.
  abbrev pub after_provide :
      ℕ
      → Option ℕ × Memory
      → (ℕ → Memory → Outcome (Option (ℕ × Memory)))
      → Outcome (Option (ℕ × Memory))
  after_provide a (some p, m) later = done (some (p, m))
  after_provide a (none, m) later = later (load a m).next m

  -- The loop of `alloc_with_options` from the header at `a` on, over at most `fuel` headers; `none`
  -- says that the fuel is used up.
  pub alloc_from : ℕ → Layout → ℕ → Memory → Outcome (Option (ℕ × Memory))
  alloc_from zero l a m = done none
  alloc_from (suc fuel) l a m =
      let later =
        provide a l.size l.align m >>= λ r. after_provide a r (λ b m'. alloc_from fuel l b m') in
      if a == 0 then done (some (0, m)) else later

  -- `dealloc`: `from_allocated_region` finds the header below the pointer.
  pub dealloc : ℕ → Memory → Memory
  dealloc ptr m = set_allocated (ptr - header_size) false m

  -- `add_free_from_descriptor`: from `first_header` to the new one.
  pub add_free : EfiMemoryDescriptor → ℕ × Memory → Outcome (ℕ × Memory)
  add_free desc (first_header, m) = do
    bytes ← checked_mul desc.number_of_pages 4096
    let at_zero = desc.physical_start == 0
    let start_addr = if at_zero then 4096 else desc.physical_start
    let size = if at_zero then bytes - 4096 else bytes
    if leb size 4096
        then done (first_header, m)
        else done (
          start_addr,
          set_next start_addr first_header (
              set_size start_addr size
                (set_allocated start_addr false (set_next start_addr 0 (write_new start_addr m)))),
        )

  -- `init_with_mmap`, on the descriptors of the memory map.
  pub init_with_mmap : List EfiMemoryDescriptor → ℕ × Memory → Outcome (ℕ × Memory)
  init_with_mmap [] s = done s
  init_with_mmap (e ∷ es) s =
      if is_conventional e.memory_type
      then (do s' ← add_free e s; init_with_mmap es s')
      else init_with_mmap es s
