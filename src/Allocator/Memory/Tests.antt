-- ===== src/Allocator/Memory/Tests.antt =====
-- A layout of `Header` in the order of its fields, little-endian, and a heap of three regions in it.
use wasabi_os.Common.{
  ℕ, zero, suc, ◌+◌, ◌-◌, ◌*◌, ◌/◌, ◌%◌, ◌^◌, ◌<◌, ◌≡◌, refl, ◌∙◌, Bool, true, false, not, none,
  List, [], ◌∷◌, arith, ltb, ◌==◌, if◌then◌else◌, done, max, All, ◌≤◌,
}
use wasabi_os.Allocator.{Header, header, Layout}
use wasabi_os.Allocator.Invariant.{IsHeap}
use wasabi_os.Allocator.Provide.{IsLayout, max_shift}
use wasabi_os.Allocator.Live.{live}
use wasabi_os.Allocator.Tests.{memory_map, memory_map-IsMemoryMap}
use wasabi_os.Allocator.Descriptor.{free_headers}
use wasabi_os.Allocator.Boxes.{IsServed, at_front, behind}
use wasabi_os.Allocator.Memory.Overlap.{Filled, fill_all-Filled}
use wasabi_os.Allocator.Memory.Init.{init_with_mmap-Chain}
use wasabi_os.Allocator.Memory.{
  Cell, cell, IsCell, HeaderLayout, Memory, store, dealloc, init_with_mmap,
}
use wasabi_os.Allocator.Memory.Bytes.{load-store, load-store_apart}
use wasabi_os.Allocator.Memory.Chain.{Chain}
use wasabi_os.Allocator.Memory.Refine.{Refined, alloc_from-Refined}
use wasabi_os.Allocator.Memory.Trace.{
  Holds, LiveAt, Step, alloc, free, write, here, later, Kept, write_byte, Reach-Kept,
}

-- The i-th byte of a word.
abbrev byte_of : ℕ → ℕ → ℕ
byte_of v zero = v % 256
byte_of v (suc i) = byte_of (v / 256) i

abbrev encode : Cell → ℕ → ℕ
encode c i =
    if ltb i 8
    then byte_of c.next i
    else if ltb i 16
    then byte_of c.size (i - 8)
    else if i == 16
    then (if c.is_allocated then 1 else 0)
    else 0

abbrev word_at : (ℕ → ℕ) → ℕ → ℕ
word_at f i =
    f i
    + f (i + 1) * 2 ^ 8
    + f (i + 2) * 2 ^ 16
    + f (i + 3) * 2 ^ 24
    + f (i + 4) * 2 ^ 32
    + f (i + 5) * 2 ^ 40
    + f (i + 6) * 2 ^ 48
    + f (i + 7) * 2 ^ 56

abbrev decode : (ℕ → ℕ) → Cell
decode f = cell (word_at f 0) (word_at f 8) (not (f 16 == 0))

word_at-byte_of : (v : ℕ) → v < 2 ^ 64 → word_at (byte_of v) 0 ≡ v
word_at-byte_of v h = omega arith

flag_back : (b : Bool) → not ((if b then 1 else 0) == 0) ≡ b
flag_back true = refl
flag_back false = refl

decode-encode : (c : Cell) → IsCell c → decode (encode c) ≡ c
decode-encode c k =
    let next = word_at-byte_of c.next k.next in
    let size = word_at-byte_of c.size k.size in let flag = flag_back c.is_allocated in cc

decode_local : (f g : ℕ → ℕ) → ((i : ℕ) → i < 32 → f i ≡ g i) → decode f ≡ decode g
decode_local f g same =
    rw
      (
        same 0 (omega arith),
        same 1 (omega arith),
        same 2 (omega arith),
        same 3 (omega arith),
        same 4 (omega arith),
        same 5 (omega arith),
        same 6 (omega arith),
        same 7 (omega arith),
        same 8 (omega arith),
        same 9 (omega arith),
        same 10 (omega arith),
        same 11 (omega arith),
        same 12 (omega arith),
        same 13 (omega arith),
        same 14 (omega arith),
        same 15 (omega arith),
        same 16 (omega arith),
      )
      refl

abbrev little_endian : HeaderLayout
little_endian = record {
  encode = encode;
  decode = decode;
  decode-encode = decode-encode;
  decode_local = decode_local;
}

-- A block of 32 bytes, one of 64 bytes, and free memory behind them.
abbrev regions : List Header
regions = header 0x1000 64 true ∷ header 0x1040 96 true ∷ header 0x10A0 0x4000 false ∷ []

abbrev blank : Memory
blank x = 0

abbrev memory : Memory
memory = store little_endian 0x1000 (cell 0x1040 64 true) (
    store little_endian 0x1040 (cell 0x10A0 96 true)
      (store little_endian 0x10A0 (cell 0 0x4000 false) blank))

regions-IsHeap : IsHeap regions
regions-IsHeap = omega arith

memory-Holds : Holds little_endian 0x1000 memory regions
memory-Holds =
    let m3 = store little_endian 0x10A0 (cell 0 0x4000 false) blank in
    let m2 = store little_endian 0x1040 (cell 0x10A0 96 true) m3 in
    let l1 = load-store little_endian 0x1000 (cell 0x1040 64 true) m2 (omega arith) in
    let l2 =
      load-store_apart little_endian 0x1000 0x1040 (cell 0x1040 64 true) m2 (omega arith)
      ∙ load-store little_endian 0x1040 (cell 0x10A0 96 true) m3 (omega arith) in
    let l3 =
      load-store_apart little_endian 0x1000 0x10A0 (cell 0x1040 64 true) m2 (omega arith)
      ∙ load-store_apart little_endian 0x1040 0x10A0 (cell 0x10A0 96 true) m3 (omega arith)
      ∙ load-store little_endian 0x10A0 (cell 0 0x4000 false) blank (omega arith) in
    record {
      heap = regions-IsHeap;
      chain = (0x1040, refl, l1, (0x10A0, refl, l2, (0, refl, l3, refl)));
    }

abbrev layout : Layout
layout = record { size = 100; align = 64 }

abbrev layout-IsLayout : IsLayout layout
layout-IsLayout = record { shift = 6; align_pow = refl; fits = omega arith }

alloc_from-Refined_example : Refined little_endian 4 layout 0x1000 regions memory
alloc_from-Refined_example =
    alloc_from-Refined little_endian layout layout-IsLayout (omega arith) regions 4 0x1000 memory
      (omega arith) regions-IsHeap memory-Holds.chain

first_block : LiveAt little_endian 0x1000 memory 0x1020 32
unfolding live
first_block = (regions, memory-Holds, refl)

second_block : LiveAt little_endian 0x1000 memory 0x1060 64
unfolding live
second_block = (regions, memory-Holds, refl)

-- A third block is allocated, and the second is freed.
abbrev grown : Memory
grown = alloc_from-Refined_example.after

allocates : (q : ℕ) → Step little_endian 0x1000 q memory grown
allocates q = alloc 4 layout layout-IsLayout (omega arith) alloc_from-Refined_example.runs

second-Kept : Kept little_endian 0x1000 0x1060 64 memory grown
second-Kept = Reach-Kept little_endian 0x1000 0x1060 64 second_block (later here (allocates 0x1060))

frees : Step little_endian 0x1000 0x1020 grown (dealloc little_endian 0x1060 grown)
frees = free 0x1060 second-Kept.0 (λ e. omega arith) refl

Reach-Kept_example : Kept little_endian 0x1000 0x1020 32 memory (dealloc little_endian 0x1060 grown)
Reach-Kept_example =
    Reach-Kept little_endian 0x1000 0x1020 32 first_block
      (later (later here (allocates 0x1020)) frees)

-- A write into the second block leaves the first as it is.
writes_run : Kept little_endian 0x1000 0x1020 32 memory (write_byte 0x1070 0xFF memory)
writes_run = Reach-Kept little_endian 0x1000 0x1020 32 first_block (
    later here
      (write 0x1060 0x1070 0xFF second_block (λ e. omega arith) (omega arith) (omega arith) refl))

init_with_mmap-Chain_example :
    (first : ℕ) × (after : Memory) × (hs : List Header) × (init_with_mmap little_endian memory_map
        (0, blank)
      ≡ done (first, after))
    × IsHeap hs
    × Chain little_endian after first hs
    × (hs ≡ free_headers memory_map)
    × ((q : ℕ) → live hs q ≡ none)
init_with_mmap-Chain_example =
    init_with_mmap-Chain little_endian memory_map blank memory_map-IsMemoryMap

served :
    {r : ℕ} (size align shift power : ℕ)
    → align ≡ 2 ^ shift
    → max align 32 ≡ 2 ^ power
    → size + align ≤ 2 ^ 63
    → shift ≤ max_shift
    → power ≤ 64
    → 0 < size
    → max 32 (2 * size) + 64 * max align 32 ≤ r
    → IsServed r (record { size = size; align = align })
served size align shift power e e' fits small le pos enough = record {
  is_layout = record { shift = shift; align_pow = e; fits = fits };
  small = small;
  power = power;
  align_pow = e';
  power_le = le;
  pos = pos;
  served = enough;
}

-- The first three layouts of the test of overlaps.
abbrev three : List Layout
three =
    record { size = 128; align = 128 }
    ∷ record { size = 32; align = 32 }
    ∷ record { size = 8; align = 8 }
    ∷ []

three-IsServed : All (IsServed 9000) three
three-IsServed = (
  served 128 128 7 7 refl refl (omega arith) (omega arith) (omega arith) (omega arith)
      (omega arith),
  (
    served 32 32 5 5 refl refl (omega arith) (omega arith) (omega arith) (omega arith)
        (omega arith),
    (
      served 8 8 3 5 refl refl (omega arith) (omega arith) (omega arith) (omega arith)
          (omega arith),
      tt,
    ),
  ),
)

fill_all-Filled_example : Filled little_endian 0x1000 10 three 0 memory
fill_all-Filled_example =
    fill_all-Filled little_endian 0x1000 9000 10 0 three regions memory (omega arith) three-IsServed
      (omega arith) memory-Holds (behind (behind (at_front refl (omega arith))))
