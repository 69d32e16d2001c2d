-- ===== src/Init/Memory.antt =====
-- What init.rs computes from the memory map: the end of memory and the total of the free pages.
use wasabi_os.Common.{
  ℕ, ◌+◌, ◌*◌, ◌/◌, ◌%◌, ◌^◌, ◌<◌, ◌≤◌, ◌≡◌, refl, ap, ◌∙◌, lt→ltb, true, Bool-cases, inl, inr,
  List, [], ◌∷◌, done, arith, All, max, if◌then◌else◌,
}
use wasabi_os.Uefi.{EfiMemoryDescriptor}
use wasabi_os.Allocator.Descriptor.{IsPaged, is_conventional}
use wasabi_os.Init.{is_mapped, end_of, end_of_mem, sum_pages, init_allocator}

-- The end of a descriptor.
abbrev pub upper : EfiMemoryDescriptor → ℕ
upper e = e.physical_start + e.number_of_pages * 4096

-- The descriptors that `init_paging` looks at end in the first 2^48 bytes.
abbrev pub IsInRange : EfiMemoryDescriptor → Type 0
IsInRange e = IsPaged e × (is_mapped e.memory_type ≡ true → upper e ≤ 2 ^ 48)

end_of_lem : (e : EfiMemoryDescriptor) → IsPaged e → end_of e ≡ done (upper e)
unfolding end_of
end_of_lem e p = let h = p.in_range in ground arith

-- The end of memory is a page boundary that no smaller than the first value and than each end.
pub record IsEnd (high : ℕ) (es : List EfiMemoryDescriptor) (top : ℕ) : Type 0 where
  pub runs : end_of_mem high es ≡ done top
  pub above : high ≤ top
  pub aligned : top % 4096 ≡ 0
  pub small : top ≤ 2 ^ 48
  pub covered : All (λ e. is_mapped e.memory_type ≡ true → upper e ≤ top) es

pub memory-IsEnd :
    (es : List EfiMemoryDescriptor) (high : ℕ)
    → high % 4096 ≡ 0
    → high ≤ 2 ^ 48
    → All IsInRange es
    → (top : ℕ) × IsEnd high es top
unfolding end_of_mem
memory-IsEnd [] high a s ok =
    (high, record { runs = refl; above = omega arith; aligned = a; small = s; covered = tt })
memory-IsEnd (e ∷ es) high a s ok = elim (Bool-cases (is_mapped e.memory_type)) [
  | inl looked ↦
      let start_aligned = ok.0.0.start_aligned in
      let here = ok.0.1 looked in
      let (top, rest) = memory-IsEnd es (max high (upper e)) (grind arith) (omega arith) ok.1 in
      (
        top,
        record {
          runs = rw (looked, end_of_lem e ok.0.0) rest.runs;
          above = omega (arith, rest.above);
          aligned = rest.aligned;
          small = rest.small;
          covered = (λ _. omega (arith, rest.above), rest.covered);
        },
      )
  | inr passed ↦
      let (top, rest) = memory-IsEnd es high a s ok.1 in
      (
        top,
        record {
          runs = rw passed rest.runs;
          above = rest.above;
          aligned = rest.aligned;
          small = rest.small;
          covered = (λ looked. absurd (cc), rest.covered);
        },
      )
]

-- What the loop computes is such an end.
pub IsEnd-unique :
    (es : List EfiMemoryDescriptor) (high top : ℕ)
    → high % 4096 ≡ 0
    → high ≤ 2 ^ 48
    → All IsInRange es
    → end_of_mem high es ≡ done top
    → IsEnd high es top
IsEnd-unique es high top a s ok computed =
    let (top', end) = memory-IsEnd es high a s ok in
    let e : top' ≡ top = cc (end.runs, computed) in rw e at end

-- The free pages of a memory map.
unfoldable pub free_pages : List EfiMemoryDescriptor → ℕ
free_pages [] = 0
free_pages (e ∷ es) =
    (if is_conventional e.memory_type then e.number_of_pages else 0) + free_pages es

sum_pages_lem :
    (es : List EfiMemoryDescriptor) (pages : ℕ)
    → pages + free_pages es < 2 ^ 64
    → sum_pages pages es ≡ done (pages + free_pages es)
unfolding sum_pages free_pages
sum_pages_lem [] pages h = ap done (omega arith)
sum_pages_lem (e ∷ es) pages h = elim (Bool-cases (is_conventional e.memory_type)) [
  | inl free ↦
      let h' = rw free at h in
      let fits : pages + e.number_of_pages < 2 ^ 64 = omega arith in
      let rest = sum_pages_lem es (pages + e.number_of_pages) (omega arith) in
      rw (free, lt→ltb (pages + e.number_of_pages) (2 ^ 64) fits) (rest ∙ ap done (omega arith))
  | inr other ↦
      rw other
        (sum_pages_lem es pages (let h' = rw other at h in omega arith) ∙ ap done (omega arith))
]

-- If the bytes of the free memory fit in 64 bits, `init_allocator` reports the number of free pages
-- and the whole MiB that they make.
pub init_allocator_lem :
    (es : List EfiMemoryDescriptor)
    → free_pages es * 4096 < 2 ^ 64
    → init_allocator es ≡ done (free_pages es, free_pages es / 256)
unfolding init_allocator
init_allocator_lem es h =
    let z : 0 + free_pages es ≡ free_pages es = omega arith in
    let e : free_pages es * 4096 / 1024 / 1024 ≡ free_pages es / 256 = omega arith in
    rw (sum_pages_lem es 0 (omega arith), z, lt→ltb (free_pages es * 4096) (2 ^ 64) h, e)
