-- ===== src/Init/Tables.antt =====
-- `init_paging` of init.rs: the translation that the kernel runs on.
use wasabi_os.Common.{
  ℕ, ◌+◌, ◌*◌, ◌/◌, ◌^◌, ◌<◌, ◌≤◌, ◌≡◌, Option, none, some, List, Outcome, done, arith, All, length,
  if◌then◌else◌, ltb,
}
use wasabi_os.Uefi.{EfiMemoryDescriptor}
use wasabi_os.Paging.{
  Machine, not_present, read_write_kernel, Run, Cmd, ok, err, ◌>>=◌, ◌>>◌, new_pml4, create_mapping,
}
use wasabi_os.Paging.Walk.{walk}
use wasabi_os.Paging.NewTable.{IsFresh, new_pml4_lem}
use wasabi_os.Paging.Mapping.{covers, target, create_mapping-MapsRange}
use wasabi_os.Paging.SetPage.{leaf}
use wasabi_os.Paging.Supply.{cost}
use wasabi_os.Init.{end_of_mem}
use wasabi_os.Init.Memory.{IsInRange, IsEnd, IsEnd-unique}

-- `expect`.
abbrev expect : {A : Type 0} → Run A → Run A
expect (ok a m) = ok a m
expect (err e m) = Run.panic
expect Run.panic = Run.panic

abbrev lift_outcome : {A : Type 0} → Outcome A → Cmd A
lift_outcome (done a) m = ok a m
lift_outcome Outcome.panic m = Run.panic

-- The value is the address that `write_cr3` gets.
pub init_paging : List EfiMemoryDescriptor → Cmd ℕ
init_paging es = do
  root ← new_pml4
  high ← lift_outcome (end_of_mem 0x1_0000_0000 es)
  (λ h. expect (create_mapping root 0 high 0 read_write_kernel h))
  (λ h. expect (create_mapping root 0 4096 0 not_present h))
  ok root

-- What the kernel's tables do with an address, when memory ends at `top`.
abbrev pub identity : ℕ → ℕ → Option ℕ
identity top a = if ltb a 4096 then none else if ltb a top then some (a / 4096 * 4096 + 3) else none

walks-init :
    (top a : ℕ) (none_yet before after : Option ℕ)
    → 0x1_0000_0000 ≤ top
    → none_yet ≡ none
    → before ≡ (if covers 0 top a then leaf (target 0 0 a) read_write_kernel else none_yet)
    → after ≡ (if covers 0 4096 a then leaf (target 0 0 a) not_present else before)
    → after ≡ identity top a
walks-init top a none_yet before after le e0 e1 e2 = ground (arith, e0, e1, e2)

-- With memory for the tables, `init_paging` succeeds on a memory map of paged descriptors below
-- 2^48, for which its loop computes `top`. The tables then map every page from 4096 up to `top` to
-- itself, present and writable, and nothing else below 2^48: page 0 is not mapped. `top` is at least
-- 4 GiB, and at least the end of every descriptor of conventional or loader memory.
pub init_paging-identity :
    (es : List EfiMemoryDescriptor) (m : Machine) (top : ℕ)
    → IsFresh m
    → All IsInRange es
    → end_of_mem 0x1_0000_0000 es ≡ done top
    → cost 0 top + 7 ≤ length m.boxes
    → (root : ℕ) × (m' : Machine) × (init_paging es m ≡ ok root m')
      × IsEnd 0x1_0000_0000 es top
      × ((a : ℕ) → a < 2 ^ 48 → walk m'.entry root a ≡ identity top a)
unfolding init_paging
init_paging-identity es m top fresh in_range computed enough =
    let (root, m0, own0, run0, first) = new_pml4_lem m fresh (omega arith) in
    let end = IsEnd-unique es 0x1_0000_0000 top (omega arith) (omega arith) in_range computed in
    let (m1, own1, run1, all) =
      create_mapping-MapsRange 0 top 0 read_write_kernel first.tree (omega arith) end.small
        (omega arith) end.aligned (omega arith) (omega (arith, end.small))
        (omega (arith, first.boxes)) in
    let (m2, own2, run2, page0) =
      create_mapping-MapsRange 0 4096 0 not_present all.tree (omega arith) (omega arith)
        (omega arith) (omega arith) (omega arith) (omega arith)
        (omega (arith, first.boxes, all.boxes)) in
    (
      root,
      m2,
      rw (run0, end.runs, run1, run2),
      end,
      λ a lt. walks-init top a _ _ _ end.above (first.walks a) (all.walks a lt) (page0.walks a lt),
    )
