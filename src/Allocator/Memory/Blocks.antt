-- ===== src/Allocator/Memory/Blocks.antt =====
-- The unit test allocated_objects_have_no_overlap of allocator.rs, on the bytes of memory: each block is
-- filled with its number, and all are read again.
use wasabi_os.Common.{
  ℕ, zero, suc, ◌+◌, ◌%◌, ◌≤◌, ◌<◌, ◌≡◌, ◌⊎◌, refl, Bool, true, ◌&&◌, Option, none, some, List, [],
  ◌∷◌, Outcome, done, panic, ◌>>=◌, arith, ◌==◌, if◌then◌else◌,
}
use wasabi_os.Allocator.{Layout}
use wasabi_os.Allocator.Memory.{HeaderLayout, Memory, alloc_from}
use wasabi_os.Allocator.Memory.Trace.{write_byte}

-- `*pointer.add(k) = v` for the first n bytes.
unfoldable pub fill : ℕ → ℕ → ℕ → Memory → Memory
fill zero p v m = m
fill (suc n) p v m = write_byte (p + n) v (fill n p v m)

-- The assertions on the first n bytes.
unfoldable pub check : ℕ → ℕ → ℕ → Memory → Bool
check zero p v m = true
check (suc n) p v m = check n p v m && m (p + n) == v

-- The loop that reads, from the i-th block on.
unfoldable pub check_all : List (Layout × ℕ) → ℕ → Memory → Bool
check_all [] i m = true
check_all ((l, p) ∷ ps) i m = check l.size p (i % 256) m && check_all ps (i + 1) m

abbrev with_pointer :
    Layout × ℕ → Option (List (Layout × ℕ) × Memory) → Option (List (Layout × ℕ) × Memory)
with_pointer block none = none
with_pointer block (some (ps, m)) = some (block ∷ ps, m)

-- The rest of a round; a write behind the null pointer ends the program.
abbrev fill_block :
    Layout
    → ℕ
    → Option (ℕ × Memory)
    → (Memory → Outcome (Option (List (Layout × ℕ) × Memory)))
    → Outcome (Option (List (Layout × ℕ) × Memory))
fill_block l i none rest = done none
fill_block l i (some (p, m)) rest =
    if p == 0 then panic else rest (fill l.size p (i % 256) m) >>= λ r. done (with_pointer (l, p) r)

module _ (layout : HeaderLayout) (first : ℕ) where
  -- The loop that allocates and fills, from the i-th layout on.
  unfoldable pub fill_all :
      ℕ → List Layout → ℕ → Memory → Outcome (Option (List (Layout × ℕ) × Memory))
  fill_all fuel [] i m = done (some ([], m))
  fill_all fuel (l ∷ ls) i m =
      alloc_from layout fuel l first m >>= λ r. fill_block l i r (fill_all fuel ls (i + 1))

pub fill_lem :
    (n p v x : ℕ) (m : Memory)
    → (p ≤ x → x < p + n → fill n p v m x ≡ v) × ((x < p) ⊎ (p + n ≤ x) → fill n p v m x ≡ m x)
unfolding fill
fill_lem zero p v x m = (λ lo hi. absurd (omega arith), λ out. refl)
fill_lem (suc n) p v x m =
    let (inside, outside) = fill_lem n p v x m in (λ lo hi. ground arith, λ out. ground arith)

pub check_lem :
    (n p v : ℕ) (m : Memory) → ((x : ℕ) → p ≤ x → x < p + n → m x ≡ v) → check n p v m ≡ true
unfolding check
check_lem zero p v m same = refl
check_lem (suc n) p v m same =
    let before = check_lem n p v m (λ x lo hi. same x lo (omega arith)) in
    let last = same (p + n) (omega arith) (omega arith) in ground arith
