-- ===== src/Paging/NewTable.antt =====
-- `PML4::new` of x86.rs: the first table.
use mathlib.Core.Path.{subst}
use wasabi_os.Common.{ℕ, ◌^◌, ◌<◌, ◌≡◌, none, List, ◌∷◌, arith, length, ◌+◌}
use wasabi_os.Paging.{Machine, ok, zeroed, take_root, new_pml4}
use wasabi_os.Paging.Walk.{step, walk, Owner, unused, pml4, AllFree, IsTree}
use wasabi_os.Paging.Populate.{owned, AllFree-owned}
use wasabi_os.Paging.Descend.{length-pos}

-- Before the first table: memory of 64-bit words, and boxes that are pages.
pub record IsFresh (m : Machine) : Type 0 where
  pub word : (t i : ℕ) → m.entry t i < 2 ^ 64
  pub boxes : AllFree (λ _. unused) m.boxes

pub record Started (root : ℕ) (m m' : Machine) (own' : ℕ → Owner) : Type 0 where
  pub tree : IsTree root m' own'
  pub walks : (a : ℕ) → walk m'.entry root a ≡ none
  pub boxes : length m.boxes ≡ length m'.boxes + 1

module _ (entry : ℕ → ℕ → ℕ) (b : ℕ) (bs : List ℕ) (word : (t i : ℕ) → entry t i < 2 ^ 64)
    (free : AllFree (λ _. unused) (b ∷ bs)) where
  abbrev own' : ℕ → Owner
  own' = owned (λ _. unused) b pml4

  first-IsTree : IsTree b (record { entry = zeroed entry b; boxes = bs }) own'
  unfolding zeroed
  first-IsTree = record {
    at_root = ground arith;
    child = λ t i in_tree there. ground arith;
    word = λ t i. ground (arith, word t i);
    boxes = AllFree-owned (λ _. unused) b pml4 bs free.1 free.2;
  }

  first-walks : (a : ℕ) → walk (zeroed entry b) b a ≡ none
  unfolding walk step zeroed
  first-walks a = ground arith

  started :
      Started b
        (record { entry = entry; boxes = b ∷ bs })
        (record { entry = zeroed entry b; boxes = bs })
        own'
  started = record { tree = first-IsTree; walks = first-walks; boxes = omega arith }

-- With a box left, `PML4::new` makes a tree that maps no address.
pub new_pml4_lem :
    (m : Machine)
    → IsFresh m
    → 0 < length m.boxes
    → (root : ℕ) × (m' : Machine) × (own' : ℕ → Owner) × (new_pml4 m ≡ ok root m')
      × Started root m m' own'
unfolding new_pml4 take_root
new_pml4_lem m fresh h =
    let (b, bs, next) = length-pos m.boxes h in
    let free = subst (AllFree (λ _. unused)) next fresh.boxes in
    let s = started m.entry b bs fresh.word free in
    (b, _, _, rw next, record { tree = s.tree; walks = s.walks; boxes = rw next s.boxes })
