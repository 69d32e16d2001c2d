-- ===== src/Paging/Tests.antt =====
-- The page tables on an empty memory with boxes that are consecutive pages.
use wasabi_os.Common.{
  ℕ, zero, suc, ◌+◌, ◌*◌, ◌%◌, ◌^◌, ◌≤◌, ◌≡◌, ◌≢◌, inl, inr, refl, List, [], ◌∷◌, All, All-imp,
  arith, length,
}
use wasabi_os.Paging.{Machine, new_pml4, read_write_io, read_write_kernel, ok, err, create_mapping}
use wasabi_os.Paging.Walk.{Owner, unused, AllFree}
use wasabi_os.Paging.NewTable.{IsFresh, Started, new_pml4_lem}
use wasabi_os.Paging.Supply.{cost}
use wasabi_os.Paging.Mapping.{MapsRange, create_mapping-MapsRange, create_mapping_err}

-- n pages from b on.
pub pages : ℕ → ℕ → List ℕ
pages zero b = []
pages (suc n) b = b ∷ pages n (b + 4096)

pub length-pages : (n b : ℕ) → length (pages n b) ≡ n
unfolding pages
length-pages zero b = refl
length-pages (suc n) b = omega (arith, length-pages n (b + 4096))

pages-above : (n b : ℕ) → All (λ c. b ≤ c) (pages n b)
unfolding pages
pages-above zero b = tt
pages-above (suc n) b = (
  omega arith,
  All-imp (λ c. b + 4096 ≤ c) (λ c. b ≤ c) (pages n (b + 4096)) (λ c h. omega arith)
      (pages-above n (b + 4096)),
)

pages-AllFree : (n b : ℕ) → b % 4096 ≡ 0 → b + n * 4096 ≤ 2 ^ 64 → AllFree (λ _. unused) (pages n b)
unfolding pages
pages-AllFree zero b a h = tt
pages-AllFree (suc n) b a h = (
  record { aligned = a; in_range = omega arith; free = refl },
  All-imp (λ c. b + 4096 ≤ c) (λ c. c ≢ b) (pages n (b + 4096)) (λ c h' e. omega arith)
      (pages-above n (b + 4096)),
  pages-AllFree n (b + 4096) (omega arith) (omega arith),
)

-- Memory of zeroes with n free pages from b on.
abbrev pub empty_machine : ℕ → ℕ → Machine
empty_machine n b = record { entry = λ t i. 0; boxes = pages n b }

pub empty_machine-IsFresh :
    (n b : ℕ) → b % 4096 ≡ 0 → b + n * 4096 ≤ 2 ^ 64 → IsFresh (empty_machine n b)
empty_machine-IsFresh n b a h = record { word = λ t i. omega arith; boxes = pages-AllFree n b a h }

-- A tree with 20 pages left, and its root.
fresh_start :
    (root : ℕ) × (m' : Machine) × (own' : ℕ → Owner) × (new_pml4 (empty_machine 21 0x1000)
      ≡ ok root m')
    × Started root (empty_machine 21 0x1000) m' own'
fresh_start =
    new_pml4_lem (empty_machine 21 0x1000)
      (empty_machine-IsFresh 21 0x1000 (omega arith) (omega arith))
      (omega (arith, length-pages 21 0x1000))

abbrev start_root : ℕ
start_root = fresh_start.0

abbrev start_machine : Machine
start_machine = fresh_start.1

start_machine-length : length start_machine.boxes ≡ 20
start_machine-length = let s = fresh_start.4 in omega (arith, s.boxes, length-pages 21 0x1000)

-- Two pages of a device, across a span of 2 MiB.
create_mapping-MapsRange_example :
    (m' : Machine) × (own' : ℕ → Owner) × (create_mapping start_root 0x1FF000 0x201000 0xFED0_0000
        read_write_io start_machine
      ≡ ok tt m')
    × MapsRange start_root 0x1FF000 0x201000 0x1FF000 0xFED0_0000 read_write_io
        (cost 0x1FF000 0x201000)
        start_machine
        m'
        own'
create_mapping-MapsRange_example =
    create_mapping-MapsRange 0x1FF000 0x201000 0xFED0_0000 read_write_io fresh_start.4.tree
      (omega arith) (omega arith) (omega arith) (omega arith) (omega arith) (omega arith)
      (omega (arith, start_machine-length))

create_mapping_err_run :
    create_mapping 0x1000 0x2000 0x2801 0 read_write_kernel (empty_machine 0 0)
    ≡ err "Invalid virt_end" (empty_machine 0 0)
create_mapping_err_run =
    create_mapping_err 0x1000 0x2000 0x2801 0 read_write_kernel (empty_machine 0 0)
      (inr (inl (λ e. omega arith)))
