-- ===== src/Paging.antt =====
-- x86.rs, the page tables: `Entry`, `Table` and `PML4::create_mapping`. Tables live at physical
-- addresses; the memory maps a table's address and an index to the 64-bit entry there. `Box::new`
-- hands out the addresses of a list, which stands for the global allocator; with none left,
-- `handle_alloc_error` ends the program.
pub mod Descend
pub mod Entry
pub mod MapPage
pub mod Mapping
pub mod NewTable
pub mod Populate
pub mod Round
pub mod SetPage
pub mod Supply
pub mod Tests
pub mod Walk
use wasabi_os.Common.{
  ℕ, zero, suc, ◌+◌, ◌-◌, ◌/◌, ◌^◌, bit_and, bit_or, Bool, true, false, not, String, List, [], ◌∷◌,
  ltb, ◌==◌, ◌&&◌, if◌then◌else◌,
}

abbrev pub page_size : ℕ
page_size = 4096

abbrev pub attr_mask : ℕ
attr_mask = 0xFFF

pub data PageAttr : Type 0 where
  not_present read_write_kernel read_write_io : PageAttr

-- The values are those of the enum: present 1, writable 2, write through 8, cache disable 16.
abbrev pub attr_value : PageAttr → ℕ
attr_value not_present = 0
attr_value read_write_kernel = bit_or 1 2
attr_value read_write_io = bit_or (bit_or (bit_or 1 2) 8) 16

pub record Machine : Type 0 where
  pub entry : ℕ → ℕ → ℕ
  pub boxes : List ℕ

-- How a call ends: with a value, with the error that `?` passes on, or with the end of the program.
pub data Run (A : Type 0) : Type 0 where
  ok : A → Machine → Run A
  err : String → Machine → Run A
  panic : Run A

abbrev pub Cmd : Type 0 → Type 0
Cmd A = Machine → Run A

abbrev pub pure : {A : Type 0} → A → Cmd A
pure = ok

abbrev pub fail : {A : Type 0} → String → Cmd A
fail = err

abbrev pub and_then : {A B : Type 0} → Run A → (A → Cmd B) → Run B
and_then (ok a m) k = k a m
and_then (err e m) k = err e m
and_then panic k = panic

infixl 5 ◌>>=◌ ◌>>◌
abbrev pub ◌>>=◌ : {A B : Type 0} → Cmd A → (A → Cmd B) → Cmd B
m >>= k = λ h. and_then (m h) k

abbrev pub ◌>>◌ : {A B : Type 0} → Cmd A → Cmd B → Cmd B
m >> k = m >>= λ _. k

pub is_present : ℕ → Bool
is_present value = not (bit_and value 1 == 0)

-- The write of one entry.
unfoldable pub store : (ℕ → ℕ → ℕ) → ℕ → ℕ → ℕ → ℕ → ℕ → ℕ
store entry t i value s j = if s == t && j == i then value else entry s j

-- A box of zeroes, as `MaybeUninit::zeroed` makes it.
unfoldable pub zeroed : (ℕ → ℕ → ℕ) → ℕ → ℕ → ℕ → ℕ
zeroed entry b s j = if s == b then 0 else entry s j

-- `Entry::table_mut` of the entry i of the table t.
pub table_mut : ℕ → ℕ → Cmd ℕ
table_mut t i m =
    if is_present (m.entry t i)
    then ok (bit_and (m.entry t i) (2 ^ 64 - 1 - attr_mask)) m
    else err "Page Not Fount" m

pub set_page : ℕ → ℕ → ℕ → PageAttr → Cmd (Unit {0})
set_page t i phys attr m =
    if bit_and phys attr_mask == 0
    then ok tt (record m { entry = store m.entry t i (bit_or phys (attr_value attr)) })
    else err "phys is not aligned" m

-- The box that `populate` takes for the entry i of the table t.
take_box : ℕ → ℕ → (ℕ → ℕ → ℕ) → List ℕ → Run (Unit {0})
take_box t i entry [] = panic
take_box t i entry (b ∷ rest) = ok tt (record {
  entry = store (zeroed entry b) t i (bit_or b (attr_value read_write_kernel));
  boxes = rest;
})

pub populate : ℕ → ℕ → Cmd (Unit {0})
populate t i m =
    if is_present (m.entry t i)
    then err "Page is already populated" m
    else take_box t i m.entry m.boxes

pub ensure_populated : ℕ → ℕ → Cmd (Unit {0})
ensure_populated t i m = if is_present (m.entry t i) then ok tt m else populate t i m

take_root : (ℕ → ℕ → ℕ) → List ℕ → Run ℕ
take_root entry [] = panic
take_root entry (b ∷ rest) = ok b (record { entry = zeroed entry b; boxes = rest })

-- `PML4::new`.
pub new_pml4 : Cmd ℕ
new_pml4 m = take_root m.entry m.boxes

-- `Table<LEVEL, SHIFT, NEXT>::calc_index`.
pub calc_index : ℕ → ℕ → ℕ
calc_index shift addr = bit_and (addr / 2 ^ shift) 0b1_1111_1111

-- `self.entry[index].ensure_populated()?.table_mut()?`.
pub descend : ℕ → ℕ → Cmd ℕ
descend t index = do ensure_populated t index; table_mut t index

-- `phys + addr - virt_start`, with the overflow check of `+`.
abbrev offset_phys : ℕ → ℕ → ℕ → Cmd ℕ
offset_phys phys addr virt_start m =
    if ltb (phys + addr) (2 ^ 64) then ok (phys + addr - virt_start) m else panic

-- One round of the loop of `create_mapping`.
pub map_page : ℕ → ℕ → ℕ → ℕ → PageAttr → Cmd (Unit {0})
map_page root addr virt_start phys attr = do
  pdpt ← descend root (calc_index 39 addr)
  pd ← descend pdpt (calc_index 30 addr)
  pt ← descend pd (calc_index 21 addr)
  page ← offset_phys phys addr virt_start
  set_page pt (calc_index 12 addr) page attr

pub map_pages : ℕ → ℕ → ℕ → ℕ → ℕ → PageAttr → Cmd (Unit {0})
map_pages zero root addr virt_start phys attr = pure tt
map_pages (suc n) root addr virt_start phys attr = do
  map_page root addr virt_start phys attr
  map_pages n root (addr + page_size) virt_start phys attr

-- The rounds of `(virt_start..virt_end).step_by(PAGE_SIZE)`.
abbrev pub rounds : ℕ → ℕ → ℕ
rounds virt_start virt_end = (virt_end - virt_start + (page_size - 1)) / page_size

pub create_mapping : ℕ → ℕ → ℕ → ℕ → PageAttr → Cmd (Unit {0})
create_mapping root virt_start virt_end phys attr =
    if not (bit_and virt_start attr_mask == 0)
    then fail "Invalid virt_start"
    else if not (bit_and virt_end attr_mask == 0)
    then fail "Invalid virt_end"
    else if not (bit_and phys attr_mask == 0)
    then fail "Invalid phys"
    else map_pages (rounds virt_start virt_end) root virt_start virt_start phys attr
