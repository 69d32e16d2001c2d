-- ===== src/Paging/Walk.antt =====
-- What the processor makes of the tables: an arithmetic description of the four-level walk, and the
-- shape of the tables that it relies on.
use wasabi_os.Common.{
  ℕ, ◌*◌, ◌/◌, ◌%◌, ◌^◌, ◌<◌, ◌≡◌, ◌≢◌, Bool, true, false, Option, none, some, List, [], ◌∷◌, All,
  ◌==◌, if◌then◌else◌,
}
use wasabi_os.Paging.{Machine}

-- Bit 0 of an entry, and the address in its bits 12 to 63.
abbrev pub present : ℕ → Bool
present v = v % 2 == 1

abbrev pub base : ℕ → ℕ
base v = v / 4096 * 4096

-- The index of an address for the tables whose entries span 2^shift bytes.
abbrev pub index : ℕ → ℕ → ℕ
index shift a = a / 2 ^ shift % 512

unfoldable pub look : (ℕ → ℕ → ℕ) → ℕ → ℕ → Option ℕ
look entry t i = if present (entry t i) then some (entry t i) else none

abbrev pub bind : Option ℕ → (ℕ → Option ℕ) → Option ℕ
bind none k = none
bind (some v) k = k v

unfoldable pub step : (ℕ → ℕ → ℕ) → ℕ → ℕ → Option ℕ
step entry t i = if present (entry t i) then some (base (entry t i)) else none

-- The entry of the page that an address lies on, if the address is mapped.
unfoldable pub walk : (ℕ → ℕ → ℕ) → ℕ → ℕ → Option ℕ
walk entry root a = bind (step entry root (index 39 a)) λ pdpt.
    bind (step entry pdpt (index 30 a))
      λ pd. bind (step entry pd (index 21 a)) λ pt. look entry pt (index 12 a)

-- What a table is for: the root, or the table behind the entries with the given indices.
pub data Owner : Type 0 where
  unused : Owner
  pml4 : Owner
  pdpt : ℕ → Owner
  pd : ℕ → ℕ → Owner
  pt : ℕ → ℕ → ℕ → Owner

-- The table behind entry i.
abbrev pub child_of : Owner → ℕ → Owner
child_of unused i = unused
child_of pml4 i = pdpt i
child_of (pdpt j) i = pd j i
child_of (pd k j) i = pt k j i
child_of (pt l k j) i = unused

-- The tables whose entries lead to tables.
abbrev pub inner : Owner → Bool
inner unused = false
inner pml4 = true
inner (pdpt j) = true
inner (pd k j) = true
inner (pt l k j) = false

-- An address that `Box::new` may still hand out.
pub record IsFree (own : ℕ → Owner) (b : ℕ) : Type 0 where
  pub aligned : b % 4096 ≡ 0
  pub in_range : b < 2 ^ 64
  pub free : own b ≡ unused

abbrev pub AllFree : (ℕ → Owner) → List ℕ → Type 0
AllFree own [] = Unit
AllFree own (b ∷ bs) = IsFree own b × All (λ c. c ≢ b) bs × AllFree own bs

-- The tables form a tree: no table is behind two entries. `own` says what each table is for.
pub record IsTree (root : ℕ) (m : Machine) (own : ℕ → Owner) : Type 0 where
  pub at_root : own root ≡ pml4
  pub child :
      (t i : ℕ)
      → inner (own t) ≡ true
      → present (m.entry t i) ≡ true
      → own (base (m.entry t i)) ≡ child_of (own t) i
  pub word : (t i : ℕ) → m.entry t i < 2 ^ 64
  pub boxes : AllFree own m.boxes
