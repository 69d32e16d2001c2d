-- ===== src/Paging/Supply.antt =====
-- How many boxes the loop of `create_mapping` (x86.rs) needs for missing tables.
use wasabi_os.Common.{
  ℕ, ◌+◌, ◌-◌, ◌*◌, ◌/◌, ◌%◌, ◌≤◌, ◌<◌, ◌≡◌, ◌≢◌, ◌^◌, inl, inr, Bool-cases, arith, ◌==◌, length,
}
use wasabi_os.Paging.{Machine, PageAttr, ok, map_page}
use wasabi_os.Paging.Walk.{index, Owner, IsTree}
use wasabi_os.Paging.MapPage.{Way}
use wasabi_os.Paging.Round.{Mapped, map_page_first, map_page_again}

-- How many spans of 2 MiB (what one table of level 1 covers) begin in [lo, hi).
abbrev pub starts : ℕ → ℕ → ℕ
starts lo hi = (hi + 2097151) / 2097152 - (lo + 2097151) / 2097152

-- Boxes that are enough for the tables that [lo, hi) may lack.
abbrev pub cost : ℕ → ℕ → ℕ
cost lo hi = 3 * (starts lo hi + 1)

-- Why `used` boxes are enough from `lo` on: the tables for `lo` are in place, or their span begins
-- here, or three are counted for them.
pub data Supply (root lo hi used : ℕ) (m : Machine) (own : ℕ → Owner) : Type 0 where
  in_place :
      (c d t : ℕ) → Way m own root c d t lo → 3 * starts lo hi ≤ used → Supply root lo hi used m own
  at_start : lo % 2097152 ≡ 0 → 3 * starts lo hi ≤ used → Supply root lo hi used m own
  counted : cost lo hi ≤ used → Supply root lo hi used m own

-- The tables of a page are those of every other page in its span.
Way-next :
    {root c d t addr : ℕ} {m : Machine} {own : ℕ → Owner}
    → addr % 4096 ≡ 0
    → (addr + 4096) % 2097152 ≢ 0
    → Way m own root c d t addr
    → Way m own root c d t (addr + 4096)
Way-next {root} {c} {d} {t} {addr} {m} {own} aligned inside way =
    let i39 : index 39 (addr + 4096) ≡ index 39 addr = omega arith in
    let i30 : index 30 (addr + 4096) ≡ index 30 addr = omega arith in
    let i21 : index 21 (addr + 4096) ≡ index 21 addr = omega arith in
    record {
      first = rw i39 way.first;
      second = rw i30 way.second;
      third = rw i21 way.third;
      is_pdpt = rw i39 way.is_pdpt;
      is_pd = rw (i39, i30) way.is_pd;
      is_pt = rw (i39, i30, i21) way.is_pt;
    }

pub Supply-next :
    {root addr hi p used used' : ℕ} {attr : PageAttr} {m m' : Machine} {own' : ℕ → Owner}
    → addr % 4096 ≡ 0
    → 3 * starts (addr + 4096) hi ≤ used'
    → Mapped root addr p attr used m m' own'
    → Supply root (addr + 4096) hi used' m' own'
Supply-next {addr} aligned enough one = elim (Bool-cases ((addr + 4096) % 2097152 == 0)) [
  | inl start ↦ at_start (ground arith) enough
  | inr inside ↦ in_place one.c one.d one.t (Way-next aligned (λ z. ground arith) one.way) enough
]

-- One round, with what it leaves for the rest.
pub round :
    {root hi used : ℕ} {m : Machine} {own : ℕ → Owner} (addr virt_start phys : ℕ) (attr : PageAttr)
    → IsTree root m own
    → Supply root addr hi used m own
    → addr < hi
    → used ≤ length m.boxes
    → addr % 4096 ≡ 0
    → phys + addr < 2 ^ 64
    → (phys + addr - virt_start) % 4096 ≡ 0
    → (m' : Machine) × (own' : ℕ → Owner) × (spent : ℕ) × (map_page root addr virt_start phys attr m
        ≡ ok tt m')
      × Mapped root addr (phys + addr - virt_start) attr spent m m' own'
      × (spent + 3 * starts (addr + 4096) hi ≤ used)
round addr virt_start phys attr tree (in_place c d t way h) more enough a fits aligned =
    let (m', own', run, one) = map_page_again addr virt_start phys attr tree way fits aligned in
    (m', own', 0, run, one, omega arith)
round addr virt_start phys attr tree (at_start s h) more enough a fits aligned =
    let (m', own', run, one) =
      map_page_first addr virt_start phys attr tree (omega arith) fits aligned in
    (m', own', 3, run, one, omega arith)
round addr virt_start phys attr tree (counted h) more enough a fits aligned =
    let (m', own', run, one) =
      map_page_first addr virt_start phys attr tree (omega arith) fits aligned in
    (m', own', 3, run, one, omega arith)
