-- ===== src/Paging/Mapping.antt =====
-- `PML4::create_mapping` of x86.rs as a whole: the range that it maps, and its errors.
use wasabi_os.Common.{
  ℕ, zero, suc, ◌+◌, ◌-◌, ◌*◌, ◌/◌, ◌%◌, ◌≤◌, ◌<◌, ◌≡◌, ◌≢◌, ◌^◌, ◌⊎◌, inl, inr, refl, ◌∙◌, Bool,
  Bool-cases, true, false, Option, arith, leb, ltb, ◌==◌, ◌&&◌, if◌then◌else◌, length, not,
}
use wasabi_os.Paging.{Machine, PageAttr, ok, err, map_pages, rounds, create_mapping}
use wasabi_os.Paging.Walk.{walk, Owner, IsTree}
use wasabi_os.Paging.Entry.{attr_mask_lem}
use wasabi_os.Paging.SetPage.{same_page, leaf}
use wasabi_os.Paging.Supply.{cost, Supply, counted, Supply-next, round}

abbrev pub covers : ℕ → ℕ → ℕ → Bool
covers lo hi a = leb lo a && ltb a hi

-- The entry of the page of `a`, where the range from `virt_start` is mapped to `phys`.
abbrev pub target : ℕ → ℕ → ℕ → ℕ
target virt_start phys a = phys + (a / 4096 * 4096 - virt_start)

-- The range [lo, hi) is mapped, and all else below 2^48 is mapped as before.
pub record MapsRange (root lo hi virt_start phys : ℕ) (attr : PageAttr) (used : ℕ) (m m' : Machine)
    (own' : ℕ → Owner) : Type 0 where
  pub tree : IsTree root m' own'
  pub boxes : length m.boxes ≤ length m'.boxes + used
  pub walks :
      (a : ℕ)
      → a < 2 ^ 48
      → walk m'.entry root a
        ≡ (if covers lo hi a then leaf (target virt_start phys a) attr else walk m.entry root a)

-- One page and the range behind it make a longer range.
walks-suc :
    (addr n virt_start phys a : ℕ) (attr : PageAttr) (before between after : Option ℕ)
    → addr % 4096 ≡ 0
    → virt_start ≤ addr
    → addr + suc n * 4096 ≤ 2 ^ 48
    → a < 2 ^ 48
    → between ≡ (if same_page a addr then leaf (phys + addr - virt_start) attr else before)
    → after ≡ (
        if covers (addr + 4096) (addr + 4096 + n * 4096) a
        then leaf (target virt_start phys a) attr
        else between)
    → after ≡ (
        if covers addr (addr + suc n * 4096) a
        then leaf (target virt_start phys a) attr
        else before)
walks-suc addr n virt_start phys a attr before between after aligned le fits a_lt e1 e2 =
    elim (Bool-cases (same_page a addr)) [
      | inl same ↦
          let page : a / 4096 ≡ addr / 4096 =
            let e : a / 4096 % 2 ^ 36 ≡ addr / 4096 % 2 ^ 36 = ground arith in omega arith in
          let here : covers addr (addr + suc n * 4096) a ≡ true = ground arith in
          let gone : covers (addr + 4096) (addr + 4096 + n * 4096) a ≡ false = ground arith in
          let to : target virt_start phys a ≡ phys + addr - virt_start = omega arith in
          let e3 = rw gone at e2 in let e4 = rw same at e1 in rw (here, to) (e3 ∙ e4)
      | inr other ↦
          let page : a / 4096 ≢ addr / 4096 = λ e. ground arith in
          let same_range : covers addr (addr + suc n * 4096) a
              ≡ covers (addr + 4096) (addr + 4096 + n * 4096) a =
            ground arith in
          let e4 = rw other at e1 in rw same_range (rw e4 at e2)
    ]

map_pages-MapsRange :
    (n : ℕ) {root used : ℕ} {m : Machine} {own : ℕ → Owner} (addr virt_start phys : ℕ)
    (attr : PageAttr)
    → IsTree root m own
    → Supply root addr (addr + n * 4096) used m own
    → used ≤ length m.boxes
    → virt_start ≤ addr
    → addr % 4096 ≡ 0
    → virt_start % 4096 ≡ 0
    → phys % 4096 ≡ 0
    → addr + n * 4096 ≤ 2 ^ 48
    → phys + addr + n * 4096 ≤ 2 ^ 64
    → (m' : Machine) × (own' : ℕ → Owner) × (map_pages n root addr virt_start phys attr m
        ≡ ok tt m')
      × MapsRange root addr (addr + n * 4096) virt_start phys attr used m m' own'
unfolding map_pages
map_pages-MapsRange zero {root} {used} {m} {own} addr virt_start phys attr tree supply enough le a1
      a2 a3 fit fits =
    (
      m,
      own,
      refl,
      record {
        tree = tree;
        boxes = omega arith;
        walks = λ a lt.
            let none_covered : covers addr (addr + 0 * 4096) a ≡ false = ground arith in
            rw none_covered;
      },
    )
map_pages-MapsRange (suc n) {root} {used} {m} {own} addr virt_start phys attr tree supply enough le
      a1 a2 a3 fit fits =
    let e : addr + suc n * 4096 ≡ addr + 4096 + n * 4096 = omega arith in
    let (m1, own1, spent, run1, one, left) =
      round addr virt_start phys attr tree (rw e at supply) (omega arith) enough a1 (omega arith)
        (omega arith) in
    let (m2, own2, run2, rest) =
      map_pages-MapsRange n {used = used - spent} {m = m1} {own = own1} (addr + 4096) virt_start
        phys attr one.tree (Supply-next a1 (omega arith) one) (omega (arith, one.boxes))
        (omega arith) (omega arith) a2 a3 (omega arith) (omega arith) in
    (
      m2,
      own2,
      rw run1 run2,
      record {
        tree = rest.tree;
        boxes = omega (arith, one.boxes, rest.boxes);
        walks = λ a lt.
            walks-suc addr n virt_start phys a attr (walk m.entry root a) (walk m1.entry root a)
              (walk m2.entry root a) a1 le fit lt (one.walks a) (rest.walks a lt);
      },
    )

-- `create_mapping` of an aligned range below 2^48, with three boxes for every boundary of 2 MiB
-- from its start up to its end, three boxes more, and no overflow of `phys + addr`, succeeds: every address of the range is then translated to the entry of its page,
-- every other address as before, and the tables are a tree again.
pub create_mapping-MapsRange :
    {root : ℕ} {m : Machine} {own : ℕ → Owner} (virt_start virt_end phys : ℕ) (attr : PageAttr)
    → IsTree root m own
    → virt_start ≤ virt_end
    → virt_end ≤ 2 ^ 48
    → virt_start % 4096 ≡ 0
    → virt_end % 4096 ≡ 0
    → phys % 4096 ≡ 0
    → phys + virt_end ≤ 2 ^ 64
    → cost virt_start virt_end ≤ length m.boxes
    → (m' : Machine) × (own' : ℕ → Owner) × (create_mapping root virt_start virt_end phys attr m
        ≡ ok tt m')
      × MapsRange root virt_start virt_end virt_start phys attr (cost virt_start virt_end) m m' own'
unfolding create_mapping
create_mapping-MapsRange {root} {m} virt_start virt_end phys attr tree le small a1 a2 a3 fits
      enough =
    let n = rounds virt_start virt_end in
    let e : virt_start + n * 4096 ≡ virt_end = omega arith in
    let result =
      map_pages-MapsRange n virt_start virt_start phys attr tree (counted (omega arith)) enough
        (omega arith) a1 a1 a3 (omega arith) (omega arith) in
    rw (attr_mask_lem virt_start, a1, attr_mask_lem virt_end, a2, attr_mask_lem phys, a3)
      (rw e at result)

-- `create_mapping` refuses an address that is not a multiple of the page size, in the order start,
-- end, physical address, and changes nothing.
pub create_mapping_err :
    (root virt_start virt_end phys : ℕ) (attr : PageAttr) (m : Machine)
    → (virt_start % 4096 ≢ 0) ⊎ (virt_end % 4096 ≢ 0) ⊎ (phys % 4096 ≢ 0)
    → create_mapping root virt_start virt_end phys attr m
      ≡ err
          (if not (virt_start % 4096 == 0)
            then "Invalid virt_start"
            else if not (virt_end % 4096 == 0)
            then "Invalid virt_end"
            else "Invalid phys")
          m
unfolding create_mapping
create_mapping_err root virt_start virt_end phys attr m bad =
    rw (attr_mask_lem virt_start, attr_mask_lem virt_end, attr_mask_lem phys) (ground arith)
