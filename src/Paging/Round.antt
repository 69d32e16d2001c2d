-- ===== src/Paging/Round.antt =====
-- One round of the loop of `create_mapping` (x86.rs): three descents and the write of the entry.
use wasabi_os.Common.{
  ℕ, ◌+◌, ◌-◌, ◌%◌, ◌≤◌, ◌<◌, ◌≡◌, ◌^◌, inl, inr, refl, ◌∙◌, Bool-cases, true, arith, lt→ltb,
  if◌then◌else◌, length,
}
use wasabi_os.Paging.{Machine, PageAttr, attr_value, ok, store, descend, map_page}
use wasabi_os.Paging.Walk.{index, walk, Owner, pml4, pdpt, pd, inner, IsTree}
use wasabi_os.Paging.Entry.{calc_index_lem}
use wasabi_os.Paging.Descend.{Descended, descend_lem, descend-step}
use wasabi_os.Paging.SetPage.{same_page, leaf, set_page_lem, set_page-IsTree}
use wasabi_os.Paging.MapPage.{Way, Way-kept, walk-hit, walk-miss}

-- What a round does that uses up some boxes for tables that were missing.
pub record Mapped (root addr p : ℕ) (attr : PageAttr) (used : ℕ) (m m' : Machine) (own' : ℕ → Owner)
    : Type 0 where
  pub tree : IsTree root m' own'
  pub boxes : length m.boxes ≤ length m'.boxes + used
  pub c : ℕ
  pub d : ℕ
  pub t : ℕ
  pub way : Way m' own' root c d t addr
  pub walks :
      (a : ℕ)
      → walk m'.entry root a ≡ (if same_page a addr then leaf p attr else walk m.entry root a)

-- The three descents lead to the tables on the way to the address.
record Descent (root addr used : ℕ) (m : Machine) : Type 0 where
  c : ℕ
  d : ℕ
  t : ℕ
  m1 : Machine
  m2 : Machine
  m3 : Machine
  own : ℕ → Owner
  runs1 : descend root (index 39 addr) m ≡ ok c m1
  runs2 : descend c (index 30 addr) m1 ≡ ok d m2
  runs3 : descend d (index 21 addr) m2 ≡ ok t m3
  tree : IsTree root m3 own
  way : Way m3 own root c d t addr
  boxes : length m.boxes ≤ length m3.boxes + used
  walks : (a : ℕ) → walk m3.entry root a ≡ walk m.entry root a

-- Three steps of the descent make the way.
Descended-Way :
    {root c d t addr : ℕ} {m m1 m2 m3 : Machine} {own o1 o2 o3 : ℕ → Owner}
    → own root ≡ pml4
    → Descended root root (index 39 addr) m own c m1 o1
    → Descended root c (index 30 addr) m1 o1 d m2 o2
    → Descended root d (index 21 addr) m2 o2 t m3 o3
    → Way m3 o3 root c d t addr
Descended-Way {root} {c} {d} {t} {addr} {o1} {o2} at_root d1 d2 d3 =
    let c1 : o1 c ≡ pdpt (index 39 addr) = rw at_root at d1.child in
    let c2 : o2 c ≡ pdpt (index 39 addr) = d2.kept c (λ u. cc) ∙ c1 in
    let p2 : o2 d ≡ pd (index 39 addr) (index 30 addr) = rw c1 at d2.child in
    let root1 : o1 root ≡ pml4 = d1.tree.at_root in
    let root2 : o2 root ≡ pml4 = d2.tree.at_root in
    record {
      first =
          d3.steps root (index 39 addr) c (λ u. cc)
            (d2.steps root (index 39 addr) c (λ u. cc) d1.into);
      second = d3.steps c (index 30 addr) d (λ u. cc) d2.into;
      third = d3.into;
      is_pdpt = d3.kept c (λ u. cc) ∙ c2;
      is_pd = d3.kept d (λ u. cc) ∙ p2;
      is_pt = rw p2 at d3.child;
    }

down_first :
    {root : ℕ} {m : Machine} {own : ℕ → Owner} (addr : ℕ)
    → IsTree root m own
    → 3 ≤ length m.boxes
    → Descent root addr 3 m
down_first {root} {m} {own} addr tree enough =
    let (c, m1, o1, r1, d1) =
      descend_lem root (index 39 addr) tree (rw tree.at_root refl) (omega arith) in
    let c1 : inner (o1 c) ≡ true = rw (d1.child, tree.at_root) refl in
    let (d, m2, o2, r2, d2) = descend_lem c (index 30 addr) d1.tree c1 (omega (arith, d1.boxes)) in
    let p2 : inner (o2 d) ≡ true = rw (d2.child, d1.child, tree.at_root) refl in
    let (t, m3, o3, r3, d3) =
      descend_lem d (index 21 addr) d2.tree p2 (omega (arith, d1.boxes, d2.boxes)) in
    record {
      c = c;
      d = d;
      t = t;
      m1 = m1;
      m2 = m2;
      m3 = m3;
      own = o3;
      runs1 = r1;
      runs2 = r2;
      runs3 = r3;
      tree = d3.tree;
      way = Descended-Way tree.at_root d1 d2 d3;
      boxes = omega (arith, d1.boxes, d2.boxes, d3.boxes);
      walks = λ a. d3.walks a ∙ (d2.walks a ∙ d1.walks a);
    }

-- With all tables in place the descents take no box.
down_again :
    {root c d t : ℕ} {m : Machine} {own : ℕ → Owner} (addr : ℕ)
    → IsTree root m own
    → Way m own root c d t addr
    → Descent root addr 0 m
down_again {root} {c} {d} {t} {m} {own} addr tree way = record {
  c = c;
  d = d;
  t = t;
  m1 = m;
  m2 = m;
  m3 = m;
  own = own;
  runs1 = descend-step root (index 39 addr) tree (rw tree.at_root refl) way.first;
  runs2 = descend-step c (index 30 addr) tree (rw way.is_pdpt refl) way.second;
  runs3 = descend-step d (index 21 addr) tree (rw way.is_pd refl) way.third;
  tree = tree;
  way = way;
  boxes = omega arith;
  walks = λ a. refl;
}

-- After the descents the round succeeds, and maps the page of the address to phys + addr - virt_start with
-- the attributes, while every other page is mapped as before.
map_page-Mapped :
    {root used : ℕ} {m : Machine} (addr virt_start phys : ℕ) (attr : PageAttr)
    → Descent root addr used m
    → phys + addr < 2 ^ 64
    → (phys + addr - virt_start) % 4096 ≡ 0
    → (m' : Machine) × (own' : ℕ → Owner) × (map_page root addr virt_start phys attr m ≡ ok tt m')
      × Mapped root addr (phys + addr - virt_start) attr used m m' own'
unfolding map_page
map_page-Mapped addr virt_start phys attr s fits aligned =
    let p : ℕ = phys + addr - virt_start in
    let in_range : p < 2 ^ 64 = omega arith in
    (
      record s.m3 { entry = store s.m3.entry s.t (index 12 addr) (p + attr_value attr) },
      s.own,
      rw
          (
            calc_index_lem 39 addr,
            s.runs1,
            calc_index_lem 30 addr,
            s.runs2,
            calc_index_lem 21 addr,
            s.runs3,
            lt→ltb (phys + addr) (2 ^ 64) fits,
            calc_index_lem 12 addr,
          )
          (set_page_lem s.t (index 12 addr) p attr s.m3 aligned),
      record {
        tree =
            set_page-IsTree s.t (index 12 addr) p (index 39 addr) (index 30 addr) (index 21 addr)
              attr s.tree s.way.is_pt aligned in_range;
        boxes = s.boxes;
        c = s.c;
        d = s.d;
        t = s.t;
        way = Way-kept s.c s.d s.t addr p attr s.tree s.way aligned in_range;
        walks = λ a. elim (Bool-cases (same_page a addr)) [
          | inl same ↦
              rw same (walk-hit s.c s.d s.t addr p attr s.tree s.way aligned in_range a same)
          | inr other ↦
              rw other (
                walk-miss s.c s.d s.t addr p attr s.tree s.way aligned in_range a other ∙ s.walks a)
        ];
      },
    )

-- A round with three boxes left.
pub map_page_first :
    {root : ℕ} {m : Machine} {own : ℕ → Owner} (addr virt_start phys : ℕ) (attr : PageAttr)
    → IsTree root m own
    → 3 ≤ length m.boxes
    → phys + addr < 2 ^ 64
    → (phys + addr - virt_start) % 4096 ≡ 0
    → (m' : Machine) × (own' : ℕ → Owner) × (map_page root addr virt_start phys attr m ≡ ok tt m')
      × Mapped root addr (phys + addr - virt_start) attr 3 m m' own'
map_page_first addr virt_start phys attr tree enough fits aligned =
    map_page-Mapped addr virt_start phys attr (down_first addr tree enough) fits aligned

-- A round with its tables in place.
pub map_page_again :
    {root c d t : ℕ} {m : Machine} {own : ℕ → Owner} (addr virt_start phys : ℕ) (attr : PageAttr)
    → IsTree root m own
    → Way m own root c d t addr
    → phys + addr < 2 ^ 64
    → (phys + addr - virt_start) % 4096 ≡ 0
    → (m' : Machine) × (own' : ℕ → Owner) × (map_page root addr virt_start phys attr m ≡ ok tt m')
      × Mapped root addr (phys + addr - virt_start) attr 0 m m' own'
map_page_again addr virt_start phys attr tree way fits aligned =
    map_page-Mapped addr virt_start phys attr (down_again addr tree way) fits aligned
