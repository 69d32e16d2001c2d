-- ===== src/Paging/SetPage.antt =====
-- The write of a page's entry (`Entry::set_page` of x86.rs) changes the translation of that page, and
-- of no other.
use wasabi_os.Common.{
  ℕ, ◌+◌, ◌/◌, ◌%◌, ◌<◌, ◌≡◌, ◌^◌, Bool, true, false, Option, none, some, arith, ◌==◌, ◌&&◌,
  if◌then◌else◌,
}
use wasabi_os.Paging.{
  Machine, PageAttr, not_present, read_write_kernel, read_write_io, attr_value, ok, store, set_page,
}
use wasabi_os.Paging.Walk.{present, index, look, step, Owner, pt, inner, IsTree}
use wasabi_os.Paging.Entry.{attr_mask_lem, attr_value-lt, bit_or-page}

-- Two addresses lie on one page, as far as the 48 bits go that the walk reads.
abbrev pub same_page : ℕ → ℕ → Bool
same_page a b = a / 4096 % 2 ^ 36 == b / 4096 % 2 ^ 36

pub index-same_page :
    (a b : ℕ)
    → same_page a b ≡ true
    → (index 39 a ≡ index 39 b)
      × (index 30 a ≡ index 30 b)
      × (index 21 a ≡ index 21 b)
      × (index 12 a ≡ index 12 b)
index-same_page a b h =
    let e : a / 4096 % 2 ^ 36 ≡ b / 4096 % 2 ^ 36 = ground arith in
    (omega arith, omega arith, omega arith, omega arith)

pub same_page-index :
    (a b : ℕ)
    → index 39 a ≡ index 39 b
    → index 30 a ≡ index 30 b
    → index 21 a ≡ index 21 b
    → index 12 a ≡ index 12 b
    → same_page a b ≡ true
same_page-index a b p q r s =
    let e : a / 4096 % 2 ^ 36 ≡ b / 4096 % 2 ^ 36 = omega arith in ground arith

-- The entry that a page at p gets, if it is present.
abbrev pub leaf : ℕ → PageAttr → Option ℕ
leaf p not_present = none
leaf p read_write_kernel = some (p + 3)
leaf p read_write_io = some (p + 27)

leaf_lem :
    (p : ℕ) (attr : PageAttr)
    → p % 4096 ≡ 0
    → (if present (p + attr_value attr) then some (p + attr_value attr) else none) ≡ leaf p attr
leaf_lem p not_present h = ground arith
leaf_lem p read_write_kernel h = ground arith
leaf_lem p read_write_io h = ground arith

pub set_page_lem :
    (t i p : ℕ) (attr : PageAttr) (m : Machine)
    → p % 4096 ≡ 0
    → set_page t i p attr m ≡ ok tt (record m { entry = store m.entry t i (p + attr_value attr) })
unfolding set_page
set_page_lem t i p attr m h =
    rw (attr_mask_lem p, h, bit_or-page p (attr_value attr) h (omega (arith, attr_value-lt attr)))

module _ {root : ℕ} {m : Machine} {own : ℕ → Owner} (t i p x y z : ℕ) (attr : PageAttr)
    (tree : IsTree root m own) (is_pt : own t ≡ pt x y z) (aligned : p % 4096 ≡ 0)
    (in_range : p < 2 ^ 64) where
  abbrev e' : ℕ → ℕ → ℕ
  e' = store m.entry t i (p + attr_value attr)

  pub set_page-IsTree : IsTree root (record m { entry = e' }) own
  unfolding store
  set_page-IsTree = record {
    at_root = tree.at_root;
    child = λ s j in_tree there. ground (arith, tree.child s j);
    word = λ s j. ground (arith, tree.word s j, attr_value-lt attr);
    boxes = tree.boxes;
  }

  pub step-set_page : (s j : ℕ) → inner (own s) ≡ true → step e' s j ≡ step m.entry s j
  unfolding step store
  step-set_page s j in_tree = ground arith

  pub look_hit : look e' t i ≡ leaf p attr
  unfolding look store
  look_hit = ground (arith, leaf_lem p attr aligned)

  pub look_miss : (s j : ℕ) → (s == t && j == i) ≡ false → look e' s j ≡ look m.entry s j
  unfolding look store
  look_miss s j h = rw h
