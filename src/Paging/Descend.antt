-- ===== src/Paging/Descend.antt =====
-- `ensure_populated()?.table_mut()?` of x86.rs: one level of the descent in `create_mapping`.
use wasabi_os.Common.{
  ℕ, ◌+◌, ◌≤◌, ◌<◌, ◌≡◌, ◌≢◌, inl, inr, refl, ◌∙◌, bit_or, Bool-cases, true, false, some, List, [],
  ◌∷◌, arith, length,
}
use wasabi_os.Paging.{
  Machine, ok, is_present, store, zeroed, table_mut, take_box, populate, ensure_populated, descend,
}
use wasabi_os.Paging.Walk.{
  present, base, step, walk, Owner, unused, child_of, inner, IsFree, IsTree,
}
use wasabi_os.Paging.Entry.{is_present_lem, table_mask, bit_or-page}
use wasabi_os.Paging.Populate.{owned, populated, all_free, populate-IsTree, walk-populated}

-- After the descent through entry i of the table t: the child c, and what has not changed.
pub record Descended (root t i : ℕ) (m : Machine) (own : ℕ → Owner) (c : ℕ) (m' : Machine)
    (own' : ℕ → Owner) : Type 0 where
  pub tree : IsTree root m' own'
  pub kept : (s : ℕ) → own s ≢ unused → own' s ≡ own s
  pub steps : (s j d : ℕ) → own s ≢ unused → step m.entry s j ≡ some d → step m'.entry s j ≡ some d
  pub into : step m'.entry t i ≡ some c
  pub child : own' c ≡ child_of (own t) i
  pub walks : (a : ℕ) → walk m'.entry root a ≡ walk m.entry root a
  pub boxes : length m.boxes ≤ length m'.boxes + 1

pub length-pos : (xs : List ℕ) → 0 < length xs → (b : ℕ) × (bs : List ℕ) × (xs ≡ b ∷ bs)
length-pos [] h = elim h [ ]
length-pos (b ∷ bs) h = (b, bs, refl)

module _ {root : ℕ} {m : Machine} {own : ℕ → Owner} (t i : ℕ) (tree : IsTree root m own)
    (in_tree : inner (own t) ≡ true) where
  descend-present : present (m.entry t i) ≡ true → descend t i m ≡ ok (base (m.entry t i)) m
  unfolding descend ensure_populated table_mut
  descend-present there =
      let yes' : is_present (m.entry t i) ≡ true = is_present_lem (m.entry t i) ∙ there in
      rw (yes', yes', table_mask (m.entry t i) (tree.word t i))

  pub descend-step : {c : ℕ} → step m.entry t i ≡ some c → descend t i m ≡ ok c m
  unfolding step
  descend-step go =
      let there : present (m.entry t i) ≡ true = ground arith in
      let to : base (m.entry t i) ≡ _ = ground arith in rw to at descend-present there

  Descended-present :
      present (m.entry t i) ≡ true → Descended root t i m own (base (m.entry t i)) m own
  unfolding step
  Descended-present there = record {
    tree = tree;
    kept = λ s used. refl;
    steps = λ s j d used e. e;
    into = rw there;
    child = tree.child t i in_tree there;
    walks = λ a. refl;
    boxes = omega arith;
  }

  -- The case that the entry is empty, and b is the next box.
  module _ (b : ℕ) (bs : List ℕ) (absent : present (m.entry t i) ≡ false)
      (next : m.boxes ≡ b ∷ bs) where
    b-IsFree : IsFree own b
    b-IsFree = (all_free t i b bs tree in_tree absent next).0

    slot : populated m.entry t i b t i ≡ b + 3
    unfolding store
    slot = ground arith

    descend-absent : descend t i m ≡ ok b (record { entry = populated m.entry t i b; boxes = bs })
    unfolding descend ensure_populated populate take_box table_mut
    descend-absent =
        let f = b-IsFree in
        let no' : is_present (m.entry t i) ≡ false = is_present_lem (m.entry t i) ∙ absent in
        let join : bit_or b 3 ≡ b + 3 = bit_or-page b 3 f.aligned (omega arith) in
        let yes' : is_present (b + 3) ≡ true = is_present_lem (b + 3) ∙ ground arith in
        let to : base (b + 3) ≡ b = omega arith in
        rw (no', next, join, slot, yes', table_mask (b + 3) (omega arith), to)

    Descended-absent :
        Descended root t i m own b
          (record { entry = populated m.entry t i b; boxes = bs })
          (owned own b (child_of (own t) i))
    unfolding step store zeroed
    Descended-absent =
        let f = b-IsFree in
        record {
          tree = populate-IsTree t i b bs tree in_tree absent next;
          kept = λ s used. ground arith;
          steps = λ s j d used e. ground arith;
          into = ground arith;
          child = ground arith;
          walks = walk-populated t i b bs tree in_tree absent next;
          boxes = rw next (omega arith);
        }

  -- With a box left, the descent never fails.
  pub descend_lem :
      0 < length m.boxes
      → (c : ℕ) × (m' : Machine) × (own' : ℕ → Owner) × (descend t i m ≡ ok c m')
        × Descended root t i m own c m' own'
  descend_lem some_left = elim (Bool-cases (present (m.entry t i))) [
    | inl there ↦ (base (m.entry t i), m, own, descend-present there, Descended-present there)
    | inr absent ↦
        let (b, bs, next) = length-pos m.boxes some_left in
        (
          b,
          record { entry = populated m.entry t i b; boxes = bs },
          owned own b (child_of (own t) i),
          descend-absent b bs absent next,
          Descended-absent b bs absent next,
        )
  ]
