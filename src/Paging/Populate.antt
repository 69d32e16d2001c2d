-- ===== src/Paging/Populate.antt =====
-- `Entry::populate` of x86.rs keeps the tree of tables, and changes no address's translation.
use mathlib.Core.Path.{subst}
use wasabi_os.Common.{
  ℕ, ◌+◌, ◌^◌, ◌<◌, ◌≡◌, ◌≢◌, ◌⊎◌, inl, inr, Option-cases, refl, ap, true, false, Option, none,
  some, List, [], ◌∷◌, All, arith, ◌==◌, if◌then◌else◌,
}
use wasabi_os.Paging.{Machine, store, zeroed}
use wasabi_os.Paging.Walk.{
  present, base, index, look, step, bind, walk, Owner, unused, pml4, pdpt, pd, pt, child_of, inner,
  AllFree, IsTree,
}

pub child_of-ne-unused : (o : Owner) (i : ℕ) → inner o ≡ true → child_of o i ≢ unused
child_of-ne-unused unused i h = cc
child_of-ne-unused pml4 i h = λ e. cc
child_of-ne-unused (pdpt j) i h = λ e. cc
child_of-ne-unused (pd k j) i h = λ e. cc
child_of-ne-unused (pt l k j) i h = cc

-- The table b becomes what o says.
abbrev pub owned : (ℕ → Owner) → ℕ → Owner → ℕ → Owner
owned own b o s = if s == b then o else own s

pub AllFree-owned :
    (own : ℕ → Owner) (b : ℕ) (o : Owner) (bs : List ℕ)
    → All (λ c. c ≢ b) bs
    → AllFree own bs
    → AllFree (owned own b o) bs
AllFree-owned own b o [] ne h = tt
AllFree-owned own b o (c ∷ bs) ne h =
    let f = h.0 in let n = ne.0 in (ground arith, h.1, AllFree-owned own b o bs ne.1 h.2)

-- The tables after `populate` of the entry i of the table t with the box b.
abbrev pub populated : (ℕ → ℕ → ℕ) → ℕ → ℕ → ℕ → ℕ → ℕ → ℕ
populated entry t i b = store (zeroed entry b) t i (b + 3)

module _ {root : ℕ} {m : Machine} {own : ℕ → Owner} (t i b : ℕ) (bs : List ℕ)
    (tree : IsTree root m own) (in_tree : inner (own t) ≡ true)
    (absent : present (m.entry t i) ≡ false) (next : m.boxes ≡ b ∷ bs) where
  pub all_free : AllFree own (b ∷ bs)
  all_free = subst (AllFree own) next tree.boxes

  -- The states after.
  abbrev own' : ℕ → Owner
  own' = owned own b (child_of (own t) i)

  abbrev m' : Machine
  m' = record { entry = populated m.entry t i b; boxes = bs }

  child' :
      (s j : ℕ)
      → inner (own' s) ≡ true
      → present (m'.entry s j) ≡ true
      → own' (base (m'.entry s j)) ≡ child_of (own' s) j
  unfolding store zeroed
  child' s j in_tree' there =
      let f = all_free.0 in ground (arith, tree.child s j, child_of-ne-unused (own s) j)

  word' : (s j : ℕ) → m'.entry s j < 2 ^ 64
  unfolding store zeroed
  word' s j = let f = all_free.0 in ground (arith, tree.word s j)

  pub populate-IsTree : IsTree root m' own'
  populate-IsTree =
      let f = all_free.0 in
      let at_root = tree.at_root in
      record {
        at_root = ground arith;
        child = child';
        word = word';
        boxes = AllFree-owned own b (child_of (own t) i) bs all_free.1 all_free.2;
      }

-- A step from a table of the tree leads to the child's table.
pub step-child :
    {root : ℕ} {m : Machine} {own : ℕ → Owner} (s j c : ℕ)
    → IsTree root m own
    → inner (own s) ≡ true
    → step m.entry s j ≡ some c
    → own c ≡ child_of (own s) j
unfolding step
step-child s j c tree in_tree e = ground (arith, tree.child s j)

module _ {root : ℕ} {m : Machine} {own : ℕ → Owner} (t i b : ℕ) (bs : List ℕ)
    (tree : IsTree root m own) (in_tree : inner (own t) ≡ true)
    (absent : present (m.entry t i) ≡ false) (next : m.boxes ≡ b ∷ bs) where
  abbrev e' : ℕ → ℕ → ℕ
  e' = populated m.entry t i b

  free : own b ≡ unused
  free = (all_free t i b bs tree in_tree absent next).0.free

  step-populated :
      (s j : ℕ)
      → own s ≢ unused
      → (step e' s j ≡ step m.entry s j) ⊎ ((step m.entry s j ≡ none) × (step e' s j ≡ some b))
  unfolding step store zeroed
  step-populated s j used = let f = (all_free t i b bs tree in_tree absent next).0 in ground arith

  step-new : (j : ℕ) → step e' b j ≡ none
  unfolding step store zeroed
  step-new j = ground (arith, free)

  look-new : (j : ℕ) → look e' b j ≡ none
  unfolding look store zeroed
  look-new j = ground (arith, free)

  look-populated : (s j x y z : ℕ) → own s ≡ pt x y z → look e' s j ≡ look m.entry s j
  unfolding look store zeroed
  look-populated s j x y z is_pt = ground (arith, free)

  -- One level of the walk, given that what follows agrees on the child and finds nothing in the box.
  bind-populated :
      (s j : ℕ) (k k' : ℕ → Option ℕ)
      → inner (own s) ≡ true
      → k' b ≡ none
      → ((c : ℕ) → own c ≡ child_of (own s) j → k' c ≡ k c)
      → bind (step e' s j) k' ≡ bind (step m.entry s j) k
  bind-populated s j k k' in_s dead same =
      let used : own s ≢ unused = λ u. cc (ap inner u) in
      elim (step-populated s j used) [
        | inr (gone, new) ↦ rw (gone, new) dead
        | inl e ↦ rw e (elim (Option-cases (step m.entry s j)) [
          | inl stop ↦ rw stop
          | inr (c, go) ↦ rw go (same c (step-child s j c tree in_s go))
        ])
      ]

  -- The translation of every address is as before: what leads to the new table led nowhere, and
  -- nothing is present in it.
  pub walk-populated : (a : ℕ) → walk e' root a ≡ walk m.entry root a
  unfolding walk
  walk-populated a =
      bind-populated root (index 39 a) _ _ (rw tree.at_root refl) (rw (step-new (index 30 a)))
        λ c own_c.
          let is_pdpt : own c ≡ pdpt (index 39 a) = rw tree.at_root at own_c in
          bind-populated c (index 30 a) _ _ (rw is_pdpt refl) (rw (step-new (index 21 a)))
            λ d own_d.
              let is_pd : own d ≡ pd (index 39 a) (index 30 a) = rw is_pdpt at own_d in
              bind-populated d (index 21 a) _ _ (rw is_pd refl) (look-new (index 12 a)) λ f own_f.
                look-populated f (index 12 a) (index 39 a) (index 30 a) (index 21 a)
                  (rw is_pd at own_f)
