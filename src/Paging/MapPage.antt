-- ===== src/Paging/MapPage.antt =====
-- The way to an address through the tables, and the write of the entry at its end (`create_mapping`
-- of x86.rs).
use wasabi_os.Common.{
  ℕ, ◌+◌, ◌%◌, ◌<◌, ◌≡◌, ◌^◌, inl, inr, refl, sym, ap, ◌∙◌, Bool-cases, Option-cases, true, false,
  Option, some, arith, ◌==◌, ◌&&◌,
}
use wasabi_os.Paging.{Machine, PageAttr, attr_value, store}
use wasabi_os.Paging.Walk.{
  index, look, step, bind, walk, Owner, pdpt, pd, pt, child_of, inner, IsTree,
}
use wasabi_os.Paging.Populate.{step-child}
use wasabi_os.Paging.SetPage.{
  same_page, index-same_page, same_page-index, leaf, step-set_page, look_hit, look_miss,
}

-- The tables on the way to an address.
pub record Way (m : Machine) (own : ℕ → Owner) (root c d t addr : ℕ) : Type 0 where
  pub first : step m.entry root (index 39 addr) ≡ some c
  pub second : step m.entry c (index 30 addr) ≡ some d
  pub third : step m.entry d (index 21 addr) ≡ some t
  pub is_pdpt : own c ≡ pdpt (index 39 addr)
  pub is_pd : own d ≡ pd (index 39 addr) (index 30 addr)
  pub is_pt : own t ≡ pt (index 39 addr) (index 30 addr) (index 21 addr)

module _ {root : ℕ} {m : Machine} {own : ℕ → Owner} (c d t addr p : ℕ) (attr : PageAttr)
    (tree : IsTree root m own) (way : Way m own root c d t addr) (aligned : p % 4096 ≡ 0)
    (in_range : p < 2 ^ 64) where
  abbrev e' : ℕ → ℕ → ℕ
  e' = store m.entry t (index 12 addr) (p + attr_value attr)

  same_step : (s j : ℕ) → inner (own s) ≡ true → step e' s j ≡ step m.entry s j
  same_step =
      step-set_page t (index 12 addr) p (index 39 addr) (index 30 addr) (index 21 addr) attr tree
        way.is_pt aligned in_range

  pub Way-kept : Way (record m { entry = e' }) own root c d t addr
  Way-kept = record {
    first = same_step root (index 39 addr) (rw tree.at_root refl) ∙ way.first;
    second = same_step c (index 30 addr) (rw way.is_pdpt refl) ∙ way.second;
    third = same_step d (index 21 addr) (rw way.is_pd refl) ∙ way.third;
    is_pdpt = way.is_pdpt;
    is_pd = way.is_pd;
    is_pt = way.is_pt;
  }

  pub walk-hit : (a : ℕ) → same_page a addr ≡ true → walk e' root a ≡ leaf p attr
  unfolding walk
  walk-hit a same =
      let s = index-same_page a addr same in
      let one : step e' root (index 39 a) ≡ some c =
        rw s.0 (same_step root (index 39 addr) (rw tree.at_root refl) ∙ way.first) in
      let two : step e' c (index 30 a) ≡ some d =
        rw s.1 (same_step c (index 30 addr) (rw way.is_pdpt refl) ∙ way.second) in
      let three : step e' d (index 21 a) ≡ some t =
        rw s.2 (same_step d (index 21 addr) (rw way.is_pd refl) ∙ way.third) in
      let four : look e' t (index 12 a) ≡ leaf p attr = rw s.3 (
        look_hit t (index 12 addr) p (index 39 addr) (index 30 addr) (index 21 addr) attr tree
          way.is_pt aligned in_range) in
      rw (one, two, three, four)

  bind-same :
      (s j : ℕ) (k k' : ℕ → Option ℕ)
      → inner (own s) ≡ true
      → ((v : ℕ) → own v ≡ child_of (own s) j → k' v ≡ k v)
      → bind (step e' s j) k' ≡ bind (step m.entry s j) k
  bind-same s j k k' in_s same = rw (same_step s j in_s) (elim (Option-cases (step m.entry s j)) [
    | inl stop ↦ rw stop
    | inr (v, go) ↦ rw go (same v (step-child s j v tree in_s go))
  ])

  look-other :
      (a w : ℕ)
      → same_page a addr ≡ false
      → own w ≡ pt (index 39 a) (index 30 a) (index 21 a)
      → look e' w (index 12 a) ≡ look m.entry w (index 12 a)
  look-other a w other w_pt =
      let apart : (w == t && index 12 a == index 12 addr) ≡ false =
        elim (Bool-cases (w == t && index 12 a == index 12 addr)) [
          | inr f ↦ f
          | inl hit ↦
              let same_table : w ≡ t = ground arith in
              let last : index 12 a ≡ index 12 addr = ground arith in
              let owners : pt (index 39 a) (index 30 a) (index 21 a)
                  ≡ pt (index 39 addr) (index 30 addr) (index 21 addr) =
                sym w_pt ∙ ap own same_table ∙ way.is_pt in
              let i39 : index 39 a ≡ index 39 addr = cc in
              let i30 : index 30 a ≡ index 30 addr = cc in
              let i21 : index 21 a ≡ index 21 addr = cc in
              let same = same_page-index a addr i39 i30 i21 last in cc
        ] in
      look_miss t (index 12 addr) p (index 39 addr) (index 30 addr) (index 21 addr) attr tree
        way.is_pt aligned in_range w (index 12 a) apart

  pub walk-miss : (a : ℕ) → same_page a addr ≡ false → walk e' root a ≡ walk m.entry root a
  unfolding walk
  walk-miss a other = bind-same root (index 39 a) _ _ (rw tree.at_root refl) λ u own_u.
      let u_pdpt : own u ≡ pdpt (index 39 a) = rw tree.at_root at own_u in
      bind-same u (index 30 a) _ _ (rw u_pdpt refl) λ v own_v.
        let v_pd : own v ≡ pd (index 39 a) (index 30 a) = rw u_pdpt at own_v in
        bind-same v (index 21 a) _ _ (rw v_pd refl)
          λ w own_w. look-other a w other (rw v_pd at own_w)
