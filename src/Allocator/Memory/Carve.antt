-- ===== src/Allocator/Memory/Carve.antt =====
-- `Header::provide` of allocator.rs in memory carves the pieces that the list of headers gets, and
-- writes no byte outside of the region.
use mathlib.Core.Path.{subst}
use wasabi_os.Common.{
  ℕ, ◌+◌, ◌-◌, ◌^◌, ◌≤◌, ◌<◌, ◌≡◌, ◌⊎◌, inl, inr, refl, sym, ◌∙◌, Bool-cases, true, false, some, [],
  ◌∷◌, done, arith, ◌==◌,
}
use wasabi_os.Allocator.{Header, header}
use wasabi_os.Allocator.Invariant.{IsRegion}
use wasabi_os.Allocator.Carve.{pieces, spot}
use wasabi_os.Allocator.Memory.{
  HeaderLayout, Memory, write_allocated, write_padding, settle, pad_and_settle, carve,
}
use wasabi_os.Allocator.Memory.Bytes.{load_same}
use wasabi_os.Allocator.Memory.Chain.{Linked, SameOutside}
use wasabi_os.Allocator.Memory.Writes.{At, write_allocated-Pair, write_padding-Pair, settle_lem}

module _ (layout : HeaderLayout) where
  -- The memory after a block of `size` bytes at `p` was carved from the region of `h`, which the
  -- link `n` follows.
  pub record Carved (h : Header) (size p n : ℕ) (m m' : Memory) : Type 0 where
    pub links : Linked layout m' h.addr (pieces h size p) n
    pub same : SameOutside h m m'

  ends_meet :
      (a n s total at p : ℕ) (m : Memory)
      → At layout a m 0 s false
      → At layout at m n total true
      → a + s < 2 ^ 64
      → at + total ≡ a + s
      → pad_and_settle layout a total at p m ≡ settle layout a total at p m
  unfolding pad_and_settle
  ends_meet a n s total at p m front back range e = rw (front, back) (ground arith)

  ends_differ :
      (a n s total at p : ℕ) (m : Memory)
      → At layout a m 0 s false
      → At layout at m n total true
      → a + s < 2 ^ 64
      → at + total < a + s
      → a ≤ at
      → let end : ℕ = at + total in
        let pad : ℕ = a + s - end in
        pad_and_settle layout a total at p m
        ≡ settle layout a (total + pad) at p (write_padding layout at end pad m)
  unfolding pad_and_settle
  ends_differ a n s total at p m front back range less above = rw (front, back) (ground arith)

  module _ (h : Header) (size p n : ℕ) (m : Memory) (r : IsRegion h) (free : h.is_allocated ≡ false)
      (lo : h.addr + 64 ≤ p) (hi : p + size ≤ h.addr + h.size)
      (e : At layout h.addr m n h.size false) (hn : n < 2 ^ 64) where
    -- No padding: the block ends with the region.
    carve_exact :
        (p + size == h.addr + h.size) ≡ true
        → let m1 = write_allocated layout h.addr (p - 32) (size + 32) m in
          (m' : Memory) × (settle layout h.addr (size + 32) (p - 32) p m1 ≡ done (some p, m'))
          × Carved h size p n m m'
    carve_exact exact =
        let total : ℕ = size + 32 in
        let at : ℕ = p - 32 in
        let w =
          write_allocated-Pair layout h.addr at n h.size total m (omega arith) e hn (omega arith)
            (omega arith) in
        let m1 = write_allocated layout h.addr at total m in
        let end : p + size ≡ h.addr + h.size = ground arith in
        let (m', run, head, off) =
          settle_lem layout h.addr 0 h.size total at p m1 w.front (omega arith) (omega arith)
            (omega arith) (omega arith) in
        let left : h.size - total ≡ p - 32 - h.addr = omega arith in
        let shape : pieces h size p
            ≡ header h.addr (h.size - total) false ∷ header at total true ∷ [] =
          rw (exact, free, left) refl in
        let block = load_same layout at m1 m' (λ x a b. off x (omega arith)) ∙ w.back in
        (
          m',
          run,
          record {
            links =
                subst (λ hs. Linked layout m' h.addr hs n) (sym shape)
                  (at, refl, head, (n, refl, block, refl));
            same = λ x out. off x (omega arith) ∙ w.off x (omega arith) (omega arith);
          },
        )

    -- With padding behind the block.
    carve_padded :
        (p + size == h.addr + h.size) ≡ false
        → p + size + 32 ≤ h.addr + h.size
        → let end : ℕ = p + size in
          let pad : ℕ = h.addr + h.size - end in
          let m1 = write_allocated layout h.addr (p - 32) (size + 32) m in
          let m2 = write_padding layout (p - 32) end pad m1 in
          (m' : Memory) × (settle layout h.addr (size + 32 + pad) (p - 32) p m2 ≡ done (some p, m'))
          × Carved h size p n m m'
    carve_padded more room =
        let total : ℕ = size + 32 in
        let at : ℕ = p - 32 in
        let end : ℕ = p + size in
        let pad : ℕ = h.addr + h.size - end in
        let w =
          write_allocated-Pair layout h.addr at n h.size total m (omega arith) e hn (omega arith)
            (omega arith) in
        let m1 = write_allocated layout h.addr at total m in
        let v =
          write_padding-Pair layout at end n total pad m1 (omega arith) w.back hn (omega arith)
            (omega arith) (omega arith) in
        let m2 = write_padding layout at end pad m1 in
        let front = load_same layout h.addr m1 m2 (λ x a b. v.off x (omega arith) (omega arith)) in
        let (m', run, head, off) =
          settle_lem layout h.addr 0 h.size (total + pad) at p m2 (front ∙ w.front) (omega arith)
            (omega arith) (omega arith) (omega arith) in
        let left : h.size - (total + pad) ≡ p - 32 - h.addr = omega arith in
        let shape : pieces h size p
            ≡ header h.addr (h.size - (total + pad)) false
              ∷ header at total true
              ∷ header end pad false
              ∷ [] =
          rw (more, free, left) refl in
        let block = load_same layout at m2 m' (λ x a b. off x (omega arith)) ∙ v.front in
        let last = load_same layout end m2 m' (λ x a b. off x (omega arith)) ∙ v.back in
        let joined : at + total ≡ end = omega arith in
        (
          m',
          run,
          record {
            links =
                subst (λ hs. Linked layout m' h.addr hs n) (sym shape)
                  (at, refl, head, (end, refl, block, (n, refl, last, refl)));
            same = λ x out.
                off x (omega arith)
                ∙ v.off x (omega arith) (omega arith)
                ∙ w.off x (omega arith) (omega arith);
          },
        )

    carve-start :
        (align : ℕ)
        → 32 ≤ align
        → size + align + 64 ≤ h.size
        → p ≡ spot h size align
        → carve layout h.addr size align m
          ≡ pad_and_settle layout h.addr
              (size + 32)
              (p - 32)
              p
              (write_allocated layout h.addr (p - 32) (size + 32) m)
    unfolding carve
    carve-start align al fits at = rw (e, at) (ground arith)

    -- The code of `provide` puts the headers of the pieces into memory.
    pub carve-Carved :
        (align : ℕ)
        → 32 ≤ align
        → size + align + 64 ≤ h.size
        → p ≡ spot h size align
        → ((p + size == h.addr + h.size) ≡ true) ⊎ (p + size + 32 ≤ h.addr + h.size)
        → (m' : Memory) × (carve layout h.addr size align m ≡ done (some p, m'))
          × Carved h size p n m m'
    carve-Carved align al fits at last =
        let total : ℕ = size + 32 in
        let w =
          write_allocated-Pair layout h.addr (p - 32) n h.size total m (omega arith) e hn
            (omega arith) (omega arith) in
        let m1 = write_allocated layout h.addr (p - 32) total m in
        let start = carve-start align al fits at in
        elim (Bool-cases (p + size == h.addr + h.size)) [
          | inl exact ↦
              let (m', run, carved) = carve_exact exact in
              let meet =
                ends_meet h.addr n h.size total (p - 32) p m1 w.front w.back (omega arith)
                  (ground arith) in
              (m', start ∙ meet ∙ run, carved)
          | inr more ↦
              let (m', run, carved) = carve_padded more (ground arith) in
              let differ =
                ends_differ h.addr n h.size total (p - 32) p m1 w.front w.back (omega arith)
                  (ground arith) (omega arith) in
              let joined : p - 32 + total ≡ p + size = omega arith in
              (m', start ∙ (rw joined at differ) ∙ run, carved)
        ]
