-- ===== src/Allocator/Memory/Provide.antt =====
-- `Header::provide` of allocator.rs in memory answers as it does on the header of the list.
use mathlib.Core.Path.{subst}
use wasabi_os.Common.{
  ◌>>=◌, ℕ, ◌+◌, ◌*◌, ◌^◌, ◌≤◌, ◌<◌, ◌≡◌, ◌⊎◌, inl, inr, refl, sym, ap, ◌∙◌, Bool, Bool-cases, true,
  false, Option, none, some, List, Result, ok, err, Outcome, done, panic, max, arith, ◌==◌,
  if◌then◌else◌, String,
}
use wasabi_os.Allocator.{Header, Layout, header_size, can_provide, round_up_to_nearest_pow2}
use wasabi_os.Allocator as Lists
use wasabi_os.Allocator.Invariant.{IsRegion}
use wasabi_os.Allocator.Provide.{Gives}
use wasabi_os.Allocator.Memory.{cell, HeaderLayout, Memory, load, try_carve, provide, carve}
use wasabi_os.Allocator.Memory.Chain.{Linked, SameOutside}
use wasabi_os.Allocator.Memory.Carve.{carve-Carved}

module _ (layout : HeaderLayout) where
  -- Where the list of headers is left alone, so is the memory.
  refuses :
      (b : Bool) (fits : Outcome Bool) (c : Outcome (ℕ × List Header))
      (d : Outcome (Option ℕ × Memory)) (m : Memory)
      → ◌≡◌ {A = Outcome (Option (ℕ × List Header))}
          (if b
            then done none
            else fits >>= λ f. if f then (c >>= λ r. done (some r)) else done none)
          (done none)
      → (if b then done (none, m) else fits >>= λ f. if f then d else done (none, m))
        ≡ done (none, m)
  refuses true fits c d m e = refl
  refuses false panic c d m e = cc
  refuses false (done false) c d m e = refl
  refuses false (done true) panic d m e = cc
  refuses false (done true) (done r) d m e = cc

  Result-cases : {A : Type 0} (r : Result A) → ((a : A) × (r ≡ ok a)) ⊎ ((e : String) × (r ≡ err e))
  Result-cases (ok a) = inl (a, refl)
  Result-cases (err e) = inr (e, refl)

  module _ (h : Header) (n : ℕ) (m : Memory)
      (e : load layout h.addr m ≡ cell n h.size h.is_allocated) where
    try_carve-none :
        (size align : ℕ)
        → Lists.try_carve h size align ≡ done none
        → try_carve layout h.addr size align m ≡ done (none, m)
    unfolding try_carve Lists.try_carve
    try_carve-none size align refused = rw e (
        refuses h.is_allocated (can_provide h size align) (Lists.carve h size align)
          (carve layout h.addr size align m) m refused)

    pub provide-none :
        (size align : ℕ)
        → Lists.provide h size align ≡ done none
        → provide layout h.addr size align m ≡ done (none, m)
    unfolding provide Lists.provide
    provide-none size align refused = elim (Result-cases (round_up_to_nearest_pow2 size)) [
      | inl (rounded, rounds) ↦
          let refused' = rw (rounds, Lists.provide) at refused in
          rw (rounds, provide)
            (try_carve-none (max rounded header_size) (max align header_size) refused')
      | inr (why, bad) ↦ rw (bad, provide) refl
    ]

    try_carve-some :
        (size align : ℕ)
        → h.is_allocated ≡ false
        → size + 64 * align ≤ h.size
        → h.size < 2 ^ 64
        → try_carve layout h.addr size align m ≡ carve layout h.addr size align m
    unfolding try_carve can_provide
    try_carve-some size align free enough small = rw (e, free) (ground arith)

    pub provide-some :
        (l : Layout) (p : ℕ) (hs : List Header)
        → IsRegion h
        → n < 2 ^ 64
        → Gives h l p hs
        → (m' : Memory) × (provide layout h.addr l.size l.align m ≡ done (some p, m'))
          × Linked layout m' h.addr hs n
          × SameOutside h m m'
    unfolding provide
    provide-some l p hs r hn g =
        let c = g.carving in
        let s : ℕ = g.block in
        let a : ℕ = max l.align header_size in
        let e' : load layout h.addr m ≡ cell n h.size false = e ∙ ap (cell n h.size) g.free in
        let enough = c.enough in
        let above = g.above in
        let below = g.below in
        let ap32 = c.spot_aligned in
        let as32 = c.size_aligned in
        let last : (p + s == h.addr + h.size) ≡ true ⊎ (p + s + 32 ≤ h.addr + h.size) =
          elim (Bool-cases (p + s == h.addr + h.size)) [
            | inl exact ↦ inl exact
            | inr more ↦ inr (ground arith)
          ] in
        let start : provide layout h.addr l.size l.align m ≡ try_carve layout h.addr s a m =
          rw (c.rounds, provide, ← c.block_size) refl in
        let carves = try_carve-some s a g.free c.enough (omega arith) in
        let (m', run, carved) =
          carve-Carved layout h s p n m r g.free g.above g.below e' hn a (omega arith) (omega arith)
            c.at_spot last in
        (
          m',
          start ∙ carves ∙ run,
          subst (λ gs. Linked layout m' h.addr gs n) (sym g.shape) carved.links,
          carved.same,
        )
