-- ===== src/Allocator/Memory/Overlap.antt =====
-- The unit test allocated_objects_have_no_overlap of allocator.rs passes: one round is a new block that
-- overlaps none, and later rounds leave it alone.
use wasabi_os.Common.{
  ℕ, zero, suc, ◌+◌, ◌*◌, ◌%◌, ◌≤◌, ◌<◌, ◌≡◌, ◌≢◌, inl, inr, refl, ap, sym, ◌∙◌, Bool-cases, true,
  false, none, some, List, [], ◌∷◌, map, done, arith, length, All, ◌==◌,
}
use wasabi_os.Allocator.{Header, Layout}
use wasabi_os.Allocator.Alloc.{Placed, here, there}
use wasabi_os.Allocator.Live.{live, Placed-live, Placed-fresh, Placed-nonnull, live_apart}
use wasabi_os.Allocator.Boxes.{HasRoom, HasRoom-le, IsServed, taken, all_taken}
use wasabi_os.Allocator.Boxed.{alloc_small}
use wasabi_os.Allocator.Memory.{HeaderLayout, Memory, alloc_from}
use wasabi_os.Allocator.Memory.Refine.{alloc_from-Refined}
use wasabi_os.Allocator.Memory.Chain.{Chain}
use wasabi_os.Allocator.Memory.Trace.{
  Holds, LiveAt, Kept, Reach-Kept, here as at_once, later, alloc as allocates, one_heap,
  write-Holds,
}
use wasabi_os.Allocator.Memory.Blocks.{fill, check_all, fill_all, fill_lem, check_lem}

-- A call makes at most three headers of one.
Placed-length :
    {l : Layout} {p : ℕ} {hs out : List Header} → Placed l p hs out → length out ≤ length hs + 2
Placed-length {p = p} (here {h} {hs} {rest} g e) =
    elim (Bool-cases (p + g.block == h.addr + h.size)) [
      | inl hit ↦ rw (e, g.shape, hit) (omega arith)
      | inr miss ↦ rw (e, g.shape, miss) (omega arith)
    ]
Placed-length (there why placed) = omega (arith, Placed-length placed)

module _ (layout : HeaderLayout) (first : ℕ) where
  -- A block is filled, and the chain is as it was.
  fill-Holds :
      (n k p v : ℕ) (m : Memory) (hs : List Header)
      → n ≤ k
      → Holds layout first m hs
      → live hs p ≡ some k
      → Holds layout first (fill n p v m) hs
  unfolding fill
  fill-Holds zero k p v m hs le h e = h
  fill-Holds (suc n) k p v m hs le h e =
      write-Holds layout first p k (p + n) v (fill n p v m) hs
        (fill-Holds n k p v m hs (omega arith) h e) e (omega arith) (omega arith)

  -- A round: the block is new and filled, and every block that was live keeps its bytes.
  record Round (l : Layout) (v fuel : ℕ) (m : Memory) (hs : List Header) (s : ℕ) : Type 0 where
    p : ℕ
    after : Memory
    out : List Header
    bytes : ℕ
    runs : alloc_from layout fuel l first m ≡ done (some (p, after))
    nonnull : p ≢ 0
    few : length out ≤ length hs + 2
    left : HasRoom s out
    holds : Holds layout first (fill l.size p v after) out
    room : l.size ≤ bytes
    self : live out p ≡ some bytes
    kept : (q n : ℕ) → LiveAt layout first m q n → Kept layout first q n m (fill l.size p v after)

  round :
      {r : ℕ} (s fuel v : ℕ) (l : Layout) (hs : List Header) (m : Memory)
      → r ≤ s
      → IsServed r l
      → length hs < fuel
      → Holds layout first m hs
      → HasRoom (s + taken l) hs
      → Round l v fuel m hs s
  round s fuel v l hs m big y few h enough =
      let (p, out, run, placed, heap', left) = alloc_small s l hs big y h.heap enough in
      let t = alloc_from-Refined layout l y.is_layout y.small hs fuel first m few h.heap h.chain in
      let same : done (t.answer, t.out) ≡ done (p, out) = sym t.abstract ∙ run in
      let answer : t.answer ≡ p = cc in
      let outs : t.out ≡ out = cc in
      let runs : alloc_from layout fuel l first m ≡ done (some (p, t.after)) =
        let e = t.runs in rw answer at e in
      let chain : Chain layout t.after first out = let c = t.chain in rw outs at c in
      let holds1 : Holds layout first t.after out = record { heap = heap'; chain = chain } in
      let (k, room, view) = Placed-live placed h.heap in
      let self : live out p ≡ some k =
        let w = view p in let hit : (p == p) ≡ true = ground arith in rw hit at w in
      let new : live hs p ≡ none = Placed-fresh placed h.heap in
      let holds2 = fill-Holds l.size k p v t.after out room holds1 self in
      record {
        p = p;
        after = t.after;
        out = out;
        bytes = k;
        runs = runs;
        nonnull = Placed-nonnull placed;
        few = Placed-length placed;
        left = left;
        holds = holds2;
        room = room;
        self = self;
        kept = λ q n used.
            let ((gs, g, e), bytes) =
              Reach-Kept layout first q n used
                (later at_once (allocates fuel l y.is_layout y.small runs)) in
            let now : live out q ≡ some n =
              rw (one_heap layout first t.after gs out g holds1) at e in
            let other : p ≢ q = λ same.
              let (fs, f, d) = used in
              let d' : live hs q ≡ some n = rw (one_heap layout first m fs hs f h) at d in
              let none_there : live hs q ≡ none = rw same at new in
              let clash : none ≡ some n = sym none_there ∙ d' in cc in
            let apart = live_apart out p q k n heap' self now other in
            (
              (out, holds2, now),
              λ x lo hi.
                  let (_, outside) = fill_lem l.size p v x t.after in
                  outside (omega (arith, apart, room)) ∙ bytes x lo hi,
            );
      }

  -- What the two loops come to: blocks for the layouts, each of which is read as it was written, while
  -- the blocks that were live before keep their bytes.
  pub record Filled (fuel : ℕ) (ls : List Layout) (i : ℕ) (m : Memory) : Type 0 where
    pub blocks : List (Layout × ℕ)
    pub after : Memory
    pub fills : fill_all layout first fuel ls i m ≡ done (some (blocks, after))
    pub layouts : map (λ (b : Layout × ℕ). b.0) blocks ≡ ls
    pub checks : check_all blocks i after ≡ true
    pub kept : (q n : ℕ) → LiveAt layout first m q n → Kept layout first q n m after

  first-Filled :
      (l : Layout) (ls : List Layout) (i fuel s : ℕ) (hs : List Header) (m : Memory)
      (a : Round l (i % 256) fuel m hs s)
      → Filled fuel ls (i + 1) (fill l.size a.p (i % 256) a.after)
      → Filled fuel (l ∷ ls) i m
  unfolding fill_all check_all
  first-Filled l ls i fuel s hs m a b =
      let nonnull = a.nonnull in
      let test : (a.p == 0) ≡ false = ground arith in
      let (_, same) = b.kept a.p a.bytes (a.out, a.holds, a.self) in
      let room = a.room in
      let read = check_lem l.size a.p (i % 256) b.after (λ x lo hi.
        let (inside, _) = fill_lem l.size a.p (i % 256) x a.after in
        same x lo (omega (arith, room)) ∙ inside lo hi) in
      record {
        blocks = (l, a.p) ∷ b.blocks;
        after = b.after;
        fills = rw (a.runs, test, b.fills) refl;
        layouts = ap (λ ks. l ∷ ks) b.layouts;
        checks = rw (read, b.checks) refl;
        kept = λ q n used.
            let (now, same1) = a.kept q n used in
            let (then', same2) = b.kept q n now in
            (then', λ x lo hi. same2 x lo hi ∙ same1 x lo hi);
      }

  -- With room for the blocks of the layouts and fuel for the chain that they make, both loops of the test
  -- pass: every block still holds its number when all are filled, and no block that was live before
  -- has lost a byte.
  pub fill_all-Filled :
      {r : ℕ} (s fuel i : ℕ) (ls : List Layout) (hs : List Header) (m : Memory)
      → r ≤ s
      → All (IsServed r) ls
      → length hs + 2 * length ls < fuel
      → Holds layout first m hs
      → HasRoom (s + all_taken ls) hs
      → Filled fuel ls i m
  unfolding fill_all check_all
  fill_all-Filled s fuel i [] hs m big served few h room = record {
    blocks = [];
    after = m;
    fills = refl;
    layouts = refl;
    checks = refl;
    kept = λ q n used. (used, λ x lo hi. refl);
  }
  fill_all-Filled s fuel i (l ∷ ls) hs m big (y, served) few h room =
      let a =
        round (s + all_taken ls) fuel (i % 256) l hs m (omega arith) y (omega arith) h
          (HasRoom-le (omega arith) room) in
      first-Filled l ls i fuel (s + all_taken ls) hs m a (
        fill_all-Filled s fuel (i + 1) ls a.out (fill l.size a.p (i % 256) a.after) big served
          (omega (arith, a.few)) a.holds a.left)
