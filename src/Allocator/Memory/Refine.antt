-- ===== src/Allocator/Memory/Refine.antt =====
-- `alloc_with_options` and `dealloc` of allocator.rs in memory do to the chain what they do to the
-- list of headers, and touch no live block.
use wasabi_os.Common.{
  ℕ, zero, suc, ◌+◌, ◌≤◌, ◌<◌, ◌≡◌, ◌⊎◌, inl, inr, refl, ◌∙◌, Bool-cases, false, Option, none, some,
  List, [], ◌∷◌, ◌++◌, Outcome, done, ◌>>=◌, panic, arith, ◌==◌, length, All,
}
use wasabi_os.Allocator.{Header, header, Layout}
use wasabi_os.Allocator as Lists
use wasabi_os.Allocator.Invariant.{Apart, IsHeap}
use wasabi_os.Allocator.Provide.{IsLayout, max_shift, Gives, provide_lem}
use wasabi_os.Allocator.Live.{live, live_away}
use wasabi_os.Allocator.Memory.{
  cell, HeaderLayout, Memory, load, after_provide, alloc_from, provide,
}
use wasabi_os.Allocator.Memory.Bytes.{load_same}
use wasabi_os.Allocator.Memory.Chain.{Chain, SameOutside, Linked-append, Linked-same, Chain-first}
use wasabi_os.Allocator.Memory.Provide.{provide-none, provide-some}

-- A change inside one region, which is apart from all live blocks and from what all headers are
-- apart from.
pub record Changes (region : Header) (hs : List Header) (m m' : Memory) : Type 0 where
  pub spread : (k : Header) → All (Apart k) hs → Apart k region
  pub blocks :
      (q n : ℕ) → live hs q ≡ some n → (q + n ≤ region.addr) ⊎ (region.addr + region.size ≤ q)
  pub same : SameOutside region m m'

Changes-none : (hs : List Header) (m : Memory) → Changes (header 0 0 false) hs m m
Changes-none hs m = record {
  spread = λ k apart. inr (omega arith);
  blocks = λ q n e. inr (omega arith);
  same = λ x out. refl;
}

Changes-here :
    (h : Header) (rest : List Header) (m m' : Memory)
    → h.is_allocated ≡ false
    → IsHeap (h ∷ rest)
    → SameOutside h m m'
    → Changes h (h ∷ rest) m m'
unfolding live
Changes-here h rest m m' free heap same = record {
  spread = λ k apart. apart.0;
  blocks = λ q n e.
      let e' : live rest q ≡ some n = rw free at e in
      let away = live_away h rest q n heap.2 heap.1 e' in omega arith;
  same = same;
}

pub Changes-there :
    (g h : Header) (rest : List Header) (m m' : Memory)
    → IsHeap (h ∷ rest)
    → Changes g rest m m'
    → Changes g (h ∷ rest) m m'
unfolding live
Changes-there g h rest m m' heap c =
    let r = heap.0 in
    let apart = c.spread h heap.1 in
    record {
      spread = λ k apart. c.spread k apart.1;
      blocks = λ q n e. ground (arith, c.blocks q n);
      same = c.same;
    }

module _ (layout : HeaderLayout) where
  -- What a call of `alloc_with_options` comes to, from the chain of `hs` on.
  pub record Refined (fuel : ℕ) (l : Layout) (p : ℕ) (hs : List Header) (m : Memory) : Type 0 where
    pub answer : ℕ
    pub out : List Header
    pub after : Memory
    pub runs : alloc_from layout fuel l p m ≡ done (some (answer, after))
    pub abstract : Lists.alloc_with_options l hs ≡ done (answer, out)
    pub chain : Chain layout after p out
    pub region : Header
    pub changes : Changes region hs m after

  module _ (fuel : ℕ) (l : Layout) (h : Header) (rest : List Header) (n : ℕ) (m : Memory)
      (heap : IsHeap (h ∷ rest)) (e : load layout h.addr m ≡ cell n h.size h.is_allocated)
      (links : Chain layout m n rest) where
    Refined-here :
        (q : ℕ) (hs : List Header)
        → Lists.provide h l.size l.align ≡ done (some (q, hs))
        → Gives h l q hs
        → Refined (suc fuel) l h.addr (h ∷ rest) m
    unfolding alloc_from Lists.alloc_with_options Lists.resume
    Refined-here q hs gave g =
        let r = heap.0 in
        let nonnull : (h.addr == 0) ≡ false = ground arith in
        let first = Chain-first layout m n rest heap.2 links in
        let (m', run, segment, same) = provide-some layout h n m e l q hs r first g in
        let behind = Linked-same layout m m' h n 0 rest same heap.2 heap.1 links in
        record {
          answer = q;
          out = hs ++ rest;
          after = m';
          runs = rw (nonnull, run) refl;
          abstract = rw gave refl;
          chain = Linked-append layout m' h.addr n 0 hs rest segment behind;
          region = h;
          changes = Changes-here h rest m m' g.free heap same;
        }

    Refined-there :
        Lists.provide h l.size l.align ≡ done none
        → Refined fuel l n rest m
        → Refined (suc fuel) l h.addr (h ∷ rest) m
    unfolding alloc_from Lists.alloc_with_options Lists.resume
    Refined-there refused t =
        let r = heap.0 in
        let nonnull : (h.addr == 0) ≡ false = ground arith in
        let run = provide-none layout h n m e l.size l.align refused in
        let apart = t.changes.spread h heap.1 in
        let here = load_same layout h.addr m t.after (λ x lo hi. t.changes.same x (omega arith)) in
        record {
          answer = t.answer;
          out = h ∷ t.out;
          after = t.after;
          runs = rw (nonnull, run, e) t.runs;
          abstract = rw (refused, t.abstract) refl;
          chain = (n, refl, here ∙ e, t.chain);
          region = t.region;
          changes = Changes-there t.region h rest m t.after heap t.changes;
        }

  -- With more fuel than headers, `alloc_with_options` over the memory of a heap ends with the answer
  -- that it has over the list; the chain is then the new list, and the only bytes that it has
  -- changed are of one region, which is apart from every live block.
  pub alloc_from-Refined :
      (l : Layout) (y : IsLayout l)
      → y.shift ≤ max_shift
      → (hs : List Header) (fuel p : ℕ) (m : Memory) → length hs < fuel
      → IsHeap hs
      → Chain layout m p hs
      → Refined fuel l p hs m
  unfolding alloc_from Lists.alloc_with_options
  alloc_from-Refined l y small hs zero p m few heap chain = elim few [ ]
  alloc_from-Refined l y small [] (suc fuel) p m few heap chain = record {
    answer = 0;
    out = [];
    after = m;
    runs = rw chain refl;
    abstract = refl;
    chain = chain;
    region = header 0 0 false;
    changes = Changes-none [] m;
  }
  alloc_from-Refined l y small (h ∷ rest) (suc fuel) p m few heap (n, at, e, links) =
      let e' : load layout h.addr m ≡ cell n h.size h.is_allocated = rw at e in
      rw (← at) (elim (provide_lem h l heap.0 y small) [
        | inl (refused, why) ↦
            Refined-there fuel l h rest n m heap e' links refused
              (alloc_from-Refined l y small rest fuel n m (omega arith) heap.2 links)
        | inr (q, hs, gave, g) ↦ Refined-here fuel l h rest n m heap e' links q hs gave g
      ])

  -- However much fuel there is, a call that ends has one answer.
  after_unique :
      (a : ℕ) (o : Outcome (Option ℕ × Memory)) (j k : ℕ → Memory → Outcome (Option (ℕ × Memory)))
      (r s : ℕ × Memory)
      → ((b : ℕ) (m : Memory) → j b m ≡ done (some r) → k b m ≡ done (some s) → r ≡ s)
      → (o >>= λ t. after_provide layout a t j) ≡ done (some r)
      → (o >>= λ t. after_provide layout a t k) ≡ done (some s)
      → r ≡ s
  after_unique a panic j k r s ih e f = cc
  after_unique a (done (some p, m)) j k r s ih e f = cc
  after_unique a (done (none, m)) j k r s ih e f = ih (load layout a m).next m e f

  pub alloc_unique :
      (f g : ℕ) (l : Layout) (a : ℕ) (m : Memory) (r s : ℕ × Memory)
      → alloc_from layout f l a m ≡ done (some r)
      → alloc_from layout g l a m ≡ done (some s)
      → r ≡ s
  unfolding alloc_from
  alloc_unique zero g l a m r s e e' = cc
  alloc_unique (suc f) zero l a m r s e e' = cc
  alloc_unique (suc f) (suc g) l a m r s e e' = elim (Bool-cases (a == 0)) [
    | inl null ↦
        let e1 : done (some (0, m)) ≡ done (some r) = rw null at e in
        let e2 : done (some (0, m)) ≡ done (some s) = rw null at e' in cc
    | inr more ↦
        after_unique a (provide layout a l.size l.align m) (alloc_from layout f l)
          (alloc_from layout g l) r s (λ b n. alloc_unique f g l b n r s) (rw more at e)
          (rw more at e')
  ]
