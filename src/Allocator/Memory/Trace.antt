-- ===== src/Allocator/Memory/Trace.antt =====
-- What the owner of a block of allocator.rs may rely on, whatever the other users of the heap do.
use wasabi_os.Common.{
  ℕ, suc, ◌+◌, ◌-◌, ◌≤◌, ◌<◌, ◌≡◌, ◌≢◌, ◌⊎◌, inl, inr, refl, ap, ◌∙◌, Bool-cases, false, none, some,
  List, done, arith, ◌==◌, if◌then◌else◌, length, All-imp,
}
use wasabi_os.Allocator.{Header, header, Layout}
use wasabi_os.Allocator as Lists
use wasabi_os.Allocator.Invariant.{IsHeap}
use wasabi_os.Allocator.Provide.{IsLayout, max_shift}
use wasabi_os.Allocator.Live.{live, dealloc-live, live_apart}
use wasabi_os.Allocator.Contract.{alloc_with_options-Answer}
use wasabi_os.Allocator.Memory.{HeaderLayout, Memory, alloc_from, dealloc}
use wasabi_os.Allocator.Memory.Chain.{Chain, KeepsHeader, Chain-unique, Linked-kept, IsHeap-regions}
use wasabi_os.Allocator.Memory.Refine.{alloc_from-Refined, alloc_unique}
use wasabi_os.Allocator.Memory.Free.{le-live, headers_away, dealloc-FreedFrom}

abbrev pub write_byte : ℕ → ℕ → Memory → Memory
write_byte x v m y = if y == x then v else m y

module _ (layout : HeaderLayout) (first : ℕ) where
  -- The chain from `first` on is the heap `hs`.
  pub record Holds (m : Memory) (hs : List Header) : Type 0 where
    pub heap : IsHeap hs
    pub chain : Chain layout m first hs

  -- A block of n bytes at p is live.
  abbrev pub LiveAt : Memory → ℕ → ℕ → Type 0
  LiveAt m p n = (hs : List Header) × Holds m hs × (live hs p ≡ some n)

  -- What the others may do while the block at q is in use: allocate, free a live block, and write into
  -- a live block, each another one than that at q.
  pub data Step (q : ℕ) (m m' : Memory) : Type 0 where
    alloc :
        (fuel : ℕ) {p : ℕ} (l : Layout) (y : IsLayout l)
        → y.shift ≤ max_shift
        → alloc_from layout fuel l first m ≡ done (some (p, m'))
        → Step q m m'
    free : {n : ℕ} (p : ℕ) → LiveAt m p n → p ≢ q → m' ≡ dealloc layout p m → Step q m m'
    write :
        {n : ℕ} (p x v : ℕ)
        → LiveAt m p n
        → p ≢ q
        → p ≤ x
        → x < p + n
        → m' ≡ write_byte x v m
        → Step q m m'

  pub data Reach (q : ℕ) (m : Memory) : Memory → Type 0 where
    here : Reach q m m
    later : {m1 m2 : Memory} → Reach q m m1 → Step q m1 m2 → Reach q m m2

  -- The block is live, and holds what it held.
  abbrev pub Kept : ℕ → ℕ → Memory → Memory → Type 0
  Kept q n m m' = LiveAt m' q n × ((x : ℕ) → q ≤ x → x < q + n → m' x ≡ m x)

  pub one_heap : (m : Memory) (hs gs : List Header) → Holds m hs → Holds m gs → hs ≡ gs
  one_heap m hs gs a b =
      Chain-unique layout m first hs gs (IsHeap-regions hs a.heap) (IsHeap-regions gs b.heap)
        a.chain b.chain

  -- The block is still in the view after a call of the allocator.
  alloc-live :
      (q n : ℕ) (l : Layout) (y : IsLayout l) (hs : List Header) (p : ℕ) (out : List Header)
      → y.shift ≤ max_shift
      → IsHeap hs
      → live hs q ≡ some n
      → Lists.alloc_with_options l hs ≡ done (p, out)
      → IsHeap out × (live out q ≡ some n)
  alloc-live q n l y hs p out small heap e run =
      let (p', out', run', a) = alloc_with_options-Answer l y hs small heap in
      let same : out' ≡ out = cc in
      rw (← same) (
        a.heap,
        elim a.cases [
          | inl (null, unchanged, why) ↦ rw unchanged e
          | inr added ↦ elim (Bool-cases (p' == q)) [
            | inl hit ↦
                let at : p' ≡ q = ground arith in
                let none_there = added.fresh in
                let bad : live hs q ≡ none = rw at at none_there in
                let clash : none ≡ some n = cc in cc
            | inr miss ↦ let view = added.view q in let v = rw miss at view in v ∙ e
          ]
        ],
      )

  alloc-Kept :
      (q n fuel p : ℕ) (m m' : Memory) (l : Layout) (y : IsLayout l)
      → y.shift ≤ max_shift
      → alloc_from layout fuel l first m ≡ done (some (p, m'))
      → LiveAt m q n
      → Kept q n m m'
  alloc-Kept q n fuel p m m' l y small run (hs, h, e) =
      let t =
        alloc_from-Refined layout l y small hs (suc (length hs)) first m (omega arith) h.heap
          h.chain in
      let same : (t.answer, t.after) ≡ (p, m') =
        alloc_unique layout (suc (length hs)) fuel l first m (t.answer, t.after) (p, m') t.runs
          run in
      let after : t.after ≡ m' = ap (λ (r : ℕ × Memory). r.1) same in
      let (heap, still) = alloc-live q n l y hs t.answer t.out small h.heap e t.abstract in
      rw (← after) (
        (t.out, record { heap = heap; chain = t.chain }, still),
        λ x lo hi. let b = t.changes.blocks q n e in t.changes.same x (omega arith),
      )

  free-Kept :
      (q n k p : ℕ) (m : Memory)
      → LiveAt m p k
      → p ≢ q
      → LiveAt m q n
      → Kept q n m (dealloc layout p m)
  unfolding dealloc
  free-Kept q n k p m (gs, g, d) other (hs, h, e) =
      let same : gs ≡ hs = one_heap m gs hs g h in
      let d' : live hs p ≡ some k = rw same at d in
      let a : ℕ = p - 32 in
      let below : a + 32 ≡ p = omega (arith, le-live hs p k d') in
      let f = dealloc-FreedFrom layout hs a k first m h.heap h.chain (rw below d') in
      let (out, run, freed) = dealloc-live p k hs h.heap d' in
      let abstract : Lists.dealloc p hs ≡ some f.out = rw below at f.abstract in
      let result : out ≡ f.out = cc in
      let miss : (p == q) ≡ false = ground arith in
      let gone = freed.gone q in
      let still : live out q ≡ some n = (rw miss at gone) ∙ e in
      (
        (f.out, record { heap = rw (← result) freed.heap; chain = f.chain }, rw (← result) still),
        λ x lo hi. let b = f.changes.blocks q n e in f.changes.same x (omega arith),
      )

  -- A write into a live block leaves the chain.
  pub write-Holds :
      (p k x v : ℕ) (m : Memory) (hs : List Header)
      → Holds m hs
      → live hs p ≡ some k
      → p ≤ x
      → x < p + k
      → Holds (write_byte x v m) hs
  write-Holds p k x v m hs h d lo hi =
      let away = headers_away hs p k h.heap d in
      let kept =
        All-imp (λ g. (g.addr + 32 ≤ p) ⊎ (p + k ≤ g.addr)) (KeepsHeader m (write_byte x v m)) hs
          (λ g b y l u. ground arith) away in
      record {
        heap = h.heap;
        chain = Linked-kept layout m (write_byte x v m) first 0 hs kept h.chain;
      }

  write-Kept :
      (q n k p x v : ℕ) (m : Memory)
      → LiveAt m p k
      → p ≢ q
      → p ≤ x
      → x < p + k
      → LiveAt m q n
      → Kept q n m (write_byte x v m)
  write-Kept q n k p x v m (gs, g, d) other lo hi (hs, h, e) =
      let same : gs ≡ hs = one_heap m gs hs g h in
      let d' : live hs p ≡ some k = rw same at d in
      let apart = live_apart hs p q k n h.heap d' e other in
      ((hs, write-Holds p k x v m hs h d' lo hi, e), λ y l u. ground arith)

  Step-Kept : (q n : ℕ) {m m' : Memory} → Step q m m' → LiveAt m q n → Kept q n m m'
  Step-Kept q n {m} {m'} (alloc fuel {p} l y small run) used =
      alloc-Kept q n fuel p m m' l y small run used
  Step-Kept q n {m} {m'} (free {n = k} p block other is) used =
      rw is (free-Kept q n k p m block other used)
  Step-Kept q n {m} {m'} (write {n = k} p x v block other lo hi is) used =
      rw is (write-Kept q n k p x v m block other lo hi used)

  -- A live block stays live and keeps its bytes while others allocate, free their blocks and write
  -- into theirs, in any number and order.
  pub Reach-Kept : (q n : ℕ) {m m' : Memory} → LiveAt m q n → Reach q m m' → Kept q n m m'
  Reach-Kept q n used here = (used, λ x lo hi. refl)
  Reach-Kept q n used (later r s) =
      let (before, same) = Reach-Kept q n used r in
      let (after, same') = Step-Kept q n s before in
      (after, λ x lo hi. same' x lo hi ∙ same x lo hi)
