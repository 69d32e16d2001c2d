-- ===== src/Allocator/Boxed.antt =====
-- What the allocator gives for boxes: `Box::new` and `Box::pin` do not fail on a heap with room.
use wasabi_os.Common.{
  ℕ, ◌%◌, ◌+◌, ◌^◌, ◌≤◌, ◌<◌, ◌≡◌, ◌≢◌, inl, inr, refl, ◌∙◌, Bool-cases, true, false, none, some,
  List, [], ◌∷◌, done, arith, ◌==◌, All, All-imp, All-zip,
}
use wasabi_os.Allocator.{Header, Layout, alloc_with_options}
use wasabi_os.Allocator.Invariant.{IsHeap}
use wasabi_os.Allocator.Alloc.{Placed, here, there, alloc_lem, Placed-IsHeap}
use wasabi_os.Allocator.Live.{live, Placed-live, Placed-fresh, Placed-aligned, Placed-nonnull}
use wasabi_os.Allocator.Boxes.{
  new_boxes, HasRoom, HasRoom-le, HasRoom-absurd, HasRoom-Placed, taken, all_taken, least_region,
  IsSmall, IsServed,
}

-- An address of a new block has 64 bits.
Placed-range :
    {l : Layout} {p : ℕ} {hs out : List Header} → Placed l p hs out → IsHeap hs → p < 2 ^ 64
Placed-range (here g e) heap =
    let r = heap.0 in let below = g.below in omega (arith, below, r.in_range)
Placed-range (there why placed) heap = Placed-range placed heap.2

-- The address of a live block for the layout.
pub record IsBox (out : List Header) (l : Layout) (b : ℕ) : Type 0 where
  pub aligned : b % l.align ≡ 0
  pub in_range : b < 2 ^ 64
  pub bytes : ℕ
  pub room : l.size ≤ bytes
  pub is_live : live out b ≡ some bytes

-- Boxes for the layouts, in their order, at different addresses.
pub data AreBoxes (out : List Header) : List Layout → List ℕ → Type 0 where
  no_box : AreBoxes out [] []
  one_more :
      {l : Layout} {ls : List Layout} {b : ℕ} {bs : List ℕ}
      → IsBox out l b
      → All (λ c. c ≢ b) bs
      → AreBoxes out ls bs
      → AreBoxes out (l ∷ ls) (b ∷ bs)

-- Blocks that stay live stay boxes.
pub AreBoxes-kept :
    {hs out : List Header} {ls : List Layout} {bs : List ℕ}
    → ((q k : ℕ) → live hs q ≡ some k → live out q ≡ some k)
    → AreBoxes hs ls bs
    → AreBoxes out ls bs
AreBoxes-kept keeps no_box = no_box
AreBoxes-kept keeps (one_more {b = b} box others boxes) =
    one_more
      (record {
        aligned = box.aligned;
        in_range = box.in_range;
        bytes = box.bytes;
        room = box.room;
        is_live = keeps b box.bytes box.is_live;
      })
      others (AreBoxes-kept keeps boxes)

-- They are not at addresses where no block is live.
pub AreBoxes-apart :
    {hs : List Header} {ls : List Layout} {bs : List ℕ} (ts : List ℕ)
    → All (λ t. live hs t ≡ none) ts
    → AreBoxes hs ls bs
    → All (λ b. All (λ t. t ≢ b) ts) bs
AreBoxes-apart ts fresh no_box = tt
AreBoxes-apart {hs} ts fresh (one_more {b = b} box others boxes) = (
  All-imp (λ t. live hs t ≡ none) (λ t. t ≢ b) ts
      (λ t e same. let here : live hs b ≡ none = rw same at e in let there = box.is_live in cc)
      fresh,
  AreBoxes-apart ts fresh boxes,
)

-- What the boxes are: live blocks that were not live before. What was live stays so.
pub record Boxed (ls : List Layout) (hs : List Header) (bs : List ℕ) (out : List Header)
    : Type 0 where
  pub heap : IsHeap out
  pub fresh : All (λ b. live hs b ≡ none) bs
  pub boxes : AreBoxes out ls bs
  pub keeps : (q k : ℕ) → live hs q ≡ some k → live out q ≡ some k

first-Boxed :
    (l : Layout) (ls : List Layout) (p : ℕ) (hs mid : List Header) (bs : List ℕ) (out : List Header)
    → IsHeap hs
    → Placed l p hs mid
    → Boxed ls mid bs out
    → Boxed (l ∷ ls) hs (p ∷ bs) out
first-Boxed l ls p hs mid bs out heap placed b =
    let (k, room, view) = Placed-live placed heap in
    let self : live mid p ≡ some k =
      let v = view p in let hit : (p == p) ≡ true = ground arith in rw hit at v in
    let new = Placed-fresh placed heap in
    let others : All (λ c. c ≢ p) bs =
      All-imp (λ c. live mid c ≡ none) (λ c. c ≢ p) bs
        (λ c e same. let e' : live mid p ≡ none = rw same at e in cc) b.fresh in
    let unseen =
      All-imp (λ c. (c ≢ p) × (live mid c ≡ none)) (λ c. live hs c ≡ none) bs
        (λ c both. let v = view c in let ne = both.0 in let e = both.1 in ground arith)
        (All-zip (λ c. c ≢ p) (λ c. live mid c ≡ none) bs others b.fresh) in
    record {
      heap = b.heap;
      fresh = (new, unseen);
      boxes =
          one_more
            (record {
              aligned = Placed-aligned placed;
              in_range = Placed-range placed heap;
              bytes = k;
              room = room;
              is_live = b.keeps p k self;
            })
            others b.boxes;
      keeps = λ q j e. b.keeps q j (elim (Bool-cases (p == q)) [
        | inl hit ↦
            let same : p ≡ q = ground arith in let e' : live hs q ≡ none = rw same at new in cc
        | inr miss ↦ let v = view q in (rw miss at v) ∙ e
      ]);
    }

-- One call, on a heap with room for its block: it gives the block, and leaves the room that is not
-- its own.
pub alloc_small :
    {r : ℕ} (s : ℕ) (l : Layout) (hs : List Header)
    → r ≤ s
    → IsServed r l
    → IsHeap hs
    → HasRoom (s + taken l) hs
    → (p : ℕ) × (out : List Header) × (alloc_with_options l hs ≡ done (p, out))
      × Placed l p hs out
      × IsHeap out
      × HasRoom s out
alloc_small s l hs big y heap room = elim (alloc_lem l y.is_layout y.small hs heap) [
  | inl (null, why) ↦ absurd (omega (arith, HasRoom-absurd y (omega arith) room why))
  | inr (p, out, run, placed) ↦
      (p, out, run, placed, Placed-IsHeap placed heap, HasRoom-Placed y placed heap room)
]

-- With a free region of `least_region` bytes, and what the boxes take, the allocator gives boxes for
-- the layouts, and none of the calls panics. The region that is left for other boxes is as large as
-- it was, less what these take.
pub new_boxes-Boxed :
    (s : ℕ) (ls : List Layout) (hs : List Header)
    → least_region ≤ s
    → All IsSmall ls
    → IsHeap hs
    → HasRoom (s + all_taken ls) hs
    → (bs : List ℕ) × (out : List Header) × (new_boxes ls hs ≡ done (bs, out))
      × Boxed ls hs bs out
      × HasRoom s out
unfolding new_boxes
new_boxes-Boxed s [] hs big small heap room = (
  [],
  hs,
  refl,
  record { heap = heap; fresh = tt; boxes = no_box; keeps = λ q k e. e },
  HasRoom-le (omega arith) room,
)
new_boxes-Boxed s (l ∷ ls) hs big (y, small) heap room =
    let (p, mid, run, placed, heap', left) =
      alloc_small (s + all_taken ls) l hs (omega arith) y heap (HasRoom-le (omega arith) room) in
    let (bs, out, runs, b, rest) = new_boxes-Boxed s ls mid big small heap' left in
    let nonnull = Placed-nonnull placed in
    let test : (p == 0) ≡ false = ground arith in
    (p ∷ bs, out, rw (run, test, runs) refl, first-Boxed l ls p hs mid bs out heap placed b, rest)
