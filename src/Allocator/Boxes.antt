-- ===== src/Allocator/Boxes.antt =====
-- Boxes: `Box::new` and `Box::pin` are calls of the allocator.
use wasabi_os.Common.{
  ℕ, zero, max, ◌+◌, ◌*◌, ◌^◌, ◌≤◌, ◌<◌, ◌≡◌, refl, false, List, [], ◌∷◌, ◌++◌, Outcome, done,
  panic, ◌>>=◌, arith, ◌==◌, if◌then◌else◌, All,
}
use wasabi_os.Allocator.{Header, Layout, alloc_with_options}
use wasabi_os.Allocator.Invariant.{IsHeap}
use wasabi_os.Allocator.Provide.{IsLayout, max_shift, NoRoom, spot_bounds}
use wasabi_os.Allocator.Alloc.{Placed, here, there}

-- `LAYOUT_PAGE_4K`, which is the layout of a table.
abbrev pub layout_page_4k : Layout
layout_page_4k = record { size = 4096; align = 4096 }

-- A box at the address that the allocator answered, in front of the later ones; with a null pointer
-- the program ends.
abbrev boxed :
    ℕ × List Header
    → (List Header → Outcome (List ℕ × List Header))
    → Outcome (List ℕ × List Header)
boxed (p, out) later =
    if p == 0 then panic else later out >>= λ (r : List ℕ × List Header). done (p ∷ r.0, r.1)

-- Boxes of these layouts, one after the other.
unfoldable pub new_boxes : List Layout → List Header → Outcome (List ℕ × List Header)
new_boxes [] hs = done ([], hs)
new_boxes (l ∷ ls) hs = alloc_with_options l hs >>= λ r. boxed r (λ out. new_boxes ls out)

-- A free region of at least s bytes.
pub data HasRoom (s : ℕ) : List Header → Type 0 where
  at_front :
      {h : Header} {hs : List Header} → h.is_allocated ≡ false → s ≤ h.size → HasRoom s (h ∷ hs)
  behind : {h : Header} {hs : List Header} → HasRoom s hs → HasRoom s (h ∷ hs)

-- More than a box takes from its region, with its header and the alignment.
abbrev pub taken : Layout → ℕ
taken l = max 32 (2 * l.size) + max l.align 32 + 32

abbrev pub all_taken : List Layout → ℕ
all_taken [] = 0
all_taken (l ∷ ls) = taken l + all_taken ls

-- A region of this size has room for each box of the boot, with the slack that `can_provide` asks for.
abbrev pub least_region : ℕ
least_region = 270336

-- A layout that a region of r bytes has room for.
pub record IsServed (r : ℕ) (l : Layout) : Type 0 where
  pub is_layout : IsLayout l
  pub small : is_layout.shift ≤ max_shift
  pub power : ℕ
  pub align_pow : max l.align 32 ≡ 2 ^ power
  pub power_le : power ≤ 64
  pub pos : 0 < l.size
  pub served : max 32 (2 * l.size) + 64 * max l.align 32 ≤ r

abbrev pub IsSmall : Layout → Type 0
IsSmall = IsServed least_region

pub page-IsSmall : IsSmall layout_page_4k
page-IsSmall = record {
  is_layout = record { shift = 12; align_pow = refl; fits = omega arith };
  small = omega arith;
  power = 12;
  align_pow = refl;
  power_le = omega arith;
  pos = omega arith;
  served = omega arith;
}

-- So is the layout of some bytes.
pub bytes-IsSmall : (n : ℕ) → 0 < n → n ≤ 65536 → IsSmall (record { size = n; align = 1 })
bytes-IsSmall n pos le = record {
  is_layout = record { shift = 0; align_pow = refl; fits = omega arith };
  small = omega arith;
  power = 5;
  align_pow = refl;
  power_le = omega arith;
  pos = pos;
  served = omega arith;
}

pub HasRoom-le : {s t : ℕ} {hs : List Header} → s ≤ t → HasRoom t hs → HasRoom s hs
HasRoom-le le (at_front free fits) = at_front free (omega arith)
HasRoom-le le (behind room) = behind (HasRoom-le le room)

HasRoom-append : {s : ℕ} (gs : List Header) {hs : List Header} → HasRoom s hs → HasRoom s (gs ++ hs)
HasRoom-append [] room = room
HasRoom-append (g ∷ gs) room = behind (HasRoom-append gs room)

pub HasRoom-absurd :
    {s r : ℕ} {l : Layout} {hs : List Header}
    → IsServed r l
    → r ≤ s
    → HasRoom s hs
    → All (NoRoom l) hs
    → zero ≡ 1
HasRoom-absurd y big (at_front free fits) why =
    let w = why.0 in let pos = y.pos in let served = y.served in ground arith
HasRoom-absurd y big (behind room) why = HasRoom-absurd y big room why.1

pub HasRoom-Placed :
    {s p r : ℕ} {l : Layout} {hs out : List Header}
    → IsServed r l
    → Placed l p hs out
    → IsHeap hs
    → HasRoom (s + taken l) hs
    → HasRoom s out
HasRoom-Placed {l = l} y (here {h} {hs} {rest} g e) heap (at_front free fits) =
    let c = g.carving in
    let r = heap.0 in
    let tight = g.tight in
    let b =
      spot_bounds h g.block (max l.align 32) y.power y.power r.in_range y.align_pow y.power_le
        (omega arith) in
    let at_spot = c.at_spot in rw (e, g.shape) (at_front free (omega (arith, at_spot, b.0, b.1)))
HasRoom-Placed y (here {h} {hs} {rest} g e) heap (behind room) =
    rw e (HasRoom-append hs (HasRoom-le (omega arith) room))
HasRoom-Placed y (there why placed) heap (at_front free fits) = at_front free (omega arith)
HasRoom-Placed y (there why placed) heap (behind room) =
    behind (HasRoom-Placed y placed heap.2 room)
