-- ===== src/Allocator/Memory/Writes.antt =====
-- `Header::provide` of allocator.rs in memory: what its statements leave in the headers, and that they
-- write no byte outside of these.
use wasabi_os.Common.{
  ℕ, ◌+◌, ◌-◌, ◌^◌, ◌≤◌, ◌<◌, ◌≡◌, ◌⊎◌, ap, ◌∙◌, Bool, true, false, some, done, arith,
}
use wasabi_os.Allocator.Memory.{
  Cell, cell, HeaderLayout, Memory, load, set_size, set_allocated, set_next, write_new, take_next,
  write_allocated, write_padding, settle,
}
use wasabi_os.Allocator.Memory.Bytes.{load-store, load-store_apart, store_outside}

-- Two headers share no byte.
abbrev pub Aside : ℕ → ℕ → Type 0
Aside a b = (a + 32 ≤ b) ⊎ (b + 32 ≤ a)

-- No byte of the header.
abbrev pub Off : ℕ → ℕ → Type 0
Off a x = (x < a) ⊎ (a + 32 ≤ x)

module _ (layout : HeaderLayout) where
  abbrev pub At : ℕ → Memory → ℕ → ℕ → Bool → Type 0
  At a m n s b = load layout a m ≡ cell n s b

  module _ (a n s : ℕ) (b : Bool) (m : Memory) (e : At a m n s b) where
    pub set_size-At : (t : ℕ) → n < 2 ^ 64 → t < 2 ^ 64 → At a (set_size layout a t m) n t b
    set_size-At t hn ht = rw e (load-store layout a (cell n t b) m (omega arith))

    pub set_allocated-At :
        (c : Bool) → n < 2 ^ 64 → s < 2 ^ 64 → At a (set_allocated layout a c m) n s c
    set_allocated-At c hn hs = rw e (load-store layout a (cell n s c) m (omega arith))

    pub set_next-At : (k : ℕ) → k < 2 ^ 64 → s < 2 ^ 64 → At a (set_next layout a k m) k s b
    set_next-At k hk hs = rw e (load-store layout a (cell k s b) m (omega arith))

  -- A new header, with its flag and its size.
  write_sized : ℕ → ℕ → Bool → Memory → Memory
  write_sized at size b m =
      set_size layout at size (set_allocated layout at b (write_new layout at m))

  write_sized-At :
      (at size : ℕ) (b : Bool) (m : Memory)
      → size < 2 ^ 64
      → At at (write_sized at size b m) 0 size b
  unfolding write_sized
  write_sized-At at size b m h =
      let new = load-store layout at (cell 0 0 false) m (omega arith) in
      let flagged =
        set_allocated-At at 0 0 false (write_new layout at m) new b (omega arith) (omega arith) in
      set_size-At at 0 0 b (set_allocated layout at b (write_new layout at m)) flagged size
        (omega arith) h

  write_sized_apart :
      (at size a : ℕ) (b : Bool) (m : Memory)
      → Aside at a
      → load layout a (write_sized at size b m) ≡ load layout a m
  unfolding write_sized
  write_sized_apart at size a b m apart =
      load-store_apart layout at a _ (set_allocated layout at b (write_new layout at m)) apart
      ∙ load-store_apart layout at a _ (write_new layout at m) apart
      ∙ load-store_apart layout at a _ m apart

  write_sized_outside :
      (at size : ℕ) (b : Bool) (m : Memory) (x : ℕ) → Off at x → write_sized at size b m x ≡ m x
  unfolding write_sized
  write_sized_outside at size b m x out =
      store_outside layout at _ (set_allocated layout at b (write_new layout at m)) x out
      ∙ store_outside layout at _ (write_new layout at m) x out
      ∙ store_outside layout at _ m x out

  -- Two headers after a link has moved from one to the other, or after the first has got another link.
  pub record Pair (a b : ℕ) (ca cb : Cell) (m m' : Memory) : Type 0 where
    pub front : load layout a m' ≡ ca
    pub back : load layout b m' ≡ cb
    pub off : (x : ℕ) → Off a x → Off b x → m' x ≡ m x

  take_next-Pair :
      (a b n s k t : ℕ) (f g : Bool) (m : Memory)
      → Aside a b
      → At a m n s f
      → At b m k t g
      → n < 2 ^ 64
      → s < 2 ^ 64
      → t < 2 ^ 64
      → Pair a b (cell 0 s f) (cell n t g) m (take_next layout a b m)
  take_next-Pair a b n s k t f g m apart ea eb hn hs ht =
      let m1 : Memory = set_next layout a 0 m in
      let a1 : At a m1 0 s f = set_next-At a n s f m ea 0 (omega arith) hs in
      let b1 : At b m1 k t g = load-store_apart layout a b _ m apart ∙ eb in
      let link : take_next layout a b m ≡ set_next layout b n m1 =
        ap (λ (c : Cell). set_next layout b c.next m1) ea in
      record {
        front = ap (load layout a) link ∙ (load-store_apart layout b a _ m1 (omega arith) ∙ a1);
        back = ap (load layout b) link ∙ set_next-At b k t g m1 b1 n hn ht;
        off = λ x oa ob. store_outside layout b _ m1 x ob ∙ store_outside layout a _ m x oa;
      }

  pub write_allocated-Pair :
      (a at n s total : ℕ) (m : Memory)
      → Aside a at
      → At a m n s false
      → n < 2 ^ 64
      → s < 2 ^ 64
      → total < 2 ^ 64
      → Pair a at (cell 0 s false) (cell n total true) m (write_allocated layout a at total m)
  unfolding write_sized
  write_allocated-Pair a at n s total m apart ea hn hs ht =
      let m1 = write_sized at total true m in
      let away = write_sized_apart at total a true m (omega arith) in
      let p =
        take_next-Pair a at n s 0 total false true m1 apart (away ∙ ea)
          (write_sized-At at total true m ht) hn hs ht in
      record {
        front = p.front;
        back = p.back;
        off = λ x oa ob. p.off x oa ob ∙ write_sized_outside at total true m x ob;
      }

  pub write_padding-Pair :
      (at pad n total size : ℕ) (m : Memory)
      → Aside at pad
      → At at m n total true
      → n < 2 ^ 64
      → total < 2 ^ 64
      → size < 2 ^ 64
      → pad < 2 ^ 64
      → Pair at pad (cell pad total true) (cell n size false) m (write_padding layout at pad size m)
  unfolding write_sized
  write_padding-Pair at pad n total size m apart e hn ht hs hp =
      let m1 = write_sized pad size false m in
      let away = write_sized_apart pad size at false m (omega arith) in
      let p =
        take_next-Pair at pad n total 0 size true false m1 apart (away ∙ e)
          (write_sized-At pad size false m hs) hn ht hs in
      let m2 = take_next layout at pad m1 in
      record {
        front = set_next-At at 0 total true m2 p.front pad hp ht;
        back = load-store_apart layout at pad _ m2 apart ∙ p.back;
        off = λ x oa ob.
            store_outside layout at _ m2 x oa
            ∙ p.off x oa ob
            ∙ write_sized_outside pad size false m x ob;
      }

  pub settle_lem :
      (a n s used at p : ℕ) (m : Memory)
      → At a m n s false
      → n < 2 ^ 64
      → s < 2 ^ 64
      → at < 2 ^ 64
      → used + 32 ≤ s
      → (m' : Memory) × (settle layout a used at p m ≡ done (some p, m'))
        × At a m' at (s - used) false
        × ((x : ℕ) → Off a x → m' x ≡ m x)
  unfolding settle
  settle_lem a n s used at p m e hn hs hat fits =
      let m1 : Memory = set_size layout a (s - used) m in
      let sized = set_size-At a n s false m e (s - used) hn (omega arith) in
      (
        set_next layout a at m1,
        rw e (ground arith),
        set_next-At a n (s - used) false m1 sized at hat (omega arith),
        λ x off. store_outside layout a _ m1 x off ∙ store_outside layout a _ m x off,
      )
