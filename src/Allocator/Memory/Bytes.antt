-- ===== src/Allocator/Memory/Bytes.antt =====
-- What a load gives after a store of the memory of allocator.rs.
use wasabi_os.Common.{ℕ, ◌+◌, ◌-◌, ◌<◌, ◌≤◌, ◌≡◌, ◌⊎◌, ap, ◌∙◌, arith}
use wasabi_os.Allocator.Memory.{Cell, IsCell, HeaderLayout, Memory, load, store}

module _ (layout : HeaderLayout) where
  pub load-store :
      (a : ℕ) (c : Cell) (m : Memory) → IsCell c → load layout a (store layout a c m) ≡ c
  unfolding load store
  load-store a c m k =
      layout.decode_local (λ i. store layout a c m (a + i)) (layout.encode c)
        (λ i h.
          let e : a + i - a ≡ i = omega arith in
          ground (arith, ap (λ (t : ℕ). layout.encode c t) e))
      ∙ layout.decode-encode c k

  -- A load of 32 bytes that no change has reached.
  pub load_same :
      (a : ℕ) (m m' : Memory)
      → ((x : ℕ) → a ≤ x → x < a + 32 → m' x ≡ m x)
      → load layout a m' ≡ load layout a m
  unfolding load
  load_same a m m' same =
      layout.decode_local (λ i. m' (a + i)) (λ i. m (a + i))
        (λ i h. same (a + i) (omega arith) (omega arith))

  pub store_outside :
      (a : ℕ) (c : Cell) (m : Memory) (x : ℕ) → (x < a) ⊎ (a + 32 ≤ x) → store layout a c m x ≡ m x
  unfolding store
  store_outside a c m x out = ground arith

  pub load-store_apart :
      (a b : ℕ) (c : Cell) (m : Memory)
      → (a + 32 ≤ b) ⊎ (b + 32 ≤ a)
      → load layout b (store layout a c m) ≡ load layout b m
  load-store_apart a b c m apart =
      load_same b m (store layout a c m) (λ x lo hi. store_outside a c m x (omega arith))
