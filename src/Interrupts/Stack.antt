-- ===== src/Interrupts/Stack.antt =====
-- The words that the pushes of x86.rs leave on the stack, and the records read from them.
use wasabi_os.Common.{ℕ, ◌+◌, ◌-◌, ◌≤◌, ◌≡◌, ◌∙◌, sym, refl, ap, List, [], ◌∷◌, arith, length, ◌*◌}
use wasabi_os.Interrupts.Info.{greg_at, ctx_at, register_context}
use wasabi_os.Interrupts.{
  Reg, rax, rdx, rbx, rbp, rsi, rdi, r8, r9, r10, r11, r12, r13, r14, r15, rcx, Cpu, Instr, push,
  set_word, step, exec,
}

pub set_word-hit : (memory : ℕ → ℕ) (a b v : ℕ) → b ≡ a → set_word memory a v b ≡ v
set_word-hit memory a b v e = ground arith

pub set_word-miss : (memory : ℕ → ℕ) (a b v : ℕ) → a + 1 ≤ b → set_word memory a v b ≡ memory b
set_word-miss memory a b v h = ground arith

-- The words from an address on are those of a list.
abbrev pub Stacked : (ℕ → ℕ) → ℕ → List ℕ → Type 0
Stacked memory a [] = Unit
Stacked memory a (v ∷ vs) = (memory a ≡ v) × Stacked memory (a + 8) vs

Stacked-set_word :
    (vs : List ℕ) (memory : ℕ → ℕ) (a b v : ℕ)
    → b + 1 ≤ a
    → Stacked memory a vs
    → Stacked (set_word memory b v) a vs
Stacked-set_word [] memory a b v below h = tt
Stacked-set_word (w ∷ vs) memory a b v below h =
    (ground (arith, h.0), Stacked-set_word vs memory (a + 8) b v (omega arith) h.1)

-- The same with the distance from a fixed address.
abbrev Spread : (ℕ → ℕ) → ℕ → ℕ → List ℕ → Type 0
Spread memory a k [] = Unit
Spread memory a k (v ∷ vs) = (memory (a + k) ≡ v) × Spread memory a (k + 8) vs

Stacked-Spread :
    (vs : List ℕ) (memory : ℕ → ℕ) (a k b : ℕ)
    → b ≡ a + k
    → Stacked memory b vs
    → Spread memory a k vs
Stacked-Spread [] memory a k b e h = tt
Stacked-Spread (v ∷ vs) memory a k b e h =
    (rw (sym e) h.0, Stacked-Spread vs memory a (k + 8) (b + 8) (omega arith) h.1)

abbrev pub push_all : List Reg → List Instr
push_all [] = []
push_all (r ∷ rs) = push r ∷ push_all rs

abbrev pub onto : (Reg → ℕ) → List Reg → List ℕ → List ℕ
onto reg [] acc = acc
onto reg (r ∷ rs) acc = onto reg rs (reg r ∷ acc)

-- The registers from an address on, in the order of the record.
abbrev pub in_order : (Reg → ℕ) → List ℕ
in_order reg =
    reg rax
    ∷ reg rdx
    ∷ reg rbx
    ∷ reg rbp
    ∷ reg rsi
    ∷ reg rdi
    ∷ reg r8
    ∷ reg r9
    ∷ reg r10
    ∷ reg r11
    ∷ reg r12
    ∷ reg r13
    ∷ reg r14
    ∷ reg r15
    ∷ reg rcx
    ∷ []

pub greg_at_lem :
    (memory : ℕ → ℕ) (reg : Reg → ℕ) (a b : ℕ)
    → b ≡ a + 520
    → Stacked memory b (in_order reg)
    → greg_at memory (a + 520) ≡ register_context reg
greg_at_lem memory reg a b e below =
    let h = Stacked-Spread (in_order reg) memory (a + 520) 0 b (omega arith) below in
    let first : memory (a + 520) ≡ reg rax = ap memory (omega arith) ∙ h.0 in
    λ i. record {
      c_rax = first i;
      c_rdx = h.1.0 i;
      c_rbx = h.1.1.0 i;
      c_rbp = h.1.1.1.0 i;
      c_rsi = h.1.1.1.1.0 i;
      c_rdi = h.1.1.1.1.1.0 i;
      c_r8 = h.1.1.1.1.1.1.0 i;
      c_r9 = h.1.1.1.1.1.1.1.0 i;
      c_r10 = h.1.1.1.1.1.1.1.1.0 i;
      c_r11 = h.1.1.1.1.1.1.1.1.1.0 i;
      c_r12 = h.1.1.1.1.1.1.1.1.1.1.0 i;
      c_r13 = h.1.1.1.1.1.1.1.1.1.1.1.0 i;
      c_r14 = h.1.1.1.1.1.1.1.1.1.1.1.1.0 i;
      c_r15 = h.1.1.1.1.1.1.1.1.1.1.1.1.1.0 i;
      c_rcx = h.1.1.1.1.1.1.1.1.1.1.1.1.1.1.0 i;
    }

pub ctx_at_lem :
    (m m' : ℕ → ℕ) (a b : ℕ) → a ≡ b → ((c : ℕ) → b ≤ c → m c ≡ m' c) → ctx_at m a ≡ ctx_at m' b
ctx_at_lem m m' a b e same =
    let w : (k : ℕ) → m (a + k) ≡ m' (b + k) =
      λ k. ap (λ x. m (x + k)) e ∙ same (b + k) (omega arith) in
    let first : m a ≡ m' b = ap m e ∙ same b (omega arith) in
    λ i. record { rip = first i; cs = w 8 i; rflags = w 16 i; rsp = w 24 i; ss = w 32 i }

abbrev pub Pushed : {F : Type 0} → Cpu F → Cpu F → ℕ → List ℕ → Type 0
Pushed s s' n vs =
    Stacked s'.memory s'.rsp vs
    × (s'.reg ≡ s.reg)
    × (s'.rsp ≡ s.rsp - n)
    × ((a : ℕ) → s.rsp ≤ a → s'.memory a ≡ s.memory a)
    × (s'.fpu ≡ s.fpu)
    × (s'.fpu_memory ≡ s.fpu_memory)

module _ {F : Type 0} (inthandler : Cpu F → Cpu F) where
  pub push_all_lem :
      (rs : List Reg) (acc : List ℕ) (s : Cpu F)
      → 8 * length rs ≤ s.rsp
      → Stacked s.memory s.rsp acc
      → Pushed s (exec inthandler (push_all rs) s) (8 * length rs) (onto s.reg rs acc)
  unfolding exec step
  push_all_lem [] acc s le h = (h, refl, omega arith, λ a b. refl, refl, refl)
  push_all_lem (r ∷ rs) acc s le h =
      let s1 = step inthandler (push r) s in
      let top : s1.memory s1.rsp ≡ s.reg r = ground arith in
      let back : s.rsp - 8 + 8 ≡ s.rsp = omega arith in
      let under : Stacked s1.memory (s1.rsp + 8) acc =
        rw back (Stacked-set_word acc s.memory s.rsp (s.rsp - 8) (s.reg r) (omega arith) h) in
      let rest : Pushed s1 (exec inthandler (push_all rs) s1) (8 * length rs)
          (onto s.reg rs (s.reg r ∷ acc)) =
        push_all_lem rs (s.reg r ∷ acc) s1 (omega arith) (top, under) in
      (
        rest.0,
        rest.1,
        rest.2 ∙ omega arith,
        λ a b. rest.3 a (omega arith) ∙ ground arith,
        rest.4,
        rest.5,
      )
