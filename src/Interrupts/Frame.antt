-- ===== src/Interrupts/Frame.antt =====
-- The entry points of x86.rs give back the state that they found.
use wasabi_os.Common.{
  ℕ, ◌+◌, ◌-◌, ◌/◌, ◌≤◌, ◌≡◌, ◌∙◌, sym, refl, ap, Bool, Bool-cases, not, true, false, inl, inr,
  ◌||◌, List, [], ◌∷◌, ◌++◌, arith, length, ◌*◌, ◌==◌, if◌then◌else◌,
}
use wasabi_os.Interrupts.{
  Reg, rax, rdx, rbx, rbp, rsi, rdi, r8, r9, r10, r11, r12, r13, r14, r15, rcx, same_reg, Cpu,
  Instr, push, pop, push_imm, mov_imm, add_rsp, set_reg, step, exec, pushes, pops, around_call,
  inthandler_common, entrypoint, entrypoint_with_ecode,
}

-- What `inthandler`, a function in the sysv64 convention with a shared reference to the frame, leaves
-- alone: rbp, and the memory from the stack pointer on.
pub record Conventional {F : Type 0} (inthandler : Cpu F → Cpu F) : Type 0 where
  pub keeps_rbp : (s : Cpu F) → (inthandler s).reg rbp ≡ s.reg rbp
  pub keeps_memory : (s : Cpu F) (a : ℕ) → s.rsp ≤ a → (inthandler s).memory a ≡ s.memory a
  pub keeps_fpu_memory :
      (s : Cpu F) (a : ℕ) → s.rsp ≤ a → (inthandler s).fpu_memory a ≡ s.fpu_memory a

-- Pushes and pops of a list of registers around a piece of code.
abbrev nest : List Reg → List Instr → List Instr
nest [] p = p
nest (r ∷ rs) p = push r ∷ nest rs p ++ pop r ∷ []

abbrev also : Reg → (Reg → Bool) → Reg → Bool
also r kept q = same_reg q r || kept q

abbrev in_list : List Reg → Reg → Bool
in_list [] q = false
in_list (r ∷ rs) q = also r (in_list rs) q

abbrev saved : List Reg
saved = r15 ∷ r14 ∷ r13 ∷ r12 ∷ r11 ∷ r10 ∷ r9 ∷ r8 ∷ rdi ∷ rsi ∷ rbp ∷ rbx ∷ rdx ∷ rax ∷ []

all_saved : (r : Reg) → not (same_reg r rcx) ≡ true → in_list saved r ≡ true
all_saved rcx h = cc
all_saved r h = refl

module _ {F : Type 0} (inthandler : Cpu F → Cpu F) where
  pub exec-append :
      (p q : List Instr) (s : Cpu F)
      → exec inthandler (p ++ q) s ≡ exec inthandler q (exec inthandler p s)
  unfolding exec
  exec-append [] q s = refl
  exec-append (i ∷ p) q s = exec-append p q (step inthandler i s)

  -- A piece of code that needs `need` bytes of stack gives back the stack pointer, the stack above
  -- it, the FPU, and the registers in `kept`.
  pub record Restores (need : ℕ) (kept : Reg → Bool) (s s' : Cpu F) : Type 0 where
    pub rsp : s'.rsp ≡ s.rsp
    pub memory : (a : ℕ) → s.rsp ≤ a → s'.memory a ≡ s.memory a
    pub fpu : s'.fpu ≡ s.fpu
    pub reg : (r : Reg) → kept r ≡ true → s'.reg r ≡ s.reg r

  abbrev AlwaysRestores : ℕ → (Reg → Bool) → List Instr → Type 0
  AlwaysRestores need kept p =
      (s : Cpu F) → need ≤ s.rsp → Restores need kept s (exec inthandler p s)

  same_reg-eq : (q r : Reg) → same_reg q r ≡ true → q ≡ r
  same_reg-eq q r h = ground arith

  -- A push and a pop around such code save one more register.
  wrap :
      (r : Reg) (need : ℕ) (kept : Reg → Bool) (p : List Instr)
      → AlwaysRestores need kept p
      → AlwaysRestores (need + 8) (also r kept) (push r ∷ p ++ pop r ∷ [])
  unfolding exec step
  wrap r need kept p inner s enough =
      let s1 : Cpu F = step inthandler (push r) s in
      let h = inner s1 (omega arith) in
      let split = exec-append p (pop r ∷ []) s1 in
      rw split (record {
        rsp = omega (arith, h.rsp);
        memory = λ a le. ground (arith, h.memory a);
        fpu = h.fpu;
        reg = λ q hq. elim (Bool-cases (same_reg q r)) [
          | inl same ↦
              let e = h.memory (s.rsp - 8) (omega arith) in
              let top : (exec inthandler p s1).memory (exec inthandler p s1).rsp ≡ s.reg r =
                rw h.rsp (ground (arith, e)) in
              rw (same, top) (ap s.reg (sym (same_reg-eq q r same)))
          | inr other ↦ rw other (h.reg q (rw other at hq))
        ];
      })

  module _ (conv : Conventional inthandler) where
    -- The machine when the handler is called.
    abbrev at_call : Cpu F → Cpu F
    at_call s =
        let low : ℕ = s.rsp - 520 in
        record s {
          rsp = low / 16 * 16;
          reg = set_reg (set_reg (set_reg s.reg rdi low) rbp low) rsi (s.reg rcx);
          fpu_memory = λ a. if a == low then s.fpu else s.fpu_memory a;
        }

    around_call_keeps : AlwaysRestores 536 (λ r. false) around_call
    unfolding exec step
    around_call_keeps s enough =
        let c = at_call s in
        let low : ℕ = s.rsp - 520 in
        let e1 : (inthandler c).reg rbp ≡ low = conv.keeps_rbp c in
        let hit : (low == low) ≡ true = ground arith in
        let e2 : (inthandler c).fpu_memory low ≡ s.fpu =
          conv.keeps_fpu_memory c low (omega arith) ∙ rw (at_call, hit) refl in
        record {
          rsp = rw e1 (omega arith);
          memory = λ a le. conv.keeps_memory c a (omega arith);
          fpu = rw (e1, e2) refl;
          reg = λ r h. cc;
        }

    nest_keeps :
        (rs : List Reg) → AlwaysRestores (536 + 8 * length rs) (in_list rs) (nest rs around_call)
    nest_keeps [] s enough = around_call_keeps s (omega arith)
    nest_keeps (r ∷ rs) s enough =
        let h =
          wrap r (536 + 8 * length rs) (in_list rs) (nest rs around_call) (nest_keeps rs) s
            (omega arith) in
        record { rsp = h.rsp; memory = h.memory; fpu = h.fpu; reg = h.reg }

    -- All but rcx are saved by `inthandler_common` itself.
    body_keeps : AlwaysRestores 648 (λ r. not (same_reg r rcx)) (pushes ++ around_call ++ pops)
    body_keeps s enough =
        let h = nest_keeps saved s (omega arith) in
        record { rsp = h.rsp; memory = h.memory; fpu = h.fpu; reg = λ r k. h.reg r (all_saved r k) }

    common_split :
        (s : Cpu F)
        → exec inthandler inthandler_common s
          ≡ exec inthandler
              (pop rcx ∷ add_rsp 8 ∷ [])
              (exec inthandler (pushes ++ around_call ++ pops) s)
    common_split s = exec-append (pushes ++ around_call ++ pops) (pop rcx ∷ add_rsp 8 ∷ []) s

    -- The state after the code, where rcx is what stands on the stack, and the word below is dropped.
    abbrev Unwound : Cpu F → Cpu F → Type 0
    Unwound s s' =
        (s'.rsp ≡ s.rsp + 16)
        × ((a : ℕ) → s.rsp ≤ a → s'.memory a ≡ s.memory a)
        × (s'.fpu ≡ s.fpu)
        × ((r : Reg) → s'.reg r ≡ (if same_reg r rcx then s.memory s.rsp else s.reg r))

    tail_lem :
        (s s1 : Cpu F)
        → Restores 648 (λ r. not (same_reg r rcx)) s s1
        → Unwound s (exec inthandler (pop rcx ∷ add_rsp 8 ∷ []) s1)
    unfolding exec step
    tail_lem s s1 h =
        let e = h.memory s.rsp (omega arith) in
        (
          omega (arith, h.rsp),
          h.memory,
          h.fpu,
          λ r. elim (Bool-cases (same_reg r rcx)) [
            | inl same ↦ rw (same, h.rsp) e
            | inr other ↦ rw other (h.reg r (rw other refl))
          ],
        )

    tail_keeps : (s : Cpu F) → 648 ≤ s.rsp → Unwound s (exec inthandler inthandler_common s)
    tail_keeps s enough =
        rw (common_split s)
          (tail_lem s (exec inthandler (pushes ++ around_call ++ pops) s) (body_keeps s enough))

    -- An entry point without an error code gives the interrupted code back its registers, its FPU, its
    -- stack pointer and the stack above it, whatever the handler does within its convention. 664 bytes
    -- of stack are enough for the entry point itself.
    pub entrypoint_restores :
        (index : ℕ) (s : Cpu F)
        → 664 ≤ s.rsp
        → let s' = exec inthandler (entrypoint index) s in
          (s'.rsp ≡ s.rsp)
          × ((a : ℕ) → s.rsp ≤ a → s'.memory a ≡ s.memory a)
          × (s'.fpu ≡ s.fpu)
          × ((r : Reg) → s'.reg r ≡ s.reg r)
    unfolding exec step
    entrypoint_restores index s enough =
        let s3 = exec inthandler (push_imm 0 ∷ push rcx ∷ mov_imm rcx index ∷ []) s in
        let h = tail_keeps s3 (omega arith) in
        (
          h.0 ∙ omega arith,
          λ a le. h.1 a (omega arith) ∙ ground arith,
          h.2,
          λ r. elim (Bool-cases (same_reg r rcx)) [
            | inl same ↦ let e = h.3 r in rw e (rw (same, same_reg-eq r rcx same) (ground arith))
            | inr other ↦ let e = h.3 r in rw e (rw other refl)
          ],
        )

    -- An entry point with an error code does the same, and takes the error code, which the processor
    -- pushed last, off the stack.
    pub entrypoint_with_ecode_restores :
        (index : ℕ) (s : Cpu F)
        → 664 ≤ s.rsp
        → let s' = exec inthandler (entrypoint_with_ecode index) s in
          (s'.rsp ≡ s.rsp + 8)
          × ((a : ℕ) → s.rsp ≤ a → s'.memory a ≡ s.memory a)
          × (s'.fpu ≡ s.fpu)
          × ((r : Reg) → s'.reg r ≡ s.reg r)
    unfolding exec step
    entrypoint_with_ecode_restores index s enough =
        let s2 = exec inthandler (push rcx ∷ mov_imm rcx index ∷ []) s in
        let h = tail_keeps s2 (omega arith) in
        (
          h.0 ∙ omega arith,
          λ a le. h.1 a (omega arith) ∙ ground arith,
          h.2,
          λ r. elim (Bool-cases (same_reg r rcx)) [
            | inl same ↦ let e = h.3 r in rw e (rw (same, same_reg-eq r rcx same) (ground arith))
            | inr other ↦ let e = h.3 r in rw e (rw other refl)
          ],
        )
