-- ===== src/Interrupts/Layout.antt =====
-- x86.rs: where the entry points put the records of the interrupted state.
use wasabi_os.Common.{
  ℕ, ◌+◌, ◌-◌, ◌%◌, ◌≤◌, ◌≡◌, ◌∙◌, refl, ap, true, [], ◌∷◌, ◌++◌, arith, ◌==◌, if◌then◌else◌,
}
use wasabi_os.Interrupts.Frame.{exec-append}
use wasabi_os.Interrupts.Info.{InterruptInfo, greg_at, ctx_at, info_at, register_context}
use wasabi_os.Interrupts.Stack.{
  set_word-hit, set_word-miss, in_order, greg_at_lem, ctx_at_lem, Pushed, push_all_lem,
}
use wasabi_os.Interrupts.{
  Reg, rax, rdx, rbx, rbp, rsi, rdi, r8, r9, r10, r11, r12, r13, r14, r15, rcx, Cpu, push, push_imm,
  mov_imm, set_reg, set_word, step, exec, pushes, before_call, entrypoint_until_call,
  entrypoint_with_ecode_until_call,
}

module _ {F : Type 0} (inthandler : Cpu F → Cpu F) where
  -- What `inthandler` is given: the second argument, an aligned stack, and in the first argument the
  -- address of the frame.
  abbrev Called : Cpu F → ℕ → InterruptInfo F → Type 0
  Called c index info =
      (c.reg rsi ≡ index) × (c.rsp % 16 ≡ 0) × (c.rsp ≤ c.reg rdi) × (info_at c (c.reg rdi) ≡ info)

  abbrev saved_regs : Cpu F → Reg → ℕ
  saved_regs s = set_reg s.reg rcx (s.memory s.rsp)

  before_call_lem :
      (s s1 : Cpu F)
      → 632 ≤ s.rsp
      → Pushed s s1 112 (in_order (saved_regs s))
      → Called (exec inthandler before_call s1) (s.reg rcx) (record {
        fpu_context = s.fpu;
        greg = register_context (saved_regs s);
        error_code = s.memory (s.rsp + 8);
        ctx = ctx_at s.memory (s.rsp + 16);
      })
  unfolding exec step
  before_call_lem s s1 le h =
      let low : ℕ = s1.rsp - 520 in
      let hit : (low == low) ≡ true = ground arith in
      let greg : greg_at s1.memory (low + 520) ≡ register_context (saved_regs s) =
        greg_at_lem s1.memory (saved_regs s) low s1.rsp (omega (arith, h.2)) h.0 in
      let fpu : (if low == low then s1.fpu else s1.fpu_memory low) ≡ s.fpu = rw hit h.4 in
      let code : s1.memory (low + 640) ≡ s.memory (s.rsp + 8) =
        ap s1.memory (omega (arith, h.2)) ∙ h.3 (s.rsp + 8) (omega arith) in
      let ctx : ctx_at s1.memory (low + 648) ≡ ctx_at s.memory (s.rsp + 16) =
        ctx_at_lem s1.memory s.memory (low + 648) (s.rsp + 16) (omega (arith, h.2))
          (λ c b. h.3 c (omega arith)) in
      (
        ap (λ f. f rcx) h.1,
        omega arith,
        omega arith,
        λ i. record { fpu_context = fpu i; greg = greg i; error_code = code i; ctx = ctx i },
      )

  common_lem :
      (s : Cpu F)
      → 632 ≤ s.rsp
      → Called (exec inthandler (pushes ++ before_call) s) (s.reg rcx) (record {
        fpu_context = s.fpu;
        greg = register_context (saved_regs s);
        error_code = s.memory (s.rsp + 8);
        ctx = ctx_at s.memory (s.rsp + 16);
      })
  common_lem s le =
      let s1 = exec inthandler pushes s in
      let h : Pushed s s1 112 (in_order (saved_regs s)) =
        push_all_lem inthandler
          (r15 ∷ r14 ∷ r13 ∷ r12 ∷ r11 ∷ r10 ∷ r9 ∷ r8 ∷ rdi ∷ rsi ∷ rbp ∷ rbx ∷ rdx ∷ rax ∷ [])
          (s.memory s.rsp ∷ []) s (omega arith) (refl, tt) in
      rw (exec-append inthandler pushes before_call s) (before_call_lem s s1 le h)

  -- An entry point without an error code calls `inthandler` with the index of the exception, on a stack
  -- that is aligned to 16 bytes and ends below the frame, and with the address of an `InterruptInfo`
  -- of the interrupted code: its FPU, its fifteen general registers, the error code 0, and the
  -- context that the processor pushed. The stack has room for the 648 bytes.
  pub entrypoint-info_at :
      (index : ℕ) (s : Cpu F)
      → 648 ≤ s.rsp
      → let c = exec inthandler (entrypoint_until_call index) s in
        (c.reg rsi ≡ index)
        × (c.rsp % 16 ≡ 0)
        × (c.rsp ≤ c.reg rdi)
        × (info_at c (c.reg rdi) ≡ record {
          fpu_context = s.fpu;
          greg = register_context s.reg;
          error_code = 0;
          ctx = ctx_at s.memory s.rsp;
        })
  unfolding exec step
  entrypoint-info_at index s le =
      let s3 = exec inthandler (push_imm 0 ∷ push rcx ∷ mov_imm rcx index ∷ []) s in
      let h = common_lem s3 (omega arith) in
      let top : s3.memory s3.rsp ≡ s.reg rcx =
        set_word-hit (set_word s.memory (s.rsp - 8) 0) (s.rsp - 8 - 8) (s.rsp - 8 - 8) (s.reg rcx)
          refl in
      let code : s3.memory (s3.rsp + 8) ≡ 0 =
        set_word-miss (set_word s.memory (s.rsp - 8) 0) (s.rsp - 8 - 8) (s.rsp - 8 - 8 + 8)
          (s.reg rcx) (omega arith)
        ∙ set_word-hit s.memory (s.rsp - 8) (s.rsp - 8 - 8 + 8) 0 (omega arith) in
      let ctx = ctx_at_lem s3.memory s.memory (s3.rsp + 16) (s.rsp) (omega arith) (λ c b.
        set_word-miss (set_word s.memory (s.rsp - 8) 0) (s.rsp - 8 - 8) c (s.reg rcx) (omega arith)
        ∙ set_word-miss s.memory (s.rsp - 8) c 0 (omega arith)) in
      (
        h.0,
        h.1,
        h.2,
        h.3 ∙ (λ i. record {
          fpu_context = s.fpu;
          greg = record (register_context s.reg) { c_rcx = top i };
          error_code = code i;
          ctx = ctx i;
        }),
      )

  -- An entry point with an error code does the same with the error code that the processor pushed
  -- last, and the context above it.
  pub entrypoint_with_ecode-info_at :
      (index : ℕ) (s : Cpu F)
      → 648 ≤ s.rsp
      → let c = exec inthandler (entrypoint_with_ecode_until_call index) s in
        (c.reg rsi ≡ index)
        × (c.rsp % 16 ≡ 0)
        × (c.rsp ≤ c.reg rdi)
        × (info_at c (c.reg rdi) ≡ record {
          fpu_context = s.fpu;
          greg = register_context s.reg;
          error_code = s.memory s.rsp;
          ctx = ctx_at s.memory (s.rsp + 8);
        })
  unfolding exec step
  entrypoint_with_ecode-info_at index s le =
      let s2 = exec inthandler (push rcx ∷ mov_imm rcx index ∷ []) s in
      let h = common_lem s2 (omega arith) in
      let top : s2.memory s2.rsp ≡ s.reg rcx =
        set_word-hit s.memory (s.rsp - 8) (s.rsp - 8) (s.reg rcx) refl in
      let code : s2.memory (s2.rsp + 8) ≡ s.memory s.rsp =
        set_word-miss s.memory (s.rsp - 8) (s.rsp - 8 + 8) (s.reg rcx) (omega arith)
        ∙ ap s.memory (omega arith) in
      let ctx =
        ctx_at_lem s2.memory s.memory (s2.rsp + 16) (s.rsp + 8) (omega arith)
          (λ c b. set_word-miss s.memory (s.rsp - 8) c (s.reg rcx) (omega arith)) in
      (
        h.0,
        h.1,
        h.2,
        h.3 ∙ (λ i. record {
          fpu_context = s.fpu;
          greg = record (register_context s.reg) { c_rcx = top i };
          error_code = code i;
          ctx = ctx i;
        }),
      )
