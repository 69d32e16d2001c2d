-- ===== src/Interrupts/Tests.antt =====
-- Runs of the interrupt entry points of x86.rs at concrete states and a concrete handler.
use wasabi_os.Common.{ℕ, ◌+◌, ◌*◌, ◌≤◌, ◌≡◌, ◌%◌, refl, arith}
use wasabi_os.Interrupts.{
  Reg, rax, rdi, rsi, Cpu, number, set_reg, exec, step, entrypoint, entrypoint_with_ecode,
  entrypoint_until_call, entrypoint_with_ecode_until_call,
}
use wasabi_os.Interrupts.Frame.{Conventional, entrypoint_restores, entrypoint_with_ecode_restores}
use wasabi_os.Interrupts.Info.{register_context, ctx_at, info_at}
use wasabi_os.Interrupts.Layout.{entrypoint-info_at, entrypoint_with_ecode-info_at}

-- A handler that leaves other values in rax and in the FPU.
abbrev clobber : Cpu ℕ → Cpu ℕ
clobber s = record s { reg = set_reg s.reg rax 77; fpu = 5 }

clobber-Conventional : Conventional clobber
clobber-Conventional = record {
  keeps_rbp = λ s. refl;
  keeps_memory = λ s a le. refl;
  keeps_fpu_memory = λ s a le. refl;
}

abbrev interrupted : Cpu ℕ
interrupted = record {
  reg = λ r. 100 + number r;
  rsp = 4096;
  memory = λ a. 7 * a;
  fpu = 9;
  fpu_memory = λ a. 0;
}

entrypoint_restores_example :
    let s' = exec clobber (entrypoint 3) interrupted in
    (s'.rsp ≡ 4096)
    × ((a : ℕ) → 4096 ≤ a → s'.memory a ≡ 7 * a)
    × (s'.fpu ≡ 9)
    × ((r : Reg) → s'.reg r ≡ 100 + number r)
entrypoint_restores_example =
    entrypoint_restores clobber clobber-Conventional 3 interrupted (omega arith)

entrypoint_with_ecode_restores_run :
    let s' = exec clobber (entrypoint_with_ecode 14) interrupted in
    (s'.rsp ≡ 4104)
    × ((a : ℕ) → 4096 ≤ a → s'.memory a ≡ 7 * a)
    × (s'.fpu ≡ 9)
    × ((r : Reg) → s'.reg r ≡ 100 + number r)
entrypoint_with_ecode_restores_run =
    entrypoint_with_ecode_restores clobber clobber-Conventional 14 interrupted (omega arith)

entrypoint-info_at_example :
    let c = exec clobber (entrypoint_until_call 6) interrupted in
    (c.reg rsi ≡ 6)
    × (c.rsp % 16 ≡ 0)
    × (c.rsp ≤ c.reg rdi)
    × (info_at c (c.reg rdi) ≡ record {
      fpu_context = 9;
      greg = register_context (λ r. 100 + number r);
      error_code = 0;
      ctx = ctx_at (λ a. 7 * a) 4096;
    })
entrypoint-info_at_example = entrypoint-info_at clobber 6 interrupted (omega arith)

entrypoint_with_ecode-info_at_run :
    let c = exec clobber (entrypoint_with_ecode_until_call 14) interrupted in
    (c.reg rsi ≡ 14)
    × (c.rsp % 16 ≡ 0)
    × (c.rsp ≤ c.reg rdi)
    × (info_at c (c.reg rdi) ≡ record {
      fpu_context = 9;
      greg = register_context (λ r. 100 + number r);
      error_code = 28672;
      ctx = ctx_at (λ a. 7 * a) 4104;
    })
entrypoint_with_ecode-info_at_run =
    entrypoint_with_ecode-info_at clobber 14 interrupted (omega arith)

-- The handler runs between the two: it sees the frame, and its own values are gone afterwards.
resumed : (exec clobber (entrypoint 3) interrupted).reg rax ≡ 100
unfolding exec step
resumed = entrypoint_restores_example.3 rax
