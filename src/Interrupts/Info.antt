-- ===== src/Interrupts/Info.antt =====
-- x86.rs: the records of the interrupted state that `inthandler` is given, as they are read from memory.
use wasabi_os.Common.{ℕ, ◌+◌}
use wasabi_os.Interrupts.{
  Reg, rax, rdx, rbx, rbp, rsi, rdi, r8, r9, r10, r11, r12, r13, r14, r15, rcx, Cpu,
}

pub record GeneralRegisterContext : Type 0 where
  pub c_rax : ℕ
  pub c_rdx : ℕ
  pub c_rbx : ℕ
  pub c_rbp : ℕ
  pub c_rsi : ℕ
  pub c_rdi : ℕ
  pub c_r8 : ℕ
  pub c_r9 : ℕ
  pub c_r10 : ℕ
  pub c_r11 : ℕ
  pub c_r12 : ℕ
  pub c_r13 : ℕ
  pub c_r14 : ℕ
  pub c_r15 : ℕ
  pub c_rcx : ℕ

pub record InterruptContext : Type 0 where
  pub rip : ℕ
  pub cs : ℕ
  pub rflags : ℕ
  pub rsp : ℕ
  pub ss : ℕ

pub record InterruptInfo (F : Type 0) : Type 0 where
  pub fpu_context : F
  pub greg : GeneralRegisterContext
  pub error_code : ℕ
  pub ctx : InterruptContext

-- The records at an address, the fields in the order of `repr(C)`. `_dummy`, the word after the 512
-- bytes of the FPU, is not read.
abbrev pub greg_at : (ℕ → ℕ) → ℕ → GeneralRegisterContext
greg_at memory a = record {
  c_rax = memory a;
  c_rdx = memory (a + 8);
  c_rbx = memory (a + 16);
  c_rbp = memory (a + 24);
  c_rsi = memory (a + 32);
  c_rdi = memory (a + 40);
  c_r8 = memory (a + 48);
  c_r9 = memory (a + 56);
  c_r10 = memory (a + 64);
  c_r11 = memory (a + 72);
  c_r12 = memory (a + 80);
  c_r13 = memory (a + 88);
  c_r14 = memory (a + 96);
  c_r15 = memory (a + 104);
  c_rcx = memory (a + 112);
}

abbrev pub ctx_at : (ℕ → ℕ) → ℕ → InterruptContext
ctx_at memory a = record {
  rip = memory a;
  cs = memory (a + 8);
  rflags = memory (a + 16);
  rsp = memory (a + 24);
  ss = memory (a + 32);
}

abbrev pub info_at : {F : Type 0} → Cpu F → ℕ → InterruptInfo F
info_at s a = record {
  fpu_context = s.fpu_memory a;
  greg = greg_at s.memory (a + 520);
  error_code = s.memory (a + 640);
  ctx = ctx_at s.memory (a + 648);
}

-- The registers of a machine as the record.
abbrev pub register_context : (Reg → ℕ) → GeneralRegisterContext
register_context reg = record {
  c_rax = reg rax;
  c_rdx = reg rdx;
  c_rbx = reg rbx;
  c_rbp = reg rbp;
  c_rsi = reg rsi;
  c_rdi = reg rdi;
  c_r8 = reg r8;
  c_r9 = reg r9;
  c_r10 = reg r10;
  c_r11 = reg r11;
  c_r12 = reg r12;
  c_r13 = reg r13;
  c_r14 = reg r14;
  c_r15 = reg r15;
  c_rcx = reg rcx;
}
