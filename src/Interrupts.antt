-- ===== src/Interrupts.antt =====
-- x86.rs, the assembly of the interrupt entry points: the instructions that save the state of the
-- interrupted code, call `inthandler`, and restore the state. A machine runs them; memory is by
-- 64-bit words, and the state of the FPU, which `fxsave64` and `fxrstor64` move as one block of 512
-- bytes, is a value of any type. `inthandler` is a parameter: what it does to the machine.
pub mod Frame
pub mod Info
pub mod Layout
pub mod Stack
mod Tests
use wasabi_os.Common.{
  ℕ, ◌+◌, ◌-◌, ◌*◌, ◌/◌, Bool, true, false, List, [], ◌∷◌, ◌++◌, ◌==◌, if◌then◌else◌,
}

pub data Reg : Type 0 where
  rax rdx rbx rbp rsi rdi r8 r9 r10 r11 r12 r13 r14 r15 rcx : Reg

abbrev pub number : Reg → ℕ
number rax = 0
number rdx = 1
number rbx = 2
number rbp = 3
number rsi = 4
number rdi = 5
number r8 = 6
number r9 = 7
number r10 = 8
number r11 = 9
number r12 = 10
number r13 = 11
number r14 = 12
number r15 = 13
number rcx = 14

abbrev pub same_reg : Reg → Reg → Bool
same_reg r q = number r == number q

pub record Cpu (F : Type 0) : Type 0 where
  pub reg : Reg → ℕ
  pub rsp : ℕ
  pub memory : ℕ → ℕ
  pub fpu : F
  pub fpu_memory : ℕ → F

-- The instructions that the entry points use. `align_stack` is `and rsp, -16`.
pub data Instr : Type 0 where
  push pop : Reg → Instr
  push_imm : ℕ → Instr
  mov : Reg → Reg → Instr
  mov_imm : Reg → ℕ → Instr
  mov_from_rsp mov_to_rsp : Reg → Instr
  sub_rsp add_rsp : ℕ → Instr
  align_stack fxsave fxrstor call_inthandler : Instr

abbrev pub set_reg : (Reg → ℕ) → Reg → ℕ → Reg → ℕ
set_reg reg r v q = if same_reg q r then v else reg q

abbrev pub set_word : (ℕ → ℕ) → ℕ → ℕ → ℕ → ℕ
set_word memory a v b = if b == a then v else memory b

module _ {F : Type 0} (inthandler : Cpu F → Cpu F) where
  unfoldable pub step : Instr → Cpu F → Cpu F
  step (push r) s = record s { rsp = s.rsp - 8; memory = set_word s.memory (s.rsp - 8) (s.reg r) }
  step (push_imm n) s = record s { rsp = s.rsp - 8; memory = set_word s.memory (s.rsp - 8) n }
  step (pop r) s = record s { rsp = s.rsp + 8; reg = set_reg s.reg r (s.memory s.rsp) }
  step (mov r q) s = record s { reg = set_reg s.reg r (s.reg q) }
  step (mov_imm r n) s = record s { reg = set_reg s.reg r n }
  step (mov_from_rsp r) s = record s { reg = set_reg s.reg r s.rsp }
  step (mov_to_rsp r) s = record s { rsp = s.reg r }
  step (sub_rsp n) s = record s { rsp = s.rsp - n }
  step (add_rsp n) s = record s { rsp = s.rsp + n }
  step align_stack s = record s { rsp = s.rsp / 16 * 16 }
  step fxsave s = record s { fpu_memory = λ a. if a == s.rsp then s.fpu else s.fpu_memory a }
  step fxrstor s = record s { fpu = s.fpu_memory s.rsp }
  step call_inthandler s = inthandler s

  unfoldable pub exec : List Instr → Cpu F → Cpu F
  exec [] s = s
  exec (i ∷ is) s = exec is (step i s)

-- The registers that `inthandler_common` pushes, in order, and pops in the opposite order.
abbrev pub pushes : List Instr
pushes =
    push r15
    ∷ push r14
    ∷ push r13
    ∷ push r12
    ∷ push r11
    ∷ push r10
    ∷ push r9
    ∷ push r8
    ∷ push rdi
    ∷ push rsi
    ∷ push rbp
    ∷ push rbx
    ∷ push rdx
    ∷ push rax
    ∷ []

abbrev pub pops : List Instr
pops =
    pop rax
    ∷ pop rdx
    ∷ pop rbx
    ∷ pop rbp
    ∷ pop rsi
    ∷ pop rdi
    ∷ pop r8
    ∷ pop r9
    ∷ pop r10
    ∷ pop r11
    ∷ pop r12
    ∷ pop r13
    ∷ pop r14
    ∷ pop r15
    ∷ []

-- What stands between: the FPU is saved and restored, and the handler called on an aligned stack.
abbrev pub before_call : List Instr
before_call =
    sub_rsp (512 + 8)
    ∷ fxsave
    ∷ mov_from_rsp rdi
    ∷ mov_from_rsp rbp
    ∷ align_stack
    ∷ mov rsi rcx
    ∷ []

abbrev pub around_call : List Instr
around_call = before_call ++ call_inthandler ∷ mov_to_rsp rbp ∷ fxrstor ∷ add_rsp (512 + 8) ∷ []

-- `inthandler_common`, up to `iretq`.
abbrev pub inthandler_common : List Instr
inthandler_common = pushes ++ around_call ++ pops ++ pop rcx ∷ add_rsp 8 ∷ []

-- `interrupt_entrypoint!(index)`: the processor has pushed no error code.
abbrev pub entrypoint : ℕ → List Instr
entrypoint index = push_imm 0 ∷ push rcx ∷ mov_imm rcx index ∷ inthandler_common

-- `interrupt_entrypoint_with_ecode!(index)`.
abbrev pub entrypoint_with_ecode : ℕ → List Instr
entrypoint_with_ecode index = push rcx ∷ mov_imm rcx index ∷ inthandler_common

-- The two up to the call of `inthandler`.
abbrev pub entrypoint_until_call : ℕ → List Instr
entrypoint_until_call index = push_imm 0 ∷ push rcx ∷ mov_imm rcx index ∷ pushes ++ before_call

abbrev pub entrypoint_with_ecode_until_call : ℕ → List Instr
entrypoint_with_ecode_until_call index = push rcx ∷ mov_imm rcx index ∷ pushes ++ before_call
