-- ===== src/Exceptions.antt =====
-- x86.rs, the exceptions: the interrupt descriptor table, the task state segment, the segment
-- descriptors and the handler that the entry points call. Addresses of code are parameters.
pub mod Gdt
pub mod Segments
pub mod Tables
pub mod Tests
use wasabi_os.Common.{
  ℕ, zero, suc, ◌+◌, ◌-◌, ◌*◌, ◌/◌, ◌%◌, ◌^◌, bit_and, bit_or, Bool, true, false, not, String, List,
  [], ◌∷◌, Outcome, done, panic, ◌==◌, if◌then◌else◌,
}

-- The values of `IdtAttr`.
pub data IdtAttr : Type 0 where
  not_present int_gate_dpl0 int_gate_dpl3 : IdtAttr

abbrev bit_flags_intgate : ℕ
bit_flags_intgate = 0b0000_1110

abbrev bit_flags_present : ℕ
bit_flags_present = 0b1000_0000

abbrev pub idt_attr_value : IdtAttr → ℕ
idt_attr_value not_present = 0
idt_attr_value int_gate_dpl0 = bit_or (bit_or bit_flags_intgate bit_flags_present) 0
idt_attr_value int_gate_dpl3 = bit_or (bit_or bit_flags_intgate bit_flags_present) (3 * 2 ^ 5)

pub record IdtDescriptor : Type 0 where
  pub offset_low : ℕ
  pub segment_selector : ℕ
  pub ist_index : ℕ
  pub attr : IdtAttr
  pub offset_mid : ℕ
  pub offset_high : ℕ

-- `IdtDescriptor::new`; `as` keeps the low bits.
unfoldable pub idt_descriptor : ℕ → ℕ → IdtAttr → ℕ → IdtDescriptor
idt_descriptor segment_selector ist_index attr handler_addr = record {
  offset_low = handler_addr % 2 ^ 16;
  segment_selector = segment_selector;
  ist_index = ist_index;
  attr = attr;
  offset_mid = handler_addr / 2 ^ 16 % 2 ^ 16;
  offset_high = handler_addr / 2 ^ 32 % 2 ^ 32;
}

-- Where the entry points and the handler of unexpected interrupts stand.
pub record EntryPoints : Type 0 where
  pub unimplemented : ℕ
  pub entrypoint3 : ℕ
  pub entrypoint6 : ℕ
  pub entrypoint8 : ℕ
  pub entrypoint13 : ℕ
  pub entrypoint14 : ℕ
  pub entrypoint32 : ℕ

abbrev set_entry : ℕ → IdtDescriptor → (ℕ → IdtDescriptor) → ℕ → IdtDescriptor
set_entry i d entries j = if j == i then d else entries j

-- The 256 entries that `Idt::new` makes, as a function of the index.
unfoldable pub idt_entries : EntryPoints → ℕ → ℕ → IdtDescriptor
idt_entries p sel =
    let e0 = (λ (j : ℕ). idt_descriptor sel 1 int_gate_dpl0 p.unimplemented) in
    let e1 = set_entry 3 (idt_descriptor sel 1 int_gate_dpl3 p.entrypoint3) e0 in
    let e2 = set_entry 6 (idt_descriptor sel 1 int_gate_dpl0 p.entrypoint6) e1 in
    let e3 = set_entry 8 (idt_descriptor sel 2 int_gate_dpl0 p.entrypoint8) e2 in
    let e4 = set_entry 13 (idt_descriptor sel 1 int_gate_dpl0 p.entrypoint13) e3 in
    let e5 = set_entry 14 (idt_descriptor sel 1 int_gate_dpl0 p.entrypoint14) e4 in
    set_entry 32 (idt_descriptor sel 1 int_gate_dpl0 p.entrypoint32) e5

-- The limit that `lidt` gets: the size of the table.
abbrev pub idt_limit : ℕ
idt_limit = 0x100 * 16 % 2 ^ 16

-- `TaskStateSegment64Inner`; the stacks of the array `_ist` are a function of the index.
pub record TaskStateSegment : Type 0 where
  pub rsp0 : ℕ
  pub ist : ℕ → ℕ

abbrev pub handler_stack_size : ℕ
handler_stack_size = 64 * 1024

-- `alloc_interrupt_stack` from the address that the allocator gives: the stack grows down from its end.
abbrev pub stack_top : ℕ → ℕ
stack_top address = address + handler_stack_size

-- The loop over `ist[1..=7]`: n stacks from the index i on, at the addresses of a list.
unfoldable pub fill_ist : ℕ → ℕ → List ℕ → (ℕ → ℕ) → Outcome (ℕ → ℕ)
fill_ist zero i boxes ist = done ist
fill_ist (suc n) i [] ist = panic
fill_ist (suc n) i (b ∷ boxes) ist =
    fill_ist n (i + 1) boxes (λ j. if j == i then stack_top b else ist j)

-- `TaskStateSegment64::new`.
unfoldable pub new_tss : List ℕ → Outcome TaskStateSegment
new_tss [] = panic
new_tss (b ∷ boxes) = elim (fill_ist 7 1 boxes (λ j. 0)) [
  | panic ↦ panic
  | done ist ↦ done (record { rsp0 = stack_top b; ist = ist })
]

-- `TaskStateSegment64Descriptor`.
pub record TssDescriptor : Type 0 where
  pub limit_low : ℕ
  pub base_low : ℕ
  pub base_mid_low : ℕ
  pub attr : ℕ
  pub base_mid_high : ℕ
  pub base_high : ℕ

unfoldable pub tss_descriptor : ℕ → TssDescriptor
tss_descriptor base_addr = record {
  limit_low = 104;
  base_low = bit_and base_addr 0xffff % 2 ^ 16;
  base_mid_low = bit_and (base_addr / 2 ^ 16) 0xff % 2 ^ 8;
  attr = 0b1000_0000_1000_1001;
  base_mid_high = bit_and (base_addr / 2 ^ 24) 0xff % 2 ^ 8;
  base_high = bit_and (base_addr / 2 ^ 32) 0xffffffff % 2 ^ 32;
}

-- What an exception's handler does in the end: return to the interrupted code, or panic.
pub data Handled : Type 0 where
  returns : Handled
  panics : Handled

-- `inthandler`, without its messages.
unfoldable pub inthandler : ℕ → Handled
inthandler index =
    if index == 3
    then returns
    else if index == 6
    then panics
    else if index == 8
    then panics
    else if index == 13
    then panics
    else if index == 14
    then panics
    else panics

abbrev bit_set : ℕ → ℕ → Bool
bit_set word mask = not (bit_and word mask == 0)

-- The four words of the message on a page fault.
unfoldable pub page_fault_cause : ℕ → String × String × String × String
page_fault_cause error_code = (
  if bit_set error_code 0b0000_0100 then "user" else "supervisor",
  if bit_set error_code 0b0001_0000
      then "instruction fetch"
      else if bit_set error_code 0b0010
      then "data write"
      else "data read",
  if bit_set error_code 0b0001 then "present" else "non-present",
  if bit_set error_code 0b1000 then "invalid" else "valid",
)
