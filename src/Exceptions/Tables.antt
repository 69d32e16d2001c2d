-- ===== src/Exceptions/Tables.antt =====
-- What the processor reads back from the tables of x86.rs.
use wasabi_os.Common.{
  ℕ, ◌+◌, ◌*◌, ◌/◌, ◌^◌, ◌<◌, ◌≡◌, ◌↔◌, refl, arith, List, [], ◌∷◌, done, ◌==◌, if◌then◌else◌,
  get_elem?, some,
}
use wasabi_os.Common.Bits.{bit_and-ones}
use wasabi_os.Exceptions.{
  IdtAttr, int_gate_dpl0, int_gate_dpl3, IdtDescriptor, idt_descriptor, EntryPoints, idt_entries,
  TaskStateSegment, fill_ist, new_tss, tss_descriptor, returns, inthandler,
}

-- The address that the processor jumps to.
abbrev pub target_of : IdtDescriptor → ℕ
target_of d = d.offset_low + d.offset_mid * 2 ^ 16 + d.offset_high * 2 ^ 32

-- The handler that an exception is meant to reach.
abbrev pub handler_of : EntryPoints → ℕ → ℕ
handler_of p i =
    if i == 3
    then p.entrypoint3
    else if i == 6
    then p.entrypoint6
    else if i == 8
    then p.entrypoint8
    else if i == 13
    then p.entrypoint13
    else if i == 14
    then p.entrypoint14
    else if i == 32
    then p.entrypoint32
    else p.unimplemented

pub record AreAddresses (p : EntryPoints) : Type 0 where
  pub unimplemented : p.unimplemented < 2 ^ 64
  pub entrypoint3 : p.entrypoint3 < 2 ^ 64
  pub entrypoint6 : p.entrypoint6 < 2 ^ 64
  pub entrypoint8 : p.entrypoint8 < 2 ^ 64
  pub entrypoint13 : p.entrypoint13 < 2 ^ 64
  pub entrypoint14 : p.entrypoint14 < 2 ^ 64
  pub entrypoint32 : p.entrypoint32 < 2 ^ 64

idt_descriptor_target :
    (sel ist : ℕ) (attr : IdtAttr) (a : ℕ)
    → a < 2 ^ 64
    → target_of (idt_descriptor sel ist attr a) ≡ a
unfolding idt_descriptor
idt_descriptor_target sel ist attr a h = omega arith

-- Every vector leads to its handler: the split address in the descriptor is put together to that of
-- the entry point of the vector, or of the handler of unexpected interrupts. Only the breakpoint is
-- open to user code, and each vector has a stack of the task state segment, the double fault its own.
pub idt_entries_lem :
    (p : EntryPoints) (sel i : ℕ)
    → AreAddresses p
    → (target_of (idt_entries p sel i) ≡ handler_of p i)
      × ((idt_entries p sel i).segment_selector ≡ sel)
      × ((idt_entries p sel i).attr ≡ (if i == 3 then int_gate_dpl3 else int_gate_dpl0))
      × ((idt_entries p sel i).ist_index ≡ (if i == 8 then 2 else 1))
unfolding idt_entries idt_descriptor
idt_entries_lem p sel i a = (
  ground (
    arith, a.unimplemented, a.entrypoint3, a.entrypoint6, a.entrypoint8, a.entrypoint13,
    a.entrypoint14, a.entrypoint32,
  ),
  ground arith,
  ground arith,
  ground arith,
)

-- The base that the processor takes from the descriptor of the task state segment is its address.
pub tss_descriptor_base :
    (a : ℕ)
    → a < 2 ^ 64
    → (tss_descriptor a).base_low
        + (tss_descriptor a).base_mid_low * 2 ^ 16
        + (tss_descriptor a).base_mid_high * 2 ^ 24
        + (tss_descriptor a).base_high * 2 ^ 32
      ≡ a
unfolding tss_descriptor
tss_descriptor_base a h =
    rw
      (
        bit_and-ones 16 a,
        bit_and-ones 8 (a / 2 ^ 16),
        bit_and-ones 8 (a / 2 ^ 24),
        bit_and-ones 32 (a / 2 ^ 32),
      )
      (omega arith)

-- The handler goes back to the interrupted code for the breakpoint, and for nothing else.
pub inthandler_returns : (index : ℕ) → (inthandler index ≡ returns) ↔ (index ≡ 3)
unfolding inthandler
inthandler_returns index = ground arith

-- With eight boxes for stacks, the stacks of the task state segment are the ends of those boxes:
-- the first for the privilege change, the others for the indices 1 to 7.
pub new_tss_lem :
    (b0 b1 b2 b3 b4 b5 b6 b7 : ℕ) (rest : List ℕ)
    → (tss : TaskStateSegment) × (new_tss (b0 ∷ b1 ∷ b2 ∷ b3 ∷ b4 ∷ b5 ∷ b6 ∷ b7 ∷ rest) ≡ done tss)
      × (tss.rsp0 ≡ b0 + 65536)
      × ((i b : ℕ)
          → 0 < i
          → get_elem? (0 ∷ b1 ∷ b2 ∷ b3 ∷ b4 ∷ b5 ∷ b6 ∷ b7 ∷ []) i ≡ some b
          → tss.ist i ≡ b + 65536)
unfolding new_tss fill_ist
new_tss_lem b0 b1 b2 b3 b4 b5 b6 b7 rest = (_, refl, refl, λ i b pos e. ground arith)
