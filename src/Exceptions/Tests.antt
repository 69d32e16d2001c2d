-- ===== src/Exceptions/Tests.antt =====
-- The exception tables of a small kernel.
use wasabi_os.Common.{ℕ, ◌+◌, ◌*◌, ◌^◌, ◌<◌, ◌≡◌, ◌↔◌, arith, [], ◌∷◌, get_elem?, some, done}
use wasabi_os.Exceptions.{
  int_gate_dpl0, EntryPoints, IdtDescriptor, idt_entries, TaskStateSegment, new_tss, tss_descriptor,
  returns, inthandler,
}
use wasabi_os.Exceptions.Gdt.{GdtWrapper, Boxes, Segments, init_exceptions}
use wasabi_os.Exceptions.Segments.{AreLoaded, init_exceptions-AreLoaded}
use wasabi_os.Exceptions.Tables.{
  target_of, AreAddresses, idt_entries_lem, tss_descriptor_base, inthandler_returns, new_tss_lem,
}

abbrev pub points : EntryPoints
points = record {
  unimplemented = 0x1_4000_1000;
  entrypoint3 = 0x1_4000_2030;
  entrypoint6 = 0x1_4000_2060;
  entrypoint8 = 0x1_4000_2080;
  entrypoint13 = 0x1_4000_2130;
  entrypoint14 = 0x1_4000_2140;
  entrypoint32 = 0x1_4000_2320;
}

pub points-AreAddresses : AreAddresses points
points-AreAddresses = record {
  unimplemented = omega arith;
  entrypoint3 = omega arith;
  entrypoint6 = omega arith;
  entrypoint8 = omega arith;
  entrypoint13 = omega arith;
  entrypoint14 = omega arith;
  entrypoint32 = omega arith;
}

idt_entries_lem_run :
    (target_of (idt_entries points 8 8) ≡ 0x1_4000_2080)
    × ((idt_entries points 8 8).segment_selector ≡ 8)
    × ((idt_entries points 8 8).attr ≡ int_gate_dpl0)
    × ((idt_entries points 8 8).ist_index ≡ 2)
idt_entries_lem_run = idt_entries_lem points 8 8 points-AreAddresses

tss_descriptor_base_run :
    (tss_descriptor 0x12_3456_7890).base_low
      + (tss_descriptor 0x12_3456_7890).base_mid_low * 2 ^ 16
      + (tss_descriptor 0x12_3456_7890).base_mid_high * 2 ^ 24
      + (tss_descriptor 0x12_3456_7890).base_high * 2 ^ 32
    ≡ 0x12_3456_7890
tss_descriptor_base_run = tss_descriptor_base 0x12_3456_7890 (omega arith)

abbrev page_fault : ℕ
page_fault = 14

inthandler_returns_example : (inthandler page_fault ≡ returns) ↔ (page_fault ≡ 3)
inthandler_returns_example = inthandler_returns page_fault

new_tss_lem_run :
    (tss : TaskStateSegment) × (new_tss (1 ∷ 2 ∷ 3 ∷ 4 ∷ 5 ∷ 6 ∷ 7 ∷ 8 ∷ []) ≡ done tss)
    × (tss.rsp0 ≡ 65537)
    × ((i b : ℕ)
        → 0 < i
        → get_elem? (0 ∷ 2 ∷ 3 ∷ 4 ∷ 5 ∷ 6 ∷ 7 ∷ 8 ∷ []) i ≡ some b
        → tss.ist i ≡ b + 65536)
new_tss_lem_run = new_tss_lem 1 2 3 4 5 6 7 8 []

abbrev boxes : Boxes
boxes = record {
  stacks =
      0x10_0000 ∷ 0x12_0000 ∷ 0x14_0000 ∷ 0x16_0000 ∷ 0x18_0000 ∷ 0x1A_0000 ∷ 0x1C_0000 ∷ 0x1E_0000
      ∷ [];
  tss = 0x20_0000;
  gdt = 0x20_0080;
  idt = 0x20_1000;
}

-- The registers that the firmware left.
abbrev pub firmware : Segments
firmware = record {
  gdtr_limit = 71;
  gdtr_base = 0x7_F000;
  tr = 0;
  cs = 56;
  ss = 48;
  es = 48;
  ds = 48;
  fs = 48;
  gs = 48;
  idtr_limit = 4095;
  idtr_base = 0x7_E000;
}

init_exceptions-AreLoaded_example :
    (g : GdtWrapper) × (entries : ℕ → IdtDescriptor) × (s : Segments) × (init_exceptions points
        boxes firmware
      ≡ done (g, entries, s))
    × AreLoaded points boxes 0x12_0000 0x14_0000 g entries s
init_exceptions-AreLoaded_example =
    init_exceptions-AreLoaded points firmware 0x10_0000 0x12_0000 0x14_0000 0x16_0000 0x18_0000
      0x1A_0000 0x1C_0000 0x1E_0000 0x20_0000 0x20_0080 0x20_1000 points-AreAddresses (omega arith)
