-- ===== src/Exceptions/Gdt.antt =====
-- x86.rs, the global descriptor table and `init_exceptions`.
use wasabi_os.Common.{ℕ, ◌-◌, ◌*◌, ◌^◌, ◌%◌, bit_or, List, Outcome, done, ◌>>=◌}
use wasabi_os.Exceptions.{
  TssDescriptor, tss_descriptor, TaskStateSegment, new_tss, EntryPoints, IdtDescriptor, idt_entries,
  idt_limit,
}

abbrev bit_type_data : ℕ
bit_type_data = 0b10 * 2 ^ 43

abbrev bit_type_code : ℕ
bit_type_code = 0b11 * 2 ^ 43

abbrev bit_present : ℕ
bit_present = 2 ^ 47

abbrev bit_cs_long_mode : ℕ
bit_cs_long_mode = 2 ^ 53

abbrev bit_cs_readable : ℕ
bit_cs_readable = 2 ^ 41

abbrev bit_ds_writable : ℕ
bit_ds_writable = 2 ^ 41

-- The values of `GdtAttr`.
pub data GdtAttr : Type 0 where
  kernel_code kernel_data : GdtAttr

abbrev gdt_attr_value : GdtAttr → ℕ
gdt_attr_value kernel_code =
    bit_or (bit_or (bit_or bit_type_code bit_present) bit_cs_long_mode) bit_cs_readable
gdt_attr_value kernel_data = bit_or (bit_or bit_type_data bit_present) bit_ds_writable

-- `GdtSegmentDescriptor::new`.
abbrev segment_descriptor : GdtAttr → ℕ
segment_descriptor attr = gdt_attr_value attr

abbrev pub kernel_cs : ℕ
kernel_cs = 1 * 2 ^ 3

abbrev pub kernel_ds : ℕ
kernel_ds = 2 * 2 ^ 3

abbrev pub tss64_sel : ℕ
tss64_sel = 3 * 2 ^ 3

pub record Gdt : Type 0 where
  pub null_segment : ℕ
  pub kernel_code_segment : ℕ
  pub kernel_data_segment : ℕ
  pub task_state_segment : TssDescriptor

-- `GdtWrapper`, with the addresses of its two boxes.
pub record GdtWrapper : Type 0 where
  pub address : ℕ
  pub inner : Gdt
  pub tss_address : ℕ
  pub tss64 : TaskStateSegment

-- What the allocator gives: the boxes of the stacks, and those of the three tables.
pub record Boxes : Type 0 where
  pub stacks : List ℕ
  pub tss : ℕ
  pub gdt : ℕ
  pub idt : ℕ

abbrev pub gdt_wrapper : Boxes → TaskStateSegment → GdtWrapper
gdt_wrapper boxes tss64 = record {
  address = boxes.gdt;
  inner = record {
    null_segment = 0;
    kernel_code_segment = segment_descriptor kernel_code;
    kernel_data_segment = segment_descriptor kernel_data;
    task_state_segment = tss_descriptor boxes.tss;
  };
  tss_address = boxes.tss;
  tss64 = tss64;
}

-- `GdtWrapper::default`.
unfoldable pub default : Boxes → Outcome GdtWrapper
default boxes = do tss64 ← new_tss boxes.stacks; done (gdt_wrapper boxes tss64)

-- The registers of the processor that refer to the tables.
pub record Segments : Type 0 where
  pub gdtr_limit : ℕ
  pub gdtr_base : ℕ
  pub tr : ℕ
  pub cs : ℕ
  pub ss : ℕ
  pub es : ℕ
  pub ds : ℕ
  pub fs : ℕ
  pub gs : ℕ
  pub idtr_limit : ℕ
  pub idtr_base : ℕ

-- `GdtWrapper::load`; the size of `Gdt` is 40.
abbrev pub load : GdtWrapper → Segments → Segments
load gdt s = record s { gdtr_limit = (40 - 1) % 2 ^ 16; gdtr_base = gdt.address; tr = tss64_sel }

-- `write_cs(KERNEL_CS)` to `write_gs(KERNEL_DS)`.
abbrev pub write_selectors : Segments → Segments
write_selectors s = record s {
  cs = kernel_cs;
  ss = kernel_ds;
  es = kernel_ds;
  ds = kernel_ds;
  fs = kernel_ds;
  gs = kernel_ds;
}

-- The end of `Idt::new`: `lidt`.
abbrev pub load_idt : ℕ → Segments → Segments
load_idt address s = record s { idtr_limit = idt_limit; idtr_base = address }

unfoldable pub init_exceptions :
    EntryPoints → Boxes → Segments → Outcome (GdtWrapper × (ℕ → IdtDescriptor) × Segments)
init_exceptions p boxes s = default boxes >>= λ gdt.
    done (gdt, idt_entries p kernel_cs, load_idt boxes.idt (write_selectors (load gdt s)))
