-- ===== src/Exceptions/Segments.antt =====
-- What the processor finds in the tables of x86.rs after `init_exceptions`.
use wasabi_os.Common.{
  ℕ, ◌+◌, ◌*◌, ◌/◌, ◌%◌, ◌^◌, ◌<◌, ◌≡◌, refl, arith, List, [], ◌∷◌, Option, none, some, done, ◌==◌,
  leb, if◌then◌else◌, get_elem?, Bool-cases, inl, inr,
}
use wasabi_os.Common.Bits.{bit_and-ones}
use wasabi_os.Exceptions.{
  IdtAttr, idt_attr_value, int_gate_dpl0, int_gate_dpl3, TaskStateSegment, TssDescriptor,
  tss_descriptor, EntryPoints, IdtDescriptor, idt_entries,
}
use wasabi_os.Exceptions.Tables.{target_of, handler_of, AreAddresses, idt_entries_lem, new_tss_lem}
use wasabi_os.Exceptions.Gdt.{
  Gdt, GdtWrapper, Boxes, Segments, kernel_cs, kernel_ds, default, load, write_selectors, load_idt,
  init_exceptions, gdt_wrapper,
}

-- The two words of the descriptor in memory, field by field from the lowest byte on.
abbrev low_word : TssDescriptor → ℕ
low_word d =
    d.limit_low
    + d.base_low * 2 ^ 16
    + d.base_mid_low * 2 ^ 32
    + d.attr * 2 ^ 40
    + d.base_mid_high * 2 ^ 56

abbrev high_word : TssDescriptor → ℕ
high_word d = d.base_high

-- The table in memory: five words of 64 bits.
abbrev pub words : Gdt → List ℕ
words g =
    g.null_segment
    ∷ g.kernel_code_segment
    ∷ g.kernel_data_segment
    ∷ low_word g.task_state_segment
    ∷ high_word g.task_state_segment
    ∷ []

-- The n-th word of the descriptor that a selector names, if the limit allows to read it.
abbrev pub read_descriptor : Gdt → ℕ → ℕ → ℕ → Option ℕ
read_descriptor g limit n sel =
    if leb (sel / 8 * 8 + n * 8 + 7) limit then get_elem? (words g) (sel / 8 + n) else none

-- Bits 43 and 44: 3 is code, 2 is data; bits 45 and 46 are the privilege, 47 says present, 41
-- readable or writable, 53 long mode.
pub record IsSegment (kind long word : ℕ) : Type 0 where
  pub type_bits : word / 2 ^ 43 % 4 ≡ kind
  pub privilege : word / 2 ^ 45 % 4 ≡ 0
  pub is_present : word / 2 ^ 47 % 2 ≡ 1
  pub access : word / 2 ^ 41 % 2 ≡ 1
  pub long_mode : word / 2 ^ 53 % 2 ≡ long

-- A present 64-bit task state segment of 104 bytes at the address, which nobody uses yet.
pub record IsTask (address low high : ℕ) : Type 0 where
  pub base : low / 2 ^ 16 % 2 ^ 24 + low / 2 ^ 56 * 2 ^ 24 + high * 2 ^ 32 ≡ address
  pub limit : low % 2 ^ 16 ≡ 104
  pub type_bits : low / 2 ^ 40 % 2 ^ 5 ≡ 0b01001
  pub is_present : low / 2 ^ 47 % 2 ≡ 1

abbrev pub data_selectors : Segments → List ℕ
data_selectors s = s.ss ∷ s.es ∷ s.ds ∷ s.fs ∷ s.gs ∷ []

pub record AreLoaded (p : EntryPoints) (boxes : Boxes) (stack fault_stack : ℕ) (gdt : GdtWrapper)
    (idt : ℕ → IdtDescriptor) (s : Segments) : Type 0 where
  pub gdt_at : s.gdtr_base ≡ boxes.gdt
  pub idt_at : s.idtr_base ≡ boxes.idt
  pub idt_limit : s.idtr_limit ≡ 4096
  pub code :
      (word : ℕ) × (read_descriptor gdt.inner s.gdtr_limit 0 s.cs ≡ some word) × IsSegment 3 1 word
  pub data_segments :
      (i sel : ℕ)
      → get_elem? (data_selectors s) i ≡ some sel
      → (word : ℕ) × (read_descriptor gdt.inner s.gdtr_limit 0 sel ≡ some word) × IsSegment 2 0 word
  pub task :
      (low high : ℕ) × (read_descriptor gdt.inner s.gdtr_limit 0 s.tr ≡ some low)
      × (read_descriptor gdt.inner s.gdtr_limit 1 s.tr ≡ some high)
      × IsTask boxes.tss low high
  pub vectors :
      (i : ℕ)
      → ((idt i).segment_selector ≡ s.cs)
        × (target_of (idt i) ≡ handler_of p i)
        × (idt_attr_value (idt i).attr ≡ (if i == 3 then 0xEE else 0x8E))
        × (gdt.tss64.ist (idt i).ist_index ≡ (if i == 8 then fault_stack else stack) + 65536)

tss_descriptor-IsTask :
    (a : ℕ) → a < 2 ^ 64 → IsTask a (low_word (tss_descriptor a)) (high_word (tss_descriptor a))
unfolding tss_descriptor
tss_descriptor-IsTask a h =
    let low = bit_and-ones 16 a in
    let mid_low = bit_and-ones 8 (a / 2 ^ 16) in
    let mid_high = bit_and-ones 8 (a / 2 ^ 24) in
    let high = bit_and-ones 32 (a / 2 ^ 32) in
    record {
      base = rw (low, mid_low, mid_high, high) (omega arith);
      limit = rw (low, mid_low, mid_high) (omega arith);
      type_bits = rw (low, mid_low, mid_high) (omega arith);
      is_present = rw (low, mid_low, mid_high) (omega arith);
    }

data-IsSegment :
    (boxes : Boxes) (tss64 : TaskStateSegment) (s : Segments) (i sel : ℕ)
    → let s' = load_idt boxes.idt (write_selectors (load (gdt_wrapper boxes tss64) s)) in
      get_elem? (data_selectors s') i ≡ some sel
      → (word : ℕ) × (read_descriptor (gdt_wrapper boxes tss64).inner s'.gdtr_limit 0 sel
          ≡ some word)
        × IsSegment 2 0 word
data-IsSegment boxes tss64 s i sel e =
    let same : sel ≡ kernel_ds = ground arith in
    rw same (
      _,
      refl,
      record {
        type_bits = refl;
        privilege = refl;
        is_present = refl;
        access = refl;
        long_mode = refl;
      },
    )

-- The byte of the attributes of a vector: a present interrupt gate, with the privilege in bits 5 and 6.
attr_bits :
    (i : ℕ) (attr : IdtAttr)
    → attr ≡ (if i == 3 then int_gate_dpl3 else int_gate_dpl0)
    → idt_attr_value attr ≡ (if i == 3 then 0xEE else 0x8E)
attr_bits i attr e = elim (Bool-cases (i == 3)) [
  | inl user ↦ let same : attr ≡ int_gate_dpl3 = rw user at e in rw (same, user) refl
  | inr other ↦ let same : attr ≡ int_gate_dpl0 = rw other at e in rw (same, other) refl
]

-- The stack of a vector, from the index that its descriptor has.
stack_of :
    (tss64 : TaskStateSegment) (i index b1 b2 : ℕ)
    → tss64.ist 1 ≡ b1 + 65536
    → tss64.ist 2 ≡ b2 + 65536
    → index ≡ (if i == 8 then 2 else 1)
    → tss64.ist index ≡ (if i == 8 then b2 else b1) + 65536
stack_of tss64 i index b1 b2 first second e = elim (Bool-cases (i == 8)) [
  | inl fault ↦ let two : index ≡ 2 = rw fault at e in rw (two, fault) second
  | inr other ↦ let one : index ≡ 1 = rw other at e in rw (one, other) first
]

-- With eight boxes for stacks, `init_exceptions` ends with the registers set: those of the two
-- tables hold the addresses of their boxes, that of the interrupts with the limit 4096; the code selector
-- names a present 64-bit code segment, the five others a present writable data segment, and the task
-- register a task state segment of 104 bytes at the address of its box, all of them inside the limit.
-- Each vector enters its handler with that code selector, on the stack of the second box, and the
-- double fault alone on that of the third. Each is a present interrupt gate, and the breakpoint alone has
-- the privilege 3.
pub init_exceptions-AreLoaded :
    (p : EntryPoints) (s : Segments) (b0 b1 b2 b3 b4 b5 b6 b7 tss gdt idt : ℕ)
    → AreAddresses p
    → tss < 2 ^ 64
    → let boxes : Boxes = record {
      stacks = b0 ∷ b1 ∷ b2 ∷ b3 ∷ b4 ∷ b5 ∷ b6 ∷ b7 ∷ [];
      tss = tss;
      gdt = gdt;
      idt = idt;
    } in
      (g : GdtWrapper) × (entries : ℕ → IdtDescriptor) × (s' : Segments) × (init_exceptions p boxes
          s
        ≡ done (g, entries, s'))
      × AreLoaded p boxes b1 b2 g entries s'
unfolding init_exceptions default
init_exceptions-AreLoaded p s b0 b1 b2 b3 b4 b5 b6 b7 tss gdt idt a h =
    let boxes : Boxes = record {
      stacks = b0 ∷ b1 ∷ b2 ∷ b3 ∷ b4 ∷ b5 ∷ b6 ∷ b7 ∷ [];
      tss = tss;
      gdt = gdt;
      idt = idt;
    } in
    let (tss64, e, _, ist) = new_tss_lem b0 b1 b2 b3 b4 b5 b6 b7 [] in
    let g : GdtWrapper = gdt_wrapper boxes tss64 in
    (
      g,
      idt_entries p kernel_cs,
      load_idt idt (write_selectors (load g s)),
      rw e refl,
      record {
        gdt_at = refl;
        idt_at = refl;
        idt_limit = refl;
        code = (
          _,
          refl,
          record {
            type_bits = refl;
            privilege = refl;
            is_present = refl;
            access = refl;
            long_mode = refl;
          },
        );
        data_segments = data-IsSegment boxes tss64 s;
        task = (_, _, refl, refl, tss_descriptor-IsTask tss h);
        vectors = λ i.
            let (target, selector, attr, index) = idt_entries_lem p kernel_cs i a in
            let first = ist 1 b1 (omega arith) refl in
            let second = ist 2 b2 (omega arith) refl in
            (selector, target, attr_bits i _ attr, stack_of tss64 i _ b1 b2 first second index);
      },
    )
