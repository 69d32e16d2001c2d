-- ===== src/Main/Load.antt =====
-- `init_exceptions` as `efi_main` of main.rs calls it: on eleven boxes of the allocator.
use wasabi_os.Common.{ℕ, ◌≡◌, refl, some, List, [], ◌∷◌, ◌++◌, done, get_elem?, All, arith}
use wasabi_os.Allocator.{Header}
use wasabi_os.Exceptions.{IdtDescriptor}
use wasabi_os.Exceptions.Gdt.{Boxes, GdtWrapper, Segments, init_exceptions}
use wasabi_os.Exceptions.Tables.{AreAddresses}
use wasabi_os.Exceptions.Segments.{AreLoaded, init_exceptions-AreLoaded}
use wasabi_os.Allocator.Boxes.{IsSmall, bytes-IsSmall}
use wasabi_os.Allocator.Boxed.{AreBoxes, no_box, one_more}
use wasabi_os.Main.Entry.{Platform, exception_layouts, exception_boxes}

-- The boxes of the descriptor tables in a list of eleven.
abbrev boxes_of : ℕ → ℕ → ℕ → ℕ → ℕ → ℕ → ℕ → ℕ → ℕ → ℕ → ℕ → Boxes
boxes_of b0 b1 b2 b3 b4 b5 b6 b7 tss gdt idt = record {
  stacks = b0 ∷ b1 ∷ b2 ∷ b3 ∷ b4 ∷ b5 ∷ b6 ∷ b7 ∷ [];
  tss = tss;
  gdt = gdt;
  idt = idt;
}

-- `init_exceptions` on the boxes that the allocator gave.
pub record Loaded {S D : Type 0} (p : Platform S D) (bs : List ℕ) : Type 0 where
  pub boxes : Boxes
  pub stack : ℕ
  pub fault_stack : ℕ
  pub tables : GdtWrapper × (ℕ → IdtDescriptor) × Segments
  pub same : exception_boxes bs ≡ done boxes
  pub all : boxes.stacks ++ boxes.tss ∷ boxes.gdt ∷ boxes.idt ∷ [] ≡ bs
  pub first : get_elem? boxes.stacks 1 ≡ some stack
  pub second : get_elem? boxes.stacks 2 ≡ some fault_stack
  pub runs : init_exceptions p.points boxes p.segments ≡ done tables
  pub loaded : AreLoaded p.points boxes stack fault_stack tables.0 tables.1 tables.2

pub exceptions_load :
    {S D : Type 0} (p : Platform S D) {out : List Header} (bs : List ℕ)
    → AreAddresses p.points
    → AreBoxes out exception_layouts bs
    → Loaded p bs
exceptions_load p _ addresses
      (one_more {b = b0} _ _ (
        one_more {b = b1} _ _ (
          one_more {b = b2} _ _ (
            one_more {b = b3} _ _ (
              one_more {b = b4} _ _ (
                one_more {b = b5} _ _ (
                  one_more {b = b6} _ _ (
                    one_more {b = b7} _ _ (
                      one_more {b = tss} box _
                        (one_more {b = gdt} _ _ (one_more {b = idt} _ _ no_box))))))))))) =
    let (g, idt', s, runs, loaded) =
      init_exceptions-AreLoaded p.points p.segments b0 b1 b2 b3 b4 b5 b6 b7 tss gdt idt addresses
        box.in_range in
    record {
      boxes = boxes_of b0 b1 b2 b3 b4 b5 b6 b7 tss gdt idt;
      stack = b1;
      fault_stack = b2;
      tables = (g, idt', s);
      same = refl;
      all = refl;
      first = refl;
      second = refl;
      runs = runs;
      loaded = loaded;
    }

pub exception_layouts-IsSmall : All IsSmall exception_layouts
exception_layouts-IsSmall =
    let stack : IsSmall (record { size = 65536; align = 1 }) =
      bytes-IsSmall 65536 (omega arith) (omega arith) in
    (
      stack,
      (
        stack,
        (
          stack,
          (
            stack,
            (
              stack,
              (
                stack,
                (
                  stack,
                  (
                    stack,
                    (
                      bytes-IsSmall 104 (omega arith) (omega arith),
                      (
                        bytes-IsSmall 40 (omega arith) (omega arith),
                        (bytes-IsSmall 4096 (omega arith) (omega arith), tt),
                      ),
                    ),
                  ),
                ),
              ),
            ),
          ),
        ),
      ),
    )
