-- ===== src/Graphics/Text/Writer.antt =====
-- `BitmapTextWriter` of graphics.rs: what a text looks like.
use wasabi_os.Common.{
  ℕ, ◌+◌, ◌-◌, ◌*◌, ◌≡◌, ◌∙◌, sym, refl, ap, inl, inr, Bool-cases, true, false, List, [], ◌∷◌,
  arith, ◌==◌, pos, ◌+ℤ◌, length,
}
use wasabi_os.Graphics.{Bitmap}
use wasabi_os.Graphics.Painted.{Painted, Painted-chain, Painted-none, Painted-same}
use wasabi_os.Graphics.Font.{newline, to_first, split}
use wasabi_os.Graphics.Text.{draw_font_fg, BitmapTextWriter, write_str}
use wasabi_os.Graphics.Painted.{Sized, Sized-Painted}
use wasabi_os.Graphics.Text.Glyphs.{draw_font_fg-Painted}
use wasabi_os.Graphics.Text.Grid.{
  last_column, last_column_first, last_column_newline, length-to_first, length-split,
}
use wasabi_os.Graphics.Text.Cell.{
  text_pixel, text_pixel_first, text_pixel_newline, text_pixel-empty,
}

abbrev white : ℕ
white = 0xffffff

-- The writer with the cursor in a column and a row of the grid.
abbrev pub writer_at : Bitmap → ℕ → ℕ → BitmapTextWriter
writer_at b k r = record { buf = b; cursor_x = pos (8 * k); cursor_y = pos (16 * r) }

module _ (source : List ℕ) (w h : ℕ) where
  abbrev pub Written : List (List ℕ) → ℕ → ℕ → Bitmap → BitmapTextWriter → Type 0
  Written lines k r b wr =
      Painted (text_pixel w h source lines k r) white b wr.buf
      × (wr.cursor_x ≡ pos (8 * last_column k lines))
      × (wr.cursor_y ≡ pos (16 * (r + length lines - 1)))

  right_by : (k n : ℕ) → pos k +ℤ pos n ≡ pos (k + n)
  unfolding ◌+ℤ◌
  right_by k n = ground arith

  -- One step of `write_str`, on a newline and on another character.
  write_str-newline :
      (c : ℕ) (cs : List ℕ) (k r : ℕ) (b : Bitmap)
      → (c == newline) ≡ true
      → write_str source (c ∷ cs) (writer_at b k r) ≡ write_str source cs (writer_at b 0 (r + 1))
  unfolding write_str
  write_str-newline c cs k r b end =
      let e : pos (16 * r) +ℤ pos 16 ≡ pos (16 * (r + 1)) =
        right_by (16 * r) 16 ∙ ap pos (omega arith) in
      rw (write_str, end)
        (λ i. write_str source cs (record { buf = b; cursor_x = pos 0; cursor_y = e i }))

  write_str_other :
      (c : ℕ) (cs : List ℕ) (k r : ℕ) (b : Bitmap)
      → (c == newline) ≡ false
      → write_str source (c ∷ cs) (writer_at b k r)
        ≡ write_str source cs
            (writer_at (draw_font_fg source b (pos (8 * k)) (pos (16 * r)) white c) (k + 1) r)
  unfolding write_str
  write_str_other c cs k r b more =
      let e : pos (8 * k) +ℤ pos 8 ≡ pos (8 * (k + 1)) =
        right_by (8 * k) 8 ∙ ap pos (omega arith) in
      rw (write_str, more)
        (λ i. write_str source cs (record {
          buf = draw_font_fg source b (pos (8 * k)) (pos (16 * r)) white c;
          cursor_x = e i;
          cursor_y = pos (16 * r);
        }))

  split-newline :
      (c : ℕ) (cs : List ℕ) → (c == newline) ≡ true → split newline (c ∷ cs) ≡ [] ∷ split newline cs
  unfolding split
  split-newline c cs end = rw end refl

  split_other :
      (c : ℕ) (cs : List ℕ)
      → (c == newline) ≡ false
      → split newline (c ∷ cs) ≡ to_first c (split newline cs)
  unfolding split
  split_other c cs more = rw more refl

  -- A text that the writer is given with its cursor in the cell (k, r) of the grid is drawn in white,
  -- each character in its own cell of 8 by 16 pixels, on the lines into which the newlines split it;
  -- no other pixel changes, and what lies outside of the picture is cut off. The cursor ends in the
  -- cell after the last character.
  pub write_str-Written :
      (s : List ℕ) (k r : ℕ) (b : Bitmap)
      → Sized w h b
      → Written (split newline s) k r b (write_str source s (writer_at b k r))
  unfolding write_str split
  write_str-Written [] k r b s = (
    Painted-none (text_pixel w h source ([] ∷ []) k r) white b (text_pixel-empty w h source k r),
    ap pos (omega arith),
    ap pos (omega arith),
  )
  write_str-Written (c ∷ cs) k r b s =
      let lines = split newline cs in
      let some_line = length-split newline cs in
      elim (Bool-cases (c == newline)) [
        | inl end ↦
            let rest = write_str-Written cs 0 (r + 1) b s in
            rw (write_str-newline c cs k r b end, split-newline c cs end)
              (
                Painted-same (text_pixel w h source ([] ∷ lines) k r)
                    (λ a d. sym (text_pixel_newline w h source lines k r a d)) rest.0,
                rest.1 ∙ ap (λ t. pos (8 * t)) (sym (last_column_newline k lines some_line)),
                rest.2 ∙ ap pos (omega (arith, some_line)),
              )
        | inr more ↦
            let first = draw_font_fg-Painted w h white source c (8 * k) (16 * r) b s in
            let b1 = draw_font_fg source b (pos (8 * k)) (pos (16 * r)) white c in
            let rest = write_str-Written cs (k + 1) r b1 (Sized-Painted s first) in
            rw (write_str_other c cs k r b more, split_other c cs more)
              (
                Painted-chain (text_pixel w h source (to_first c lines) k r)
                    (λ a d. text_pixel_first w h source c lines k r a d) first rest.0,
                rest.1 ∙ ap (λ t. pos (8 * t)) (sym (last_column_first c k lines)),
                rest.2 ∙ ap (λ t. pos (16 * (r + t - 1))) (sym (length-to_first c lines some_line)),
              )
      ]
