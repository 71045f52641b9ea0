-- ===== src/Drivers/Framebuffer/Glyph.antt =====
-- What the drawing of a glyph leaves on the screen.
use native.Mathlib.Nat.{suc-mul}
use demos_os.Base.{
  ℕ, zero, suc, ◌+◌, ◌-◌, ◌*◌, ◌<◌, ◌≤◌, ◌≡◌, ◌≢◌, refl, sym, ◌∙◌, ap, arith, Bool-cases, inl, inr,
  ◌==◌,
}
use demos_os.Base.Bits.{test_bit}
use demos_os.Sched.{update}
use demos_os.Drivers.Framebuffer.{
  Framebuffer, Font, Screen, colour, bytes_per_line, draw_row, draw_glyph,
}

module _ (font : Font) (f : Framebuffer) where
  -- The row is drawn from its highest bit on; nothing else is written.
  pub record Row (columns line byte : ℕ) (before after : Screen) : Type 0 where
    pub drawn :
        (i : ℕ)
        → i < columns
        → after (f.address + (line + 4 * i)) ≡ colour (test_bit byte (columns - 1 - i))
    pub others :
        (a : ℕ) → ((i : ℕ) → i < columns → a ≢ f.address + (line + 4 * i)) → after a ≡ before a

  draw_row-Row :
      (columns line byte : ℕ) (screen : Screen)
      → Row columns line byte screen (draw_row font f columns line byte screen)
  unfolding draw_row
  draw_row-Row zero line byte screen = record {
    drawn = λ i few. absurd (omega arith);
    others = λ a away. refl;
  }
  draw_row-Row (suc columns) line byte screen =
      let first = update screen (f.address + line) (colour (test_bit byte columns)) in
      let after = draw_row font f columns (line + 4) byte first in
      let rest = draw_row-Row columns (line + 4) byte first in
      let bit : ℕ → ℕ = λ n. colour (test_bit byte n) in
      record {
        drawn = λ i few. elim (Bool-cases (i == 0)) [
          | inl start ↦
              let there : f.address + (line + 4 * i) ≡ f.address + line = ground arith in
              let kept : after (f.address + line) ≡ first (f.address + line) =
                rest.others (f.address + line) (λ j less. omega arith) in
              let put : first (f.address + line) ≡ bit columns = ground arith in
              let last : columns ≡ suc columns - 1 - i = ground arith in
              ap after there ∙ kept ∙ put ∙ ap bit last
          | inr later ↦
              let there : f.address + (line + 4 * i) ≡ f.address + (line + 4 + 4 * (i - 1)) =
                ground arith in
              let last : columns - 1 - (i - 1) ≡ suc columns - 1 - i = ground arith in
              ap after there ∙ rest.drawn (i - 1) (ground arith) ∙ ap bit last
        ];
        others = λ a away.
            rest.others a (λ i few e. away (i + 1) (omega arith) (omega arith))
            ∙ (let ne : a ≢ f.address + line = λ e. away 0 (omega arith) (omega arith) in
                ground arith);
      }

  -- The place of a pixel of the glyph.
  abbrev pub pixel : (offs j i : ℕ) → ℕ
  pixel offs j i = f.address + (offs + j * f.pitch + 4 * i)

  pub record Drawn (rows glyph offs : ℕ) (before after : Screen) : Type 0 where
    pub pixels :
        (j i : ℕ)
        → j < rows
        → i < font.width
        → after (pixel offs j i)
          ≡ colour (test_bit (font.bytes (glyph + j * bytes_per_line font f)) (font.width - 1 - i))
    pub others :
        (a : ℕ) → ((j i : ℕ) → j < rows → i < font.width → a ≢ pixel offs j i) → after a ≡ before a

  -- A pixel of the rows below the first one.
  below : (offs j i : ℕ) → pixel (offs + f.pitch) j i ≡ pixel offs (suc j) i
  below offs j i = omega (arith, suc-mul j f.pitch)

  -- If the lines of the screen are at least as long as those of the glyph, each of its pixels has the
  -- colour of its bit, and nothing else on the screen changes.
  pub draw_glyph-Drawn :
      (rows glyph offs : ℕ) (screen : Screen)
      → 4 * font.width ≤ f.pitch
      → Drawn rows glyph offs screen (draw_glyph font f rows glyph offs screen)
  unfolding draw_glyph
  draw_glyph-Drawn zero glyph offs screen fits = record {
    pixels = λ j i few low. absurd (omega arith);
    others = λ a away. refl;
  }
  draw_glyph-Drawn (suc rows) glyph offs screen fits =
      let line = bytes_per_line font f in
      let first = draw_row font f font.width offs (font.bytes glyph) screen in
      let row = draw_row-Row font.width offs (font.bytes glyph) screen in
      let after = draw_glyph font f rows (glyph + line) (offs + f.pitch) first in
      let rest = draw_glyph-Drawn rows (glyph + line) (offs + f.pitch) first fits in
      let bit : (g i : ℕ) → ℕ = λ g i. colour (test_bit (font.bytes g) (font.width - 1 - i)) in
      let top : (i : ℕ) → i < font.width → after (pixel offs 0 i) ≡ bit (glyph + 0 * line) i =
        λ i low.
          rest.others (pixel offs 0 i) (λ j i' few low' e. omega arith)
          ∙ ap first (omega arith)
          ∙ row.drawn i low
          ∙ ap (λ g. bit g i) (omega arith) in
      let lower : (j i : ℕ)
          → j < rows
          → i < font.width
          → after (pixel offs (suc j) i) ≡ bit (glyph + suc j * line) i =
        λ j i few low.
          ap after (sym (below offs j i))
          ∙ rest.pixels j i few low
          ∙ ap (λ g. bit g i) (omega (arith, suc-mul j line)) in
      record {
        pixels = λ j.
            elim j
              as (λ z.
                (i : ℕ)
                → z < suc rows
                → i < font.width
                → after (pixel offs z i) ≡ bit (glyph + z * line) i) [
                  | zero ↦ λ i few low. top i low
                  | suc j' ↦ λ i few low. lower j' i (omega arith) low
                ];
        others = λ a away.
            rest.others a (λ j i few low e. away (suc j) i (omega arith) low (e ∙ below offs j i))
            ∙ row.others a (λ i low e. away 0 i (omega arith) low (e ∙ omega arith));
      }
