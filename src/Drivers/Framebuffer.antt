-- ===== src/Drivers/Framebuffer.antt =====
-- drivers/framebuffer/framebuffer.c: the screen, set up by a call through the mailbox, and text on it
-- in the font of the build, which is a parameter. `Framebuffer.Glyph` proves what a character draws.
pub mod Glyph
use demos_os.Base.{
  ℕ, zero, suc, ◌+◌, ◌-◌, ◌*◌, ◌/◌, ◌%◌, ◌^◌, Bool, not, ◌&&◌, List, [], ◌∷◌, ltb, ◌==◌,
  if◌then◌else◌,
}
use demos_os.Base.Bits.{test_bit}
use demos_os.Base.Run.{Run, ok, ◌>>=◌}
use demos_os.Sched.{update}
use demos_os.Drivers.{Bus}
use demos_os.Drivers.Mailbox.{Mailbox, set_words, mbox_call, mbox_ch_prop}

-- `framebuffer_address` and the geometry.
pub record Framebuffer : Type 0 where
  pub address : ℕ
  pub width : ℕ
  pub height : ℕ
  pub pitch : ℕ
  pub isrgb : ℕ

-- `WIDTH`, `HEIGHT` and `DEPTH`
abbrev pub screen_width : ℕ
screen_width = 1024

abbrev pub screen_height : ℕ
screen_height = 768

abbrev pub screen_depth : ℕ
screen_depth = 32

-- The message: size, virtual size, virtual offset, depth, pixel order, allocation and pitch.
abbrev pub screen_request : List ℕ
screen_request =
    35 * 4
    ∷ 0
    ∷ 0x4_8003
    ∷ 8
    ∷ 8
    ∷ screen_width
    ∷ screen_height
    ∷ 0x4_8004
    ∷ 8
    ∷ 8
    ∷ screen_width
    ∷ screen_height
    ∷ 0x4_8009
    ∷ 8
    ∷ 8
    ∷ 0
    ∷ 0
    ∷ 0x4_8005
    ∷ 4
    ∷ 4
    ∷ screen_depth
    ∷ 0x4_8006
    ∷ 4
    ∷ 4
    ∷ 1
    ∷ 0x4_0001
    ∷ 8
    ∷ 8
    ∷ 4096
    ∷ 0
    ∷ 0x4_0008
    ∷ 4
    ∷ 4
    ∷ 0
    ∷ 0
    ∷ []

module _ {D : Type 0} (bus : Bus D) (mbox : Mailbox D) (polls : ℕ) where
  -- The address loses its two high bits, which name an alias of the memory.
  unfoldable pub framebuffer_init : Framebuffer → D → Run (Bool × Framebuffer × D)
  framebuffer_init f d =
      mbox_call bus mbox polls mbox_ch_prop (set_words bus mbox polls 0 screen_request d)
      >>= λ (answered, d').
          let at = λ (i : ℕ). mbox.get i d' in
          let found : Framebuffer = record {
            address = at 28 % 2 ^ 30;
            width = at 5;
            height = at 6;
            pitch = at 33;
            isrgb = at 24;
          } in
          let done = answered && at 20 == screen_depth && not (at 28 == 0) in
          ok (done, if done then found else f, d')

-- The header of the font, and its bytes from the start of the header on.
pub record Font : Type 0 where
  pub headersize : ℕ
  pub numglyph : ℕ
  pub bytesperglyph : ℕ
  pub height : ℕ
  pub width : ℕ
  pub bytes : ℕ → ℕ

-- The words of the screen by their addresses. White or black.
abbrev pub Screen : Type 0
Screen = ℕ → ℕ

abbrev pub colour : Bool → ℕ
colour bit = if bit then 0xff_ffff else 0

module _ (font : Font) (f : Framebuffer) where
  -- The offset of a character's glyph; one that the font does not have is drawn as glyph 0.
  abbrev pub glyph_of : ℕ → ℕ
  glyph_of c = font.headersize + (if ltb c font.numglyph then c else 0) * font.bytesperglyph

  abbrev pub bytes_per_line : ℕ
  bytes_per_line = (font.width + 7) / 8

  -- The last `columns` columns of a row, from the offset `line` on: the mask is bit `columns - 1`.
  -- Only the first byte of a row of the glyph is read.
  unfoldable pub draw_row : (columns line byte : ℕ) → Screen → Screen
  draw_row zero line byte screen = screen
  draw_row (suc columns) line byte screen =
      draw_row columns (line + 4) byte
        (update screen (f.address + line) (colour (test_bit byte columns)))

  -- The last `rows` rows of a glyph.
  unfoldable pub draw_glyph : (rows glyph offs : ℕ) → Screen → Screen
  draw_glyph zero glyph offs screen = screen
  draw_glyph (suc rows) glyph offs screen =
      draw_glyph rows (glyph + bytes_per_line) (offs + f.pitch)
        (draw_row font.width offs (font.bytes glyph) screen)

  -- `x` counts pixels and `y` lines of pixels; the positions stay in an `int`.
  unfoldable pub framebuffer_print : (x y : ℕ) → List ℕ → Screen → Screen
  framebuffer_print x y [] screen = screen
  framebuffer_print x y (c ∷ s) screen =
      let start = framebuffer_print 0 y s screen in
      let next_line = framebuffer_print 0 (y + font.height) s screen in
      let drawn = draw_glyph font.height (glyph_of c) (y * f.pitch + x * 4) screen in
      let next = framebuffer_print (x + (font.width + 1)) y s drawn in
      if c == 13 then start else if c == 10 then next_line else next
