-- ===== src/Terminal/Start.antt =====
-- kern/console.c: cons_init finds the display and leaves a valid console.

use jos_smp.Base.{
  ℕ, ◌+◌, ◌*◌, ◌^◌, ◌≤◌, ◌<◌, ◌≡◌, Bool, true, false, List, ◌==◌, codes, length, if◌then◌else◌,
}
use jos_smp.Console.Io.{Io}
use jos_smp.Console.Input.{Cons}
use jos_smp.Console.Output.{Screen}
use jos_smp.Terminal.Devices.{Terminal, Video, serial_init, cga_init}

-- Where the display's memory is, and its index port.
abbrev pub cells_at : Bool → ℕ
cells_at color = if color then 0xf00b8000 else 0xf00b0000

abbrev pub port_of : Bool → ℕ
port_of color = if color then 0x3d4 else 0x3b4

-- A display adapter. It has 2000 cells, which ports do not change. A write to its first port selects
-- one of its registers, which is then read at the second; of these, 14 and 15 are the two bytes of the
-- cursor's place, and selecting, reading any port and writing cells do not change them. The memory of a
-- color display keeps what is written; without one, there is no memory there.
pub record Display {W : Type 0} (io : Io W) (video : Video W) (color : Bool) : Type 0 where
  pub size : (w : W) → length (video.cells (cells_at color) w) ≡ 2000
  pub reg : ℕ → W → ℕ
  pub reg_bound : (i : ℕ) (w : W) → reg i w < 256
  pub reg-read :
      (i : ℕ) (w : W)
      → 14 ≤ i
      → i ≤ 15
      → (io.inb (port_of color + 1) (io.outb (port_of color) i w)).0 ≡ reg i w
  pub reg-select :
      (i j : ℕ) (w : W) → 14 ≤ j → j ≤ 15 → reg i (io.outb (port_of color) j w) ≡ reg i w
  pub reg-inb : (i p : ℕ) (w : W) → reg i (io.inb p w).1 ≡ reg i w
  pub reg-poke : (i a v : ℕ) (w : W) → reg i (video.poke a v w) ≡ reg i w
  pub cells-outb : (a p v : ℕ) (w : W) → video.cells a (io.outb p v w) ≡ video.cells a w
  pub cells-inb : (a p : ℕ) (w : W) → video.cells a (io.inb p w).1 ≡ video.cells a w
  pub detected :
      (w : W) → (video.peek 0xf00b8000 (video.poke 0xf00b8000 0xa55a w) == 0xa55a) ≡ color
  pub restored :
      (w : W)
      → video.cells 0xf00b8000
          (video.poke 0xf00b8000 (video.peek 0xf00b8000 w) (video.poke 0xf00b8000 0xa55a w))
        ≡ video.cells 0xf00b8000 w
  pub elsewhere :
      (v : ℕ) (w : W)
      → video.cells 0xf00b0000 (video.poke 0xf00b8000 v w) ≡ video.cells 0xf00b0000 w

abbrev warning : List ℕ
warning = codes "Serial port does not exist!\n"

module _ {W : Type 0} (io : Io W) (video : Video W) (color : Bool)
    (display : Display io video color) where
  -- The devices once the display is found.
  abbrev found : Bool → W → W
  found true w = video.poke 0xf00b8000 (video.peek 0xf00b8000 w) (video.poke 0xf00b8000 0xa55a w)
  found false w = video.poke 0xf00b8000 0xa55a w

  -- The place of the cursor, by its registers.
  abbrev pub place : W → ℕ
  place w = 2 ^ 8 * display.reg 14 w + display.reg 15 w

  module _ (cons : Cons) (shift : ℕ) (w : W) (on_screen : place w < 2000) where
    abbrev screen : Screen W
    screen = cga_init io video w

    abbrev serial : Bool × W
    serial = serial_init io screen.world
