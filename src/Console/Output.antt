-- ===== src/Console/Output.antt =====
-- kern/console.c: delay, serial_putc, lpt_putc, cga_putc, cons_putc and cputchar.
use jos_smp.Base.{
  ℕ, zero, suc, ◌+◌, ◌-◌, ◌*◌, ◌/◌, ◌%◌, List, [], ◌∷◌, ◌++◌, ◌==◌, leb, ltb, set, take, drop,
  if◌then◌else◌,
}
use jos_smp.Console.Io.{Io, bit}

-- The screen of the text-mode display: `crt_buf` (CRT_SIZE cells), `crt_pos`, `addr_6845`, and the
-- devices behind the ports.
pub record Screen (W : Type 0) : Type 0 where
  pub crt_buf : List ℕ
  pub crt_pos : ℕ
  pub addr_6845 : ℕ
  pub world : W

abbrev pub crt_cols : ℕ
crt_cols = 80

-- CRT_ROWS * CRT_COLS
abbrev pub crt_size : ℕ
crt_size = 2000

-- One clear cell.
abbrev pub blank : ℕ
blank = 0x0720

-- `for (i = first; i < first + n; i++) crt_buf[i] = 0x0700 | ' ';`
unfoldable pub clear_cells : ℕ → ℕ → List ℕ → List ℕ
clear_cells zero first buf = buf
clear_cells (suc n) first buf = clear_cells n (first + 1) (set buf first blank)

-- The memmove of the cells from the second row on to the first, then the loop that clears the last.
unfoldable pub scroll : List ℕ → List ℕ
unfolding clear_cells
scroll buf =
    clear_cells crt_cols (crt_size - crt_cols)
      (take (crt_size - crt_cols) (drop crt_cols buf) ++ drop (crt_size - crt_cols) buf)

module _ {W : Type 0} (io : Io W) where
  unfoldable pub delay : W → W
  delay w = (io.inb 0x84 (io.inb 0x84 (io.inb 0x84 (io.inb 0x84 w).1).1).1).1

  -- `for (i = 0; !(inb(port) & (1 << k)) && i < 12800; i++) delay();`, on the rounds left.
  unfoldable pub wait_bit : ℕ → ℕ → ℕ → W → W
  wait_bit port k zero w = (io.inb port w).1
  wait_bit port k (suc n) w =
      let (v, w') = io.inb port w in
      let again = wait_bit port k n (delay w') in if bit v k then w' else again

  -- COM1 is 0x3F8: its line status at + 5 (bit 5 is COM_LSR_TXRDY), its transmit buffer at + 0.
  unfoldable pub serial_putc : ℕ → W → W
  serial_putc c w = io.outb 0x3f8 (c % 256) (wait_bit 0x3fd 5 12800 w)

  unfoldable pub lpt_putc : ℕ → W → W
  lpt_putc c w =
      io.outb 0x37a 0x08 (io.outb 0x37a 0x0d (io.outb 0x378 (c % 256) (wait_bit 0x379 7 12800 w)))

  -- "move that little blinky thing"
  unfoldable pub move_cursor : Screen W → Screen W
  move_cursor s = record s {
    world = io.outb (s.addr_6845 + 1) (s.crt_pos % 256) (
        io.outb s.addr_6845 15
          (io.outb (s.addr_6845 + 1) (s.crt_pos / 256 % 256) (io.outb s.addr_6845 14 s.world)));
  }

  -- `if (!(c & ~0xFF)) c |= 0x0700;`
  unfoldable pub attributed : ℕ → ℕ
  attributed c = if c / 256 == 0 then c + 0x0700 else c

  -- The switch, `crt_pos` and the cells being 16 bits wide; `tab` is what a tab does.
  unfoldable pub cga_switch : (Screen W → Screen W) → ℕ → Screen W → Screen W
  cga_switch tab c s =
      if c % 256 == 8
      then (if ltb 0 s.crt_pos
          then record s {
            crt_pos = (s.crt_pos + 65535) % 65536;
            crt_buf = set s.crt_buf ((s.crt_pos + 65535) % 65536) ((c / 256 * 256 + b' ') % 65536);
          }
          else s)
      else if c % 256 == 10
      then (let p = (s.crt_pos + crt_cols) % 65536 in record s { crt_pos = p - p % crt_cols })
      else if c % 256 == 13
      then record s { crt_pos = s.crt_pos - s.crt_pos % crt_cols }
      else if c % 256 == 9
      then tab s
      else record s {
        crt_buf = set s.crt_buf s.crt_pos (c % 65536);
        crt_pos = (s.crt_pos + 1) % 65536;
      }

  unfoldable pub scroll_if : Screen W → Screen W
  scroll_if s =
      if leb crt_size s.crt_pos
      then record s { crt_buf = scroll s.crt_buf; crt_pos = s.crt_pos - crt_cols }
      else s

  -- cga_putc, with the effect of a tab as a parameter.
  unfoldable pub cga_with : (Screen W → Screen W) → ℕ → Screen W → Screen W
  unfolding cga_switch scroll_if move_cursor attributed
  cga_with tab c s = move_cursor (scroll_if (cga_switch tab (attributed c) s))

  -- cons_putc, with the effect of a tab as a parameter.
  unfoldable pub cons_with : (Screen W → Screen W) → ℕ → Screen W → Screen W
  unfolding cga_with
  cons_with tab c s = cga_with tab c (record s { world = lpt_putc c (serial_putc c s.world) })

  -- `cons_putc(' ')`: a space takes no tab case, so that parameter does not matter here.
  unfoldable pub put_space : Screen W → Screen W
  unfolding cons_with
  put_space s = cons_with (λ t. t) b' ' s

  -- The tab case: five calls of `cons_putc(' ')`.
  unfoldable pub put_tab : Screen W → Screen W
  unfolding put_space
  put_tab s = put_space (put_space (put_space (put_space (put_space s))))

  unfoldable pub cga_putc : ℕ → Screen W → Screen W
  unfolding cga_with put_tab
  cga_putc c s = cga_with put_tab c s

  unfoldable pub cons_putc : ℕ → Screen W → Screen W
  unfolding cons_with put_tab
  cons_putc c s = cons_with put_tab c s

  unfoldable pub cputchar : ℕ → Screen W → Screen W
  unfolding cons_putc
  cputchar c s = cons_putc c s

  -- Characters one after the other.
  unfoldable pub put_all : List ℕ → Screen W → Screen W
  put_all [] s = s
  put_all (c ∷ o) s = put_all o (cputchar c s)
