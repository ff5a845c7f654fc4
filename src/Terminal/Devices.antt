-- ===== src/Terminal/Devices.antt =====
-- kern/console.c: cons_init, cons_getc and getchar, which use every part of the console.
use Prim.Native.Nat.{bit_or}
use jos_smp.Base.{
  ℕ, zero, suc, ◌+◌, ◌*◌, ◌%◌, ◌^◌, Bool, not, List, Option, none, some, [], ◌==◌, if◌then◌else◌,
}
use jos_smp.Base.Int.{ℤ, pos}
use jos_smp.Console.Io.{Io}
use jos_smp.Console.Input.{Cons, take_char, serial_intr}
use jos_smp.Console.Output.{Screen, cputchar}
use jos_smp.Cprintf.{cprintf}
use jos_smp.Keyboard.Decode.{kbd_intr}
use jos_smp.Printfmt.Format.{Run, done, out_of_fuel, ◌>>=◌}
use jos_smp.Printfmt.Print.{literal}
use jos_smp.Tty.{Tty}

-- The memory of the display adapter, which is not part of the program: a cell's value, a write to
-- it, and the cells from an address on.
pub record Video (W : Type 0) : Type 0 where
  pub peek : ℕ → W → ℕ
  pub poke : ℕ → ℕ → W → W
  pub cells : ℕ → W → List ℕ

-- The variables of kern/console.c: `cons`, the `shift` of kbd_proc_data, those of the display with
-- the devices, and `serial_exists`.
pub record Terminal (W : Type 0) : Type 0 where
  pub cons : Cons
  pub shift : ℕ
  pub screen : Screen W
  pub serial_exists : Bool

-- `of_fuel`: a loop that the fuel did not end.
abbrev pub of_fuel : {A : Type 0} → Option A → Run A
of_fuel none = out_of_fuel
of_fuel (some a) = done a

module _ {W : Type 0} (io : Io W) where
  -- COM1 is 0x3F8. The result is `serial_exists`.
  unfoldable pub serial_init : W → Bool × W
  serial_init w =
      let w1 = io.outb 0x3fa 0 w in
      let w2 = io.outb 0x3fb 0x80 w1 in
      let w3 = io.outb 0x3f8 12 w2 in
      let w4 = io.outb 0x3f9 0 w3 in
      let w5 = io.outb 0x3fb 0x03 w4 in
      let w6 = io.outb 0x3fc 0 w5 in
      let (lsr, w7) = io.inb 0x3fd (io.outb 0x3f9 0x01 w6) in
      (not (lsr == 0xff), (io.inb 0x3f8 (io.inb 0x3fa w7).1).1)

  -- The cursor's place, from the display's registers.
  unfoldable pub cursor : ℕ → W → ℕ × W
  cursor addr_6845 w =
      let (high, w1) = io.inb (addr_6845 + 1) (io.outb addr_6845 14 w) in
      let (low, w2) = io.inb (addr_6845 + 1) (io.outb addr_6845 15 w1) in
      (bit_or (high * 2 ^ 8) low % 2 ^ 16, w2)

  -- A color display has a cell at KERNBASE + CGA_BUF that keeps what is written; where there is none,
  -- the display is a monochrome one. Its memory is then at KERNBASE + MONO_BUF.
  unfoldable pub cga_init : Video W → W → Screen W
  unfolding cursor
  cga_init video w =
      let w1 = video.poke 0xf00b8000 0xa55a w in
      let is_color = video.peek 0xf00b8000 w1 == 0xa55a in
      let addr = if is_color then 0x3d4 else 0x3b4 in
      let cp = if is_color then 0xf00b8000 else 0xf00b0000 in
      let w2 = if is_color then video.poke 0xf00b8000 (video.peek 0xf00b8000 w) w1 else w1 in
      let (place, w3) = cursor addr w2 in
      record { crt_buf = video.cells cp w3; crt_pos = place; addr_6845 = addr; world = w3 }

  -- kbd_init does nothing. The message has 28 characters, so 40 units of fuel print it.
  unfoldable pub cons_init : Video W → Cons → ℕ → W → Run (Terminal W)
  cons_init video cons shift w =
      let s = cga_init video w in
      let (exists, w1) = serial_init s.world in
      let t : Terminal W = record {
        cons = cons;
        shift = shift;
        screen = record s { world = w1 };
        serial_exists = exists;
      } in
      let warned =
        cprintf io 40 (literal "Serial port does not exist!\n") [] t.screen
        >>= (λ (r : ℕ × Screen W). done (record t { screen = r.1 })) in
      if not exists then warned else done t

  -- `fuel` is for cons_intr.
  unfoldable pub cons_getc : ℕ → Terminal W → Run (ℕ × Terminal W)
  cons_getc fuel t =
      of_fuel (serial_intr fuel io t.serial_exists t.cons t.screen.world)
      >>= (λ (r : Cons × W).
          of_fuel (kbd_intr io fuel r.0 (t.shift, record t.screen { world = r.1 })))
      >>= (λ (r : Cons × (ℕ × Screen W)).
          let (c, cons) = take_char r.0 in
          done (c, record t { cons = cons; shift = r.1.0; screen = r.1.1 }))

  -- `while ((c = cons_getc()) == 0)`, on fuel.
  unfoldable pub getchar : ℕ → ℕ → Terminal W → Run (ℤ × Terminal W)
  unfolding cons_getc
  getchar zero fuel t = out_of_fuel
  getchar (suc polls) fuel t = cons_getc fuel t >>= (λ (r : ℕ × Terminal W).
      let again = getchar polls fuel r.1 in if r.0 == 0 then again else done (pos r.0, r.1))

  -- The console as lib/readline.c, kern/monitor.c and kern/init.c use it.
  unfoldable pub console : ℕ → ℕ → Tty (Terminal W)
  console polls fuel = record {
    getchar = getchar polls fuel;
    cputchar = λ c t. record t { screen = cputchar io c t.screen };
    cprintf = λ fmt args t.
        cprintf io fuel fmt args t.screen
        >>= (λ (r : ℕ × Screen W). done (r.0, record t { screen = r.1 }));
  }
