-- ===== src/Keyboard/Decode.antt =====
-- kern/console.c: kbd_proc_data and kbd_intr. `decode` is what happens to a byte from the keyboard;
-- the state is `shift` and the screen, on which a reboot prints.
use Prim.Native.Nat.{bit_and, bit_or, bit_xor}
use jos_smp.Base.{
  ℕ, ◌+◌, ◌-◌, ◌%◌, Bool, not, ◌&&◌, Option, none, some, [], ◌==◌, leb, if◌then◌else◌,
}
use jos_smp.Console.Io.{Io, bit}
use jos_smp.Console.Input.{Cons, cons_intr}
use jos_smp.Console.Output.{Screen}
use jos_smp.Cprintf.{cprintf}
use jos_smp.Keyboard.Keys.{kbstatp, kbs_dib, kbdatap}
use jos_smp.Keyboard.Keymap.{shiftcode, togglecode, charcode}
use jos_smp.Printfmt.Format.{done, fault, out_of_fuel}
use jos_smp.Printfmt.Print.{literal}

-- `x & ~y`
abbrev pub clear : ℕ → ℕ → ℕ
clear x y = x - bit_and x y

-- A key released: `d` is its code, without the top bit unless an escape came before.
unfoldable pub release : ℕ → ℕ → ℕ
release byte shift =
    let d = if bit shift 6 then byte else byte % 128 in clear shift (bit_or (shiftcode d) 0x40)

-- `shift |= shiftcode[data]; shift ^= togglecode[data];`
unfoldable pub press : ℕ → ℕ → ℕ
press d shift = bit_xor (bit_or shift (shiftcode d)) (togglecode d)

-- What CAPSLOCK does to a character.
unfoldable pub caps : ℕ → ℕ → ℕ
caps shift c =
    if not (bit shift 3)
    then c
    else if leb b'a' c && leb c b'z'
    then c - 32
    else if leb b'A' c && leb c b'Z'
    then c + 32
    else c

-- The character (0 where none is finished) and the new `shift`.
unfoldable pub decode : ℕ → ℕ → ℕ × ℕ
unfolding release press caps
decode byte shift =
    if byte == 0xe0
    then (0, bit_or shift 0x40)
    else if bit byte 7
    then (0, release byte shift)
    else (let d = if bit shift 6 then byte + 128 else byte in
        let shift' = press d (clear shift 0x40) in (caps shift' (charcode (shift' % 4) d), shift'))

-- Ctrl-Alt-Del
abbrev pub reboots : ℕ → ℕ → Bool
reboots shift c = bit shift 1 && bit shift 2 && (c == 0xe9)

module _ {W : Type 0} (io : Io W) where
  -- The message has 11 characters and no escape, so 20 units of fuel print it.
  unfoldable pub reboot : Screen W → Screen W
  reboot s =
      let s' : Screen W = elim (cprintf io 20 (literal "Rebooting!\n") [] s) [
        | done r ↦ r.1
        | fault ↦ s
        | out_of_fuel ↦ s
      ] in
      record s' { world = io.outb 0x92 0x3 s'.world }

  unfoldable pub kbd_proc_data : ℕ × Screen W → Option ℕ × (ℕ × Screen W)
  unfolding decode reboot
  kbd_proc_data (shift, s) =
      let (status, w1) = io.inb kbstatp s.world in
      let (byte, w2) = io.inb kbdatap w1 in
      let (c, shift') = decode byte shift in
      let s' = record s { world = w2 } in
      if bit_and status kbs_dib == 0
      then (none, (shift, record s { world = w1 }))
      else (some c, (shift', if reboots shift' c then reboot s' else s'))

  unfoldable pub kbd_intr : ℕ → Cons → ℕ × Screen W → Option (Cons × (ℕ × Screen W))
  unfolding kbd_proc_data
  kbd_intr fuel cons d = cons_intr fuel kbd_proc_data cons d
