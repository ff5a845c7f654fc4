-- ===== src/Console/Input.antt =====
-- kern/console.c: the input buffer, serial_proc_data, cons_intr, and the take from the buffer at the
-- end of cons_getc. The keyboard's own decoding is in Keyboard.
use jos_smp.Base.{
  ℕ, zero, suc, ◌+◌, ◌%◌, Bool, not, List, Option, none, some, ◌==◌, set, get_or, if◌then◌else◌,
}
use jos_smp.Console.Io.{Io, bit}

-- CONSBUFSIZE
abbrev pub cons_buf_size : ℕ
cons_buf_size = 512

-- `cons`
pub record Cons : Type 0 where
  pub buf : List ℕ
  pub rpos : ℕ
  pub wpos : ℕ

-- `if (pos == CONSBUFSIZE) pos = 0;` behind `pos++`.
abbrev pub advance : ℕ → ℕ
advance pos = if pos + 1 == cons_buf_size then 0 else pos + 1

-- `cons.buf[cons.wpos++] = c;` and the wrap. The cell is a byte.
unfoldable pub stash : ℕ → Cons → Cons
stash c s = record s { buf = set s.buf s.wpos (c % 256); wpos = advance s.wpos }

-- The end of cons_getc: the next character, or 0 if none waits.
unfoldable pub take_char : Cons → ℕ × Cons
take_char s =
    if s.rpos == s.wpos then (0, s) else (get_or s.buf s.rpos 0, record s { rpos = advance s.rpos })

-- `cons_intr(proc)` on fuel: `proc` returns a character or, as `none`, -1. The result is the
-- buffer and the device state, or `none` if the fuel runs out.
unfoldable pub cons_intr : {D : Type 0} → ℕ → (D → Option ℕ × D) → Cons → D → Option (Cons × D)
cons_intr zero proc s d = none
cons_intr (suc fuel) proc s d =
    let (r, d') = proc d in
    elim r [
      | none ↦ some (s, d')
      | some c ↦ cons_intr fuel proc (if c == 0 then s else stash c s) d'
    ]

-- COM1 + COM_LSR is 0x3FD, whose bit 0 is COM_LSR_DATA; COM1 + COM_RX is 0x3F8.
unfoldable pub serial_proc_data : {W : Type 0} → Io W → W → Option ℕ × W
serial_proc_data io w =
    let (lsr, w1) = io.inb 0x3fd w in
    let (c, w2) = io.inb 0x3f8 w1 in if not (bit lsr 0) then (none, w1) else (some c, w2)

unfoldable pub serial_intr : {W : Type 0} → ℕ → Io W → Bool → Cons → W → Option (Cons × W)
serial_intr fuel io serial_exists s w =
    if serial_exists then cons_intr fuel (serial_proc_data io) s w else some (s, w)
