-- ===== src/Terminal/Tests.antt =====
-- kern/console.c: cons_getc with characters from the serial port and from the keyboard.
use jos_smp.Base.{
  ℕ, ◌≡◌, refl, arith, true, List, [], ◌∷◌, ◌==◌, replicate, length-replicate, if◌then◌else◌,
}
use jos_smp.Console.Io.{Io}
use jos_smp.Console.Input.{Cons, serial_proc_data}
use jos_smp.Console.Output.{Screen}
use jos_smp.Console.Screen
use jos_smp.Console.Ring.{IsValid, contents, pop, Delivers, character, finished}
use jos_smp.Keyboard.Decode.{decode, kbd_proc_data}
use jos_smp.Keyboard.Keymap.{shiftcode, togglecode, charcode}
use jos_smp.Printfmt.Format.{done}
use jos_smp.Terminal.Devices.{Terminal, cons_getc, getchar}
use jos_smp.Terminal.Getc.{cons_getc-pop}
use jos_smp.Terminal.Getchar.{Arrives, arrived, quiet, getchar-arrived}
use jos_smp.Base.Int.{pos}

abbrev any : List ℕ → ℕ
any [] = 0
any (c ∷ cs) = 1

abbrev first_of : List ℕ → ℕ
first_of [] = 0
first_of (c ∷ cs) = c

abbrev rest_of : List ℕ → List ℕ
rest_of [] = []
rest_of (c ∷ cs) = cs

-- What is left to come from the serial port and from the keyboard.
abbrev lines : Io (List ℕ × List ℕ)
lines = record {
  inb = λ p (w : List ℕ × List ℕ).
      if p == 0x3fd
      then (any w.0, w)
      else if p == 0x3f8
      then (first_of w.0, (rest_of w.0, w.1))
      else if p == 0x64
      then (any w.1, w)
      else (first_of w.1, (w.0, rest_of w.1));
  outb = λ p v w. w;
}

abbrev screen : List ℕ × List ℕ → Screen (List ℕ × List ℕ)
screen w = record { crt_buf = []; crt_pos = 0; addr_6845 = 0x3d4; world = w }

abbrev empty : Cons
empty = record { buf = replicate 512 0; rpos = 7; wpos = 7 }

empty-IsValid : IsValid empty
empty-IsValid = record {
  size = length-replicate {A = ℕ} 512 0;
  read_in = omega arith;
  write_in = omega arith;
}

-- From the serial port `x` and a zero, from the keyboard `a`, pressed and released.
abbrev waits : List ℕ × List ℕ
waits = (b'x' ∷ 0 ∷ [], 0x1e ∷ 0x9e ∷ [])

abbrev at_start : Terminal (List ℕ × List ℕ)
at_start = record { cons = empty; shift = 0; screen = screen waits; serial_exists = true }

from_serial : Delivers (serial_proc_data lines) waits (b'x' ∷ 0 ∷ []) ([], 0x1e ∷ 0x9e ∷ [])
unfolding serial_proc_data
from_serial = character b'x' refl (character 0 refl (finished refl))

from_keyboard :
    Delivers
      (kbd_proc_data lines)
      (0, screen ([], 0x1e ∷ 0x9e ∷ []))
      (b'a' ∷ 0 ∷ [])
      (0, screen ([], []))
unfolding kbd_proc_data decode shiftcode togglecode charcode
from_keyboard = character b'a' refl (character 0 refl (finished refl))

cons_getc-pop_example :
    (c : ℕ) × (cons : Cons) × (cons_getc lines 3 at_start
      ≡ done (c, record { cons = cons; shift = 0; screen = screen ([], []); serial_exists = true }))
    × IsValid cons
    × ((c, contents cons) ≡ pop (b'x' ∷ b'a' ∷ []))
cons_getc-pop_example =
    cons_getc-pop lines 3 at_start ([], 0x1e ∷ 0x9e ∷ []) 0 (screen ([], [])) (b'x' ∷ 0 ∷ [])
      (b'a' ∷ 0 ∷ []) from_serial from_keyboard (omega arith) (omega arith) empty-IsValid
      (omega arith)

-- Devices whose reads follow a script. In the first poll neither has anything; in the second the
-- serial port has `x`.
abbrev script : Io (List ℕ)
script = record { inb = λ p (w : List ℕ). (first_of w, rest_of w); outb = λ p v w. w }

abbrev played : List ℕ → Screen (List ℕ)
played w = record { crt_buf = []; crt_pos = 0; addr_6845 = 0x3d4; world = w }

abbrev idle : Terminal (List ℕ)
idle = record {
  cons = empty;
  shift = 0;
  screen = played (0 ∷ 0 ∷ 1 ∷ b'x' ∷ 0 ∷ 0 ∷ []);
  serial_exists = true;
}

second_poll :
    Arrives script 2 true 1 [] (0, played (0 ∷ 0 ∷ 1 ∷ b'x' ∷ 0 ∷ 0 ∷ [])) b'x' [] (0, played [])
unfolding serial_proc_data kbd_proc_data decode
second_poll =
    quiet
      (record {
        world = 0 ∷ 1 ∷ b'x' ∷ 0 ∷ 0 ∷ [];
        sends = finished refl;
        types = finished refl;
        few_cs = omega arith;
        few_ks = omega arith;
      })
      refl refl
      (arrived
        (record {
          world = 0 ∷ [];
          sends = character b'x' refl (finished refl);
          types = finished refl;
          few_cs = omega arith;
          few_ks = omega arith;
        })
        refl (omega arith) (omega arith))

getchar-arrived_example :
    (cons : Cons) × (getchar script 2 2 idle
      ≡ done (pos b'x', record idle { cons = cons; screen = played [] }))
    × IsValid cons
    × (contents cons ≡ [])
getchar-arrived_example =
    getchar-arrived script 2 2 1 b'x' idle [] (0, played []) second_poll (omega arith) empty-IsValid
