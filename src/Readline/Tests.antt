-- ===== src/Readline/Tests.antt =====
-- lib/readline.c: edited lines, and the theorem at an input.
use jos_smp.Base.{
  ℕ, ◌≡◌, refl, arith, none, [], ◌∷◌, inl, codes, replicate, length-replicate, false,
}
use jos_smp.Console.Input.{cons_intr, serial_intr, take_char}
use jos_smp.Keyboard.Decode.{kbd_proc_data, kbd_intr}
use jos_smp.Terminal.Devices.{Terminal, console, cons_getc, getchar}
use jos_smp.Terminal.Machine.{Adapter, powered_on, ports}
use jos_smp.Base.Int.{pos}
use jos_smp.Printfmt.Format.{done}
use jos_smp.Tty.{Tty}
use jos_smp.Readline.{readline}
use jos_smp.Readline.Edit.{edited, echoed}
use jos_smp.Readline.Echo.{Typed, Ends, readline-edited}

-- A character taken back, and a delete in an empty line, which is put into the line.
taken : edited [] (b'k' ∷ b'a' ∷ 8 ∷ b'e' ∷ []) ≡ codes "ke"
unfolding edited
taken = refl

delete_kept : edited [] (0x7f ∷ b'a' ∷ []) ≡ 0x7f ∷ b'a' ∷ []
unfolding edited
delete_kept = refl

-- The kernel's console with `a`, a backspace and a line end in its buffer.
abbrev typed_ahead : Terminal Adapter
typed_ahead = record {
  cons = record { buf = b'a' ∷ 8 ∷ 10 ∷ replicate 509 0; rpos = 0; wpos = 3 };
  shift = 0;
  screen = record {
    crt_buf = replicate 2000 0x0720;
    crt_pos = 0;
    addr_6845 = 0x3d4;
    world = powered_on;
  };
  serial_exists = false;
}

abbrev jos : Tty (Terminal Adapter)
jos = console ports 1 9

-- The next character is read.
abbrev next : ℕ → Terminal Adapter → Terminal Adapter
next n t = record t { cons = record typed_ahead.cons { rpos = n } }

abbrev after_a : Terminal Adapter
after_a = jos.cputchar b'a' (next 1 typed_ahead)

abbrev after_back : Terminal Adapter
after_back = jos.cputchar 8 (next 2 after_a)

read_a : jos.getchar typed_ahead ≡ done (pos b'a', next 1 typed_ahead)
unfolding console getchar cons_getc kbd_intr serial_intr kbd_proc_data cons_intr take_char
read_a = refl

read_back : jos.getchar after_a ≡ done (pos 8, next 2 after_a)
unfolding console getchar cons_getc kbd_intr serial_intr kbd_proc_data cons_intr take_char
read_back = refl

read_end : jos.getchar after_back ≡ done (pos 10, next 3 after_back)
unfolding console getchar cons_getc kbd_intr serial_intr kbd_proc_data cons_intr take_char
read_end = refl

readline-edited_example :
    Ends jos []
      (jos.cputchar 10 (next 3 after_back))
      (readline jos 3 none (replicate 1024 0) typed_ahead)
unfolding Typed edited echoed
readline-edited_example =
    readline-edited jos 3 10 (b'a' ∷ 8 ∷ []) (replicate 1024 0) typed_ahead after_back
      (next 3 after_back) (next 1 typed_ahead, read_a, (next 2 after_a, read_back, refl)) read_end
      (inl refl) (omega arith) (omega arith) (length-replicate {A = ℕ} 1024 0)
