-- ===== src/Init/Tests.antt =====
-- kern/init.c: runs of test_backtrace and _panic, and the theorems at an input.
use jos_smp.Base.{
  ℕ, false, replicate, ◌==◌, if◌then◌else◌, ◌≡◌, refl, none, some, List, [], ◌∷◌, ◌++◌, codes,
}
use jos_smp.Base.Int.{pos}
use jos_smp.Init.{test_backtrace, panic_message, panic, warn, monitors}
use jos_smp.Monitor.Command.{Kernel, replied, mon_backtrace}
use jos_smp.Printfmt.Format.{Args, done, out_of_fuel, int, str}
use jos_smp.Init.Panic.{reported, panic-displayed}
use jos_smp.Kdebug.Eip.{Eipdebuginfo, initial}
use jos_smp.Console.Output.{Screen, put_all}
use jos_smp.Console.Ring
use jos_smp.Console.Screen
use jos_smp.CString.Defs.{strnlen}
use jos_smp.Init.{Statics}
use jos_smp.Printfmt.Format.{scan, flag_step, getint, getuint}
use jos_smp.Printfmt.Number.{printnum}
use jos_smp.Printfmt.Print.{
  literal, vprintfmt, after, convert, print_string, string_loop, left_pad, print_signed,
  print_number,
}
use jos_smp.Terminal.Devices.{Terminal, console}
use jos_smp.Terminal.Displayed.{formatted}
use jos_smp.Terminal.Machine.{Adapter, powered_on, ports}
use jos_smp.Tty.{Tty}

-- A console that keeps the arguments of each call of cprintf.
abbrev recorder : Tty (List Args)
recorder = record {
  getchar = λ s. out_of_fuel;
  cputchar = λ c s. s;
  cprintf = λ fmt args s. done (0, s ++ args ∷ []);
}

-- A call chain without frames.
abbrev kernel : Kernel
kernel = record {
  start = 0x10000c;
  etext = 0xf0101000;
  edata = 0xf0102000;
  end = 0xf0103000;
  word_at = λ a. 0;
  ebp = 0;
  stabs = [];
  stabstr = [];
}

nested :
    test_backtrace recorder 1 kernel 1 []
    ≡ done (replied (pos 0) ((int 1 ∷ []) ∷ (int 0 ∷ []) ∷ (int 0 ∷ []) ∷ (int 1 ∷ []) ∷ []))
unfolding test_backtrace mon_backtrace
nested = refl

-- The first panic prints; one inside of it does not.
panic_once :
    (panic_message recorder (codes "a.c") 7 (codes "no") [] (none, [])
      ≡ done (some (codes "no"), (str (some (codes "a.c")) ∷ int 7 ∷ []) ∷ [] ∷ [] ∷ []))
    × (panic_message recorder (codes "b.c") 8 (codes "again") [] (some (codes "no"), [])
        ≡ done (some (codes "no"), []))
unfolding panic_message
panic_once = (refl, refl)

-- A kernel with 4096 bytes to clear, and one frame, whose function is not known.
abbrev one_frame : Kernel
one_frame = record kernel {
  ebp = 0xf0110000;
  word_at = λ (a : ℕ). if a == 0xf0110000 then 0 else 0xf0100040;
}

abbrev unknown : ℕ → Eipdebuginfo
unknown e = initial 0xf0100040

abbrev place_and_message : List ℕ
place_and_message = codes "a.c:7: no\n"

panic-formatted :
    (formatted 40 (reported "kernel panic at %s:%d: " (literal "a.c") 7 (literal "no") [])
      ≡ done (codes "kernel panic at " ++ place_and_message))
    × (formatted 40 (reported "kernel warning at %s:%d: " (literal "a.c") 7 (literal "no") [])
        ≡ done (codes "kernel warning at " ++ place_and_message))
unfolding vprintfmt after convert print_string string_loop left_pad print_signed print_number scan
    flag_step getint getuint printnum strnlen
panic-formatted = (refl, refl)

abbrev at_start : Terminal Adapter
at_start = record {
  cons = record { buf = replicate {A = ℕ} 512 0; rpos = 0; wpos = 0 };
  shift = 0;
  screen = record {
    crt_buf = replicate {A = ℕ} 2000 0;
    crt_pos = 80;
    addr_6845 = 0x3d4;
    world = powered_on;
  };
  serial_exists = false;
}

abbrev panicked_at : List ℕ → Terminal Adapter
panicked_at o = record at_start { screen = put_all ports o at_start.screen }

panic-displayed_example :
    (panic_message (console ports 1 40) (literal "a.c") 7 (literal "no") [] (none, at_start)
      ≡ done (some (literal "no"), panicked_at (codes "kernel panic at " ++ place_and_message)))
    × (panic
          (console ports 1 40)
          9
          8
          40
          one_frame
          []
          (literal "a.c")
          7
          (literal "no")
          []
          (none, at_start)
        ≡ monitors
            (console ports 1 40)
            9
            8
            40
            one_frame
            []
            (panicked_at (codes "kernel panic at " ++ place_and_message)))
    × (panic_message
          (console ports 1 40)
          (literal "a.c")
          7
          (literal "no")
          []
          (some (literal "b"), at_start)
        ≡ done (some (literal "b"), at_start))
    × (panic
          (console ports 1 40)
          9
          8
          40
          one_frame
          []
          (literal "a.c")
          7
          (literal "no")
          []
          (some (literal "b"), at_start)
        ≡ monitors (console ports 1 40) 9 8 40 one_frame [] at_start)
    × (warn (console ports 1 40) (literal "a.c") 7 (literal "no") [] at_start
        ≡ done (panicked_at (codes "kernel warning at " ++ place_and_message)))
panic-displayed_example =
    panic-displayed ports 1 40 9 8 one_frame [] (literal "a.c") 7 (literal "no") [] (literal "b")
      at_start (codes "kernel panic at " ++ place_and_message)
      (codes "kernel warning at " ++ place_and_message) panic-formatted.0 panic-formatted.1

abbrev frame_lines : List ℕ
frame_lines =
    codes "ebp f0110000 eip f0100040 args f0100040 f0100040 f0100040 f0100040 f0100040\n"
    ++ codes "\t<unknown>:0: <unknown>+0\n"

abbrev statics : Statics
statics = record { cons_at = 0xf0102800; shift_at = 0xf0102ffc }
