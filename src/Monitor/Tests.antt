-- ===== src/Monitor/Tests.antt =====
-- kern/monitor.c: lines parsed and run, and the theorem at an input.
use jos_smp.Base.{ℕ, replicate, ◌≡◌, refl, arith, List, [], ◌∷◌, ◌++◌, codes, false}
use jos_smp.Base.Int.{pos}
use jos_smp.CString.Defs.{Bytes, strcmp}
use jos_smp.Kdebug.Eip.{initial}
use jos_smp.Printfmt.Format.{done, out_of_fuel}
use jos_smp.Tty.{Tty}
use jos_smp.Console.Output.{put_all}
use jos_smp.Monitor.Answers.{kerninfo_log}
use jos_smp.Monitor.Display.{runcmd-displayed}
use jos_smp.Printfmt.Format.{scan, flag_step, getint, getuint}
use jos_smp.Printfmt.Number.{printnum}
use jos_smp.Printfmt.Print.{vprintfmt, after, convert, print_signed, print_number}
use jos_smp.Terminal.Devices.{Terminal, console}
use jos_smp.Terminal.Displayed.{formatted}
use jos_smp.Terminal.Machine.{Adapter, powered_on, ports}
use jos_smp.Monitor.Parse.{parse, gobble, scan_word}
use jos_smp.Monitor.Words.{words_from}
use jos_smp.Monitor.Command.{Kernel, replied, runcmd, invoke, commands}
use jos_smp.Monitor.Dispatch.{interpret, perform, runcmd-perform}

-- A line with a tab before and two spaces between; the buffer goes on behind its end.
words_parsed :
    parse 9 0 0 (codes "\tab  c" ++ 0 ∷ 7 ∷ [])
    ≡ done (record {
      too_many = false;
      argv = 1 ∷ 5 ∷ [];
      buf = 0 ∷ b'a' ∷ b'b' ∷ 0 ∷ 0 ∷ b'c' ∷ 0 ∷ 7 ∷ [];
    })
unfolding parse gobble scan_word
words_parsed = refl

words_read : words_from [] (codes "\tab  c") ≡ codes "ab" ∷ codes "c" ∷ []
unfolding words_from
words_read = refl

-- A console that keeps the formats that are printed.
abbrev formats : Tty (List Bytes)
formats = record {
  getchar = λ s. out_of_fuel;
  cputchar = λ c s. s;
  cprintf = λ fmt args s. done (0, s ++ fmt ∷ []);
}

abbrev kernel : Kernel
kernel = record {
  start = 0xf010000c;
  etext = 0xf0101000;
  edata = 0xf0110000;
  end = 0xf0111000;
  word_at = λ a. 0;
  ebp = 0;
  stabs = [];
  stabstr = [];
}

unknown_printed :
    runcmd formats 9 kernel (codes " x" ++ 0 ∷ []) []
    ≡ done (replied (pos 0) ((codes "Unknown command '%s'\n" ++ 0 ∷ []) ∷ []))
unfolding runcmd invoke commands parse gobble scan_word strcmp
unknown_printed = refl

runcmd-perform_example :
    (rest : Bytes) × (runcmd formats 9 kernel (codes " help me" ++ 0 ∷ b'x' ∷ []) []
      ≡ perform formats 9 kernel (interpret (words_from [] (codes " help me"))) rest [])
runcmd-perform_example =
    runcmd-perform formats 9 kernel (codes " help me") (b'x' ∷ []) [] (omega arith)

abbrev kernel_symbols : List ℕ
kernel_symbols =
    codes "Special kernel symbols:\n"
    ++ codes "  _start f010000c (virt)  0010000c (phys)\n"
    ++ codes "  etext  f0101000 (virt)  00101000 (phys)\n"
    ++ codes "  edata  f0110000 (virt)  00110000 (phys)\n"
    ++ codes "  end    f0111000 (virt)  00111000 (phys)\n"
    ++ codes "Kernel executable memory footprint: 68KB\n"

symbols_formatted : formatted 50 (kerninfo_log kernel) ≡ done kernel_symbols
unfolding vprintfmt after convert print_number print_signed scan flag_step getuint getint printnum
symbols_formatted = refl

-- The console of a machine whose devices have nothing to say.
abbrev idle : Terminal Adapter
idle = record {
  cons = record { buf = replicate 512 0; rpos = 0; wpos = 0 };
  shift = 0;
  screen = record {
    crt_buf = replicate 2000 0x0720;
    crt_pos = 0;
    addr_6845 = 0x3d4;
    world = powered_on;
  };
  serial_exists = false;
}

runcmd-displayed_example :
    runcmd (console ports 1 50) 50 kernel (codes " kerninfo -v" ++ 0 ∷ []) idle
    ≡ done (replied (pos 0) (record idle { screen = put_all ports kernel_symbols idle.screen }))
unfolding interpret words_from
runcmd-displayed_example =
    runcmd-displayed 50 (omega arith) kernel (λ e. initial e) [] kernel_symbols [] symbols_formatted
      refl ports 1 (codes " kerninfo -v") [] idle (omega arith) (omega arith) refl tt
