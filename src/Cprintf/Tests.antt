-- ===== src/Cprintf/Tests.antt =====
-- kern/printf.c: the theorem at an input.
use jos_smp.Base.{ℕ, ◌≡◌, refl, arith, [], ◌∷◌, codes, replicate, length-replicate}
use jos_smp.Console.Io.{Io}
use jos_smp.Console.Output.{Screen, put_all}
use jos_smp.Console.Screen.{IsValid}
use jos_smp.Printfmt.Format.{int, done, scan, flag_step, getuint}
use jos_smp.Printfmt.Number.{printnum}
use jos_smp.Printfmt.Print.{literal, vprintfmt, after, convert, print_number}
use jos_smp.Cprintf.{cprintf, cprintf-put_all}

-- Every read returns 0xff, and the writes are dropped.
abbrev silent : Io (Unit {0})
silent = record { inb = λ p w. (0xff, w); outb = λ p v w. w }

abbrev screen : Screen (Unit {0})
screen = record { crt_buf = replicate 2000 0x0720; crt_pos = 0; addr_6845 = 0x3d4; world = tt }

octal_runs : vprintfmt 20 (literal "%o octal!\n") (int 6828 ∷ []) ≡ done (codes "15254 octal!\n")
unfolding vprintfmt after convert print_number scan flag_step getuint printnum
octal_runs = refl

-- The message is printed and the result is 0.
cprintf-put_all_example :
    (cprintf silent 20 (literal "%o octal!\n") (int 6828 ∷ []) screen
      ≡ done (0, put_all silent (codes "15254 octal!\n") screen))
    × IsValid (put_all silent (codes "15254 octal!\n") screen)
cprintf-put_all_example =
    cprintf-put_all silent 20 (literal "%o octal!\n") (int 6828 ∷ []) (codes "15254 octal!\n")
      screen octal_runs
      (record { size = length-replicate {A = ℕ} 2000 0x0720; cursor = omega arith })
