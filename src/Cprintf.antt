-- ===== src/Cprintf.antt =====
-- kern/printf.c: putch, vcprintf and cprintf, over the console's screen.
mod Tests
use jos_smp.Base.{ℕ, zero, suc, ◌≡◌, refl, List, [], ◌∷◌, ap, ◌∙◌}
use jos_smp.CString.Defs.{Bytes}
use jos_smp.Console.Io.{Io}
use jos_smp.Console.Output.{Screen, cputchar, put_all}
use jos_smp.Console.Screen.{IsValid, put_all-IsValid}
use jos_smp.Printfmt.Format.{Args, Run, done, ◌>>=◌}
use jos_smp.Printfmt.Print.{vprintfmt}

-- The screen, the count, and how far the pointer `cnt` was moved from it.
pub record Count (W : Type 0) : Type 0 where
  pub screen : Screen W
  pub cnt : ℕ

module _ {W : Type 0} (io : Io W) where
  -- `*cnt++` moves putch's own copy of the pointer, and leaves the count that it points to.
  unfoldable pub putch : ℕ → Count W → Count W
  putch ch s = record s { screen = cputchar io ch s.screen }

  unfoldable pub putch_all : List ℕ → Count W → Count W
  putch_all [] s = s
  putch_all (ch ∷ o) s = putch_all o (putch ch s)

  unfoldable pub vcprintf : ℕ → Bytes → Args → Screen W → Run (ℕ × Screen W)
  unfolding putch_all
  vcprintf fuel fmt args s =
      vprintfmt fuel fmt args
      >>= (λ o. let r = putch_all o (record { screen = s; cnt = 0 }) in done (r.cnt, r.screen))

  unfoldable pub cprintf : ℕ → Bytes → Args → Screen W → Run (ℕ × Screen W)
  unfolding vcprintf
  cprintf fuel fmt args s = vcprintf fuel fmt args s

  putch_all-put_all :
      (o : List ℕ) (s : Count W) → putch_all o s ≡ record s { screen = put_all io o s.screen }
  unfolding putch_all putch put_all
  putch_all-put_all [] s = refl
  putch_all-put_all (ch ∷ o) s = putch_all-put_all o (putch ch s)

  pub cprintf-done :
      (fuel : ℕ) (fmt : Bytes) (args : Args) (o : List ℕ) (s : Screen W)
      → vprintfmt fuel fmt args ≡ done o
      → cprintf fuel fmt args s ≡ done (0, put_all io o s)
  unfolding cprintf
  cprintf-done fuel fmt args o s e = rw e (
      ap (λ (r : Count W). done (r.cnt, r.screen))
        (putch_all-put_all o (record { screen = s; cnt = 0 })))

  -- Where the formatting ends with an output, `cprintf` prints that output on the console and
  -- returns 0, however many characters it printed; a valid screen stays valid.
  pub cprintf-put_all :
      (fuel : ℕ) (fmt : Bytes) (args : Args) (o : List ℕ) (s : Screen W)
      → vprintfmt fuel fmt args ≡ done o
      → IsValid s
      → (cprintf fuel fmt args s ≡ done (0, put_all io o s)) × IsValid (put_all io o s)
  cprintf-put_all fuel fmt args o s e v =
      (cprintf-done fuel fmt args o s e, put_all-IsValid io o s v)
