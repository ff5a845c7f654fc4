-- ===== src/Init/Panic.antt =====
-- kern/init.c: what _panic and _warn print.
use Prim.Native.String.{String}
use jos_smp.Base.{ℕ, ◌≡◌, refl, ◌∙◌, none, some, List, [], ◌∷◌, sym}
use jos_smp.CString.Defs.{Bytes}
use jos_smp.Console.Io.{Io}
use jos_smp.Console.Output.{put_all}
use jos_smp.Init.{report, warn, panic_message, panic, monitors}
use jos_smp.Monitor.Backtrace.{print-Leads}
use jos_smp.Monitor.Command.{Kernel}
use jos_smp.Printfmt.Format.{Args, done, int, str}
use jos_smp.Printfmt.Print.{literal}
use jos_smp.Printfmt.Runs.{done-same}
use jos_smp.Terminal.Devices.{Terminal, console}
use jos_smp.Terminal.Displayed.{formatted, Formats, Displayed, formatted-AllFit, console-Speaks}
use jos_smp.Tty.{Tty, Speaks, Spoken-chain, Leads, AllFit}

-- The heading with the place, the message, and the end of the line.
abbrev pub reported : String → Bytes → ℕ → Bytes → Args → List (Bytes × Args)
reported heading file line fmt args =
    (literal heading, str (some file) ∷ int line ∷ []) ∷ (fmt, args) ∷ (literal "\n", []) ∷ []

module _ {S : Type 0} (tty : Tty S) (Fits : Bytes × Args → Type 0)
    (Spoken : S → List (Bytes × Args) → S → Type 0) (speaks : Speaks tty Fits Spoken) where
  report-Leads :
      (heading : String) (file : Bytes) (line : ℕ) (fmt : Bytes) (args : Args) (s : S)
      → AllFit Fits (reported heading file line fmt args)
      → Leads Spoken
          (λ t. t)
          (report tty heading file line fmt args s)
          s
          (reported heading file line fmt args)
  unfolding report
  report-Leads heading file line fmt args s (f1, (f2, (f3, _))) =
      let (s1, e1, o1) =
        print-Leads tty Fits Spoken speaks heading (str (some file) ∷ int line ∷ []) s f1 in
      let (n, s2, e2, o2) = speaks.Spoken-cprintf fmt args s1 f2 in
      let (s3, e3, o3) = print-Leads tty Fits Spoken speaks "\n" [] s2 f3 in
      (s3, rw (e1, e2, e3) refl, Spoken-chain tty Fits Spoken speaks _ _ _ s s1 s2 s3 o1 o2 o3)

module _ {W : Type 0} (io : Io W) (polls steps : ℕ) where
  report-displayed :
      (heading : String) (file : Bytes) (line : ℕ) (fmt : Bytes) (args : Args) (t : Terminal W)
      (o : List ℕ)
      → formatted steps (reported heading file line fmt args) ≡ done o
      → report (console io polls steps) heading file line fmt args t
        ≡ done (record t { screen = put_all io o t.screen })
  report-displayed heading file line fmt args t o out =
      let (t', run, (p, e, same)) =
        report-Leads (console io polls steps) (Formats steps) (Displayed io polls steps)
          (console-Speaks io polls steps) heading file line fmt args t
          (formatted-AllFit steps (reported heading file line fmt args) o out) in
      let all : p ≡ o = done-same p o (sym e ∙ out) in run ∙ rw (same, all) refl

  -- Let the message, with its place before and a line end behind, print `o` as that of a panic and `p`
  -- as that of a warning. On the kernel's console, the first _panic prints `o`, keeps the message in
  -- `panicstr`, and goes on with the loop that runs the monitor; a _panic behind it, with `panicstr`
  -- set, prints nothing before that loop. _warn prints `p` and returns. Nothing of the console but the
  -- screen and the devices is changed.
  pub panic-displayed :
      (fuel rounds : ℕ) (k : Kernel) (buf file : Bytes) (line : ℕ) (fmt : Bytes) (args : Args)
      (first : Bytes) (t : Terminal W) (o p : List ℕ)
      → formatted steps (reported "kernel panic at %s:%d: " file line fmt args) ≡ done o
      → formatted steps (reported "kernel warning at %s:%d: " file line fmt args) ≡ done p
      → (panic_message (console io polls steps) file line fmt args (none, t)
          ≡ done (some fmt, record t { screen = put_all io o t.screen }))
        × (panic (console io polls steps) fuel rounds steps k buf file line fmt args (none, t)
            ≡ monitors
                (console io polls steps)
                fuel
                rounds
                steps
                k
                buf
                (record t { screen = put_all io o t.screen }))
        × (panic_message (console io polls steps) file line fmt args (some first, t)
            ≡ done (some first, t))
        × (panic (console io polls steps) fuel rounds steps k buf file line fmt args (some first, t)
            ≡ monitors (console io polls steps) fuel rounds steps k buf t)
        × (warn (console io polls steps) file line fmt args t
            ≡ done (record t { screen = put_all io p t.screen }))
  unfolding panic panic_message warn
  panic-displayed fuel rounds k buf file line fmt args first t o p out out' =
      let e = report-displayed "kernel panic at %s:%d: " file line fmt args t o out in
      (
        rw e refl,
        rw e refl,
        refl,
        refl,
        report-displayed "kernel warning at %s:%d: " file line fmt args t p out',
      )
