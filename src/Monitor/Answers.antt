-- ===== src/Monitor/Answers.antt =====
-- kern/monitor.c: what a line makes the monitor print.
use Prim.Native.String.{String}
use jos_smp.Base.{ℕ, ◌+◌, ◌-◌, ◌/◌, ◌<◌, refl, some, List, [], ◌∷◌, ◌++◌, length}
use jos_smp.Base.Int.{pos}
use jos_smp.Base.Word.{sub32}
use jos_smp.CString.Defs.{Bytes}
use jos_smp.Kdebug.Eip.{Eipdebuginfo}
use jos_smp.Mmu.Layout.{kernbase}
use jos_smp.Monitor.Backtrace.{Chain, Known, backtrace_lines, print-Leads, mon_backtrace-Leads}
use jos_smp.Monitor.Command.{
  Kernel, replied, help, kerninfo, backtrace, print, mon_help, mon_kerninfo, help_lines, commands,
  run_command,
}
use jos_smp.Monitor.Dispatch.{Action, too_many, nothing, call, unknown, perform}
use jos_smp.Printfmt.Format.{Args, Run, done, ◌>>=◌, int, str}
use jos_smp.Printfmt.Print.{literal}
use jos_smp.Tty.{Tty, Speaks, Spoken-chain, Leads, AllFit}

abbrev pub help_log : List (Bytes × Args)
help_log =
    (
      literal "%s - %s\n",
      str (some (literal "help")) ∷ str (some (literal "Display this list of commands")) ∷ [],
    )
    ∷ (
      literal "%s - %s\n",
      str (some (literal "kerninfo"))
          ∷ str (some (literal "Display information about the kernel"))
          ∷ [],
    )
    ∷ (
      literal "%s - %s\n",
      str (some (literal "backtrace"))
          ∷ str (some (literal "Display a listing of function call frames"))
          ∷ [],
    )
    ∷ []

abbrev pub kerninfo_log : Kernel → List (Bytes × Args)
kerninfo_log k =
    (literal "Special kernel symbols:\n", [])
    ∷ (
      literal "  _start %08x (virt)  %08x (phys)\n",
      int k.start ∷ int (sub32 k.start kernbase) ∷ [],
    )
    ∷ (
      literal "  etext  %08x (virt)  %08x (phys)\n",
      int k.etext ∷ int (sub32 k.etext kernbase) ∷ [],
    )
    ∷ (
      literal "  edata  %08x (virt)  %08x (phys)\n",
      int k.edata ∷ int (sub32 k.edata kernbase) ∷ [],
    )
    ∷ (literal "  end    %08x (virt)  %08x (phys)\n", int k.end ∷ int (sub32 k.end kernbase) ∷ [])
    ∷ (
      literal "Kernel executable memory footprint: %dKB\n",
      int ((k.end - k.start + 1023) / 1024) ∷ [],
    )
    ∷ []

-- `rest` is what lies in the buffer behind an unknown word.
abbrev pub answer : Kernel → (ℕ → Eipdebuginfo) → List ℕ → Action → Bytes → List (Bytes × Args)
answer k info es too_many rest = (literal "Too many arguments (max %d)\n", int 16 ∷ []) ∷ []
answer k info es nothing rest = []
answer k info es (call help) rest = help_log
answer k info es (call kerninfo) rest = kerninfo_log k
answer k info es (call backtrace) rest = backtrace_lines k info es
answer k info es (unknown w) rest =
    (literal "Unknown command '%s'\n", str (some (w ++ 0 ∷ rest)) ∷ []) ∷ []

module _ {S : Type 0} (tty : Tty S) (Fits : Bytes × Args → Type 0)
    (Spoken : S → List (Bytes × Args) → S → Type 0) (speaks : Speaks tty Fits Spoken) where
  abbrev told :
      (fmt : String) (args : Args) (s : S)
      → Fits (literal fmt, args)
      → Leads Spoken (λ t. t) (print tty fmt args s) s ((literal fmt, args) ∷ [])
  told fmt args s fit = print-Leads tty Fits Spoken speaks fmt args s fit

  reply :
      (run : Run S) (s : S) (p : List (Bytes × Args))
      → Leads Spoken (λ t. t) run s p
      → Leads Spoken (replied (pos 0)) (run >>= (λ t. done (replied (pos 0) t))) s p
  reply run s p (s', e, said) = (s', rw e refl, said)

  mon_help-Leads :
      (s : S) → AllFit Fits help_log → Leads Spoken (replied (pos 0)) (mon_help tty s) s help_log
  unfolding mon_help help_lines commands
  mon_help-Leads s (f1, (f2, (f3, _))) =
      let (s1, e1, o1) =
        told "%s - %s\n"
          (str (some (literal "help")) ∷ str (some (literal "Display this list of commands")) ∷ [])
          s f1 in
      let (s2, e2, o2) =
        told "%s - %s\n"
          (str (some (literal "kerninfo"))
            ∷ str (some (literal "Display information about the kernel"))
            ∷ [])
          s1 f2 in
      let (s3, e3, o3) =
        told "%s - %s\n"
          (str (some (literal "backtrace"))
            ∷ str (some (literal "Display a listing of function call frames"))
            ∷ [])
          s2 f3 in
      (s3, rw (e1, e2, e3) refl, Spoken-chain tty Fits Spoken speaks _ _ _ s s1 s2 s3 o1 o2 o3)

  mon_kerninfo-Leads :
      (k : Kernel) (s : S)
      → AllFit Fits (kerninfo_log k)
      → Leads Spoken (replied (pos 0)) (mon_kerninfo tty k s) s (kerninfo_log k)
  unfolding mon_kerninfo
  mon_kerninfo-Leads k s (f1, (f2, (f3, (f4, (f5, (f6, _)))))) =
      let (s1, e1, o1) = told "Special kernel symbols:\n" [] s f1 in
      let (s2, e2, o2) =
        told "  _start %08x (virt)  %08x (phys)\n" (int k.start ∷ int (sub32 k.start kernbase) ∷ [])
          s1 f2 in
      let (s3, e3, o3) =
        told "  etext  %08x (virt)  %08x (phys)\n" (int k.etext ∷ int (sub32 k.etext kernbase) ∷ [])
          s2 f3 in
      let (s4, e4, o4) =
        told "  edata  %08x (virt)  %08x (phys)\n" (int k.edata ∷ int (sub32 k.edata kernbase) ∷ [])
          s3 f4 in
      let (s5, e5, o5) =
        told "  end    %08x (virt)  %08x (phys)\n" (int k.end ∷ int (sub32 k.end kernbase) ∷ []) s4
          f5 in
      let (s6, e6, o6) =
        told "Kernel executable memory footprint: %dKB\n"
          (int ((k.end - k.start + 1023) / 1024) ∷ []) s5 f6 in
      let first = Spoken-chain tty Fits Spoken speaks _ _ _ s s1 s2 s3 o1 o2 o3 in
      let last = Spoken-chain tty Fits Spoken speaks _ _ _ s3 s4 s5 s6 o4 o5 o6 in
      (
        s6,
        rw (e1, e2, e3, e4, e5, e6) refl,
        Spoken-chain tty Fits Spoken speaks _ _ [] s s3 s6 s6 first last (speaks.Spoken-nil s6),
      )

  pub perform-Leads :
      (k : Kernel) (info : ℕ → Eipdebuginfo) (es : List ℕ) (fuel : ℕ) (a : Action) (rest : Bytes)
      (s : S)
      → length es < fuel
      → Chain k k.ebp es
      → Known k info es
      → AllFit Fits (answer k info es a rest)
      → Leads Spoken (replied (pos 0)) (perform tty fuel k a rest s) s (answer k info es a rest)
  unfolding perform run_command
  perform-Leads k info es fuel too_many rest s f c i (fit, _) =
      reply _ s _ (told "Too many arguments (max %d)\n" (int 16 ∷ []) s fit)
  perform-Leads k info es fuel nothing rest s f c i all = (s, refl, speaks.Spoken-nil s)
  perform-Leads k info es fuel (call help) rest s f c i all = mon_help-Leads s all
  perform-Leads k info es fuel (call kerninfo) rest s f c i all = mon_kerninfo-Leads k s all
  perform-Leads k info es fuel (call backtrace) rest s f c i all =
      mon_backtrace-Leads tty Fits Spoken speaks es info fuel k s f c i all
  perform-Leads k info es fuel (unknown w) rest s f c i (fit, _) =
      reply _ s _ (told "Unknown command '%s'\n" (str (some (w ++ 0 ∷ rest)) ∷ []) s fit)
