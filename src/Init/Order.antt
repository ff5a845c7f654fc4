-- ===== src/Init/Order.antt =====
-- kern/init.c: the order in which test_backtrace prints.
use jos_smp.Base.{
  ℕ, zero, suc, ◌<◌, ◌≡◌, refl, ap, ◌∙◌, List, [], ◌∷◌, ◌++◌, length, append_assoc, subst,
}
use jos_smp.Base.Int.{pos}
use jos_smp.CString.Defs.{Bytes}
use jos_smp.Init.{test_backtrace, proceed, finish}
use jos_smp.Kdebug.Eip.{Eipdebuginfo}
use jos_smp.Monitor.Backtrace.{Chain, Known, backtrace_lines, print-Leads, mon_backtrace-Leads}
use jos_smp.Monitor.Command.{Kernel, replied, print, mon_backtrace}
use jos_smp.Printfmt.Format.{Args, ◌>>=◌, int}
use jos_smp.Printfmt.Print.{literal}
use jos_smp.Tty.{Tty, Speaks, Spoken-chain, Leads, AllFit, AllFit-append}

abbrev pub entering : ℕ → Bytes × Args
entering x = (literal "entering test_backtrace %d\n", int x ∷ [])

abbrev pub leaving : ℕ → Bytes × Args
leaving x = (literal "leaving test_backtrace %d\n", int x ∷ [])

-- From `x` down to 0, and from 0 up to `x`.
abbrev pub all_entering : ℕ → List (Bytes × Args)
all_entering zero = entering 0 ∷ []
all_entering (suc x) = entering (suc x) ∷ all_entering x

abbrev pub all_leaving : ℕ → List (Bytes × Args)
all_leaving zero = leaving 0 ∷ []
all_leaving (suc x) = all_leaving x ++ leaving (suc x) ∷ []

module _ {S : Type 0} (tty : Tty S) where
  test_backtrace_base :
      (fuel : ℕ) (k : Kernel) (s : S)
      → test_backtrace tty fuel k 0 s ≡ (
          print tty "entering test_backtrace %d\n" (int 0 ∷ []) s
          >>= mon_backtrace tty fuel k
          >>= proceed (λ s'. finish tty (print tty "leaving test_backtrace %d\n" (int 0 ∷ []) s')))
  unfolding test_backtrace
  test_backtrace_base fuel k s = refl

  test_backtrace_step :
      (fuel : ℕ) (k : Kernel) (x : ℕ) (s : S)
      → test_backtrace tty fuel k (suc x) s ≡ (
          print tty "entering test_backtrace %d\n" (int (suc x) ∷ []) s
          >>= test_backtrace tty fuel k x
          >>= proceed
              (λ s'. finish tty (print tty "leaving test_backtrace %d\n" (int (suc x) ∷ []) s')))
  unfolding test_backtrace
  test_backtrace_step fuel k x s = refl

module _ {S : Type 0} (tty : Tty S) (Fits : Bytes × Args → Type 0)
    (Spoken : S → List (Bytes × Args) → S → Type 0) (speaks : Speaks tty Fits Spoken) (es : List ℕ)
    (info : ℕ → Eipdebuginfo) (fuel : ℕ) (k : Kernel) (enough : length es < fuel)
    (chain : Chain k k.ebp es) (known : Known k info es)
    (all : AllFit Fits (backtrace_lines k info es)) where
  -- test_backtrace returns, and prints that it enters from `x` down to 0, then the backtrace once,
  -- then that it leaves from 0 up to `x`, and nothing else, where cprintf returns for each line.
  pub test_backtrace-Leads :
      (x : ℕ) (s : S)
      → AllFit Fits (all_entering x)
      → AllFit Fits (all_leaving x)
      → Leads Spoken
          (replied (pos 0))
          (test_backtrace tty fuel k x s)
          s
          (all_entering x ++ (backtrace_lines k info es ++ all_leaving x))
  test_backtrace-Leads zero s (fit, _) (fit', _) =
      let (s1, run1, out1) =
        print-Leads tty Fits Spoken speaks "entering test_backtrace %d\n" (int 0 ∷ []) s fit in
      let (s2, run2, out2) =
        mon_backtrace-Leads tty Fits Spoken speaks es info fuel k s1 enough chain known all in
      let (s3, run3, out3) =
        print-Leads tty Fits Spoken speaks "leaving test_backtrace %d\n" (int 0 ∷ []) s2 fit' in
      (
        s3,
        rw (test_backtrace_base tty fuel k s, run1, run2, run3) refl,
        Spoken-chain tty Fits Spoken speaks (entering 0 ∷ []) (backtrace_lines k info es)
            (leaving 0 ∷ []) s s1 s2 s3 out1 out2 out3,
      )
  test_backtrace-Leads (suc x) s (fit, enters) leaves =
      let (leaves', (fit', _)) = AllFit-append Fits (all_leaving x) (leaving (suc x) ∷ []) leaves in
      let (s1, run1, out1) =
        print-Leads tty Fits Spoken speaks "entering test_backtrace %d\n" (int (suc x) ∷ []) s
          fit in
      let (s2, run2, out2) = test_backtrace-Leads x s1 enters leaves' in
      let (s3, run3, out3) =
        print-Leads tty Fits Spoken speaks "leaving test_backtrace %d\n" (int (suc x) ∷ []) s2
          fit' in
      let inner = all_entering x ++ (backtrace_lines k info es ++ all_leaving x) in
      (
        s3,
        rw (test_backtrace_step tty fuel k x s, run1, run2, run3) refl,
        subst (λ l. Spoken s (entering (suc x) ∷ l) s3)
            (append_assoc (all_entering x) (backtrace_lines k info es ++ all_leaving x)
                (leaving (suc x) ∷ [])
              ∙ ap (λ l. all_entering x ++ l)
                  (append_assoc (backtrace_lines k info es) (all_leaving x) (leaving (suc x) ∷ [])))
            (Spoken-chain tty Fits Spoken speaks (entering (suc x) ∷ []) inner
              (leaving (suc x) ∷ []) s s1 s2 s3 out1 out2 out3),
      )
