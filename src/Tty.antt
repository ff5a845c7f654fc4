-- ===== src/Tty.antt =====
-- What lib/readline.c and kern/monitor.c call of the console: getchar and cputchar of kern/console.c
-- and cprintf of kern/printf.c, over the state `S` behind them.
use jos_smp.Base.{ℕ, ◌≡◌, List, [], ◌∷◌, ◌++◌}
use jos_smp.Base.Int.{ℤ}
use jos_smp.CString.Defs.{Bytes}
use jos_smp.Printfmt.Format.{Args, Run, done}

pub record Tty (S : Type 0) : Type 0 where
  pub getchar : S → Run (ℤ × S)
  pub cputchar : ℕ → S → S
  pub cprintf : Bytes → Args → S → Run (ℕ × S)

-- What cprintf does to the console: `Spoken s log s'` says that the calls `log` lead from `s` to `s'`,
-- and a call that `Fits` returns.
pub record Speaks {S : Type 0} (tty : Tty S) (Fits : Bytes × Args → Type 0)
    (Spoken : S → List (Bytes × Args) → S → Type 0) : Type 0 where
  pub Spoken-nil : (s : S) → Spoken s [] s
  pub Spoken-append :
      (p q : List (Bytes × Args)) (s s1 s2 : S)
      → Spoken s p s1
      → Spoken s1 q s2
      → Spoken s (p ++ q) s2
  pub Spoken-cprintf :
      (fmt : Bytes) (args : Args) (s : S)
      → Fits (fmt, args)
      → (n : ℕ) × (s' : S) × (tty.cprintf fmt args s ≡ done (n, s'))
        × Spoken s ((fmt, args) ∷ []) s'

abbrev pub AllFit : (Bytes × Args → Type 0) → List (Bytes × Args) → Type 0
AllFit Fits [] = Unit
AllFit Fits (c ∷ l) = Fits c × AllFit Fits l

pub AllFit-append :
    (Fits : Bytes × Args → Type 0) (p q : List (Bytes × Args))
    → AllFit Fits (p ++ q)
    → AllFit Fits p × AllFit Fits q
AllFit-append Fits [] q all = (tt, all)
AllFit-append Fits (c ∷ p) q (fit, all) =
    let (left, right) = AllFit-append Fits p q all in ((fit, left), right)

-- A run from `s` returns `f` of a state that `log` leads to.
abbrev pub Leads :
    {S A : Type 0}
    → (S → List (Bytes × Args) → S → Type 0)
    → (S → A)
    → Run A
    → S
    → List (Bytes × Args)
    → Type 0
Leads Spoken f run s log = (s' : _) × (run ≡ done (f s')) × Spoken s log s'

module _ {S : Type 0} (tty : Tty S) (Fits : Bytes × Args → Type 0)
    (Spoken : S → List (Bytes × Args) → S → Type 0) (speaks : Speaks tty Fits Spoken) where
  pub Spoken-chain :
      (p q r : List (Bytes × Args)) (s s1 s2 s3 : S)
      → Spoken s p s1
      → Spoken s1 q s2
      → Spoken s2 r s3
      → Spoken s (p ++ (q ++ r)) s3
  Spoken-chain p q r s s1 s2 s3 o1 o2 o3 =
      speaks.Spoken-append p (q ++ r) s s1 s3 o1 (speaks.Spoken-append q r s1 s2 s3 o2 o3)
