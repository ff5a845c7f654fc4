-- ===== src/Monitor/Backtrace.antt =====
-- kern/monitor.c: mon_backtrace prints every frame of the call chain, the innermost first.
use Prim.Native.String.{String}
use jos_smp.Base.{
  ℕ, zero, suc, ◌<◌, ◌≡◌, ◌≢◌, ◌⊎◌, inl, inr, refl, false, List, [], ◌∷◌, ◌==◌, length, some, arith,
}
use jos_smp.Base.Int.{pos}
use jos_smp.Base.Word.{add32, sub32}
use jos_smp.CString.Defs.{Bytes}
use jos_smp.Kdebug.Eip.{Eipdebuginfo, debuginfo_eip, found, missing}
use jos_smp.Monitor.Command.{Kernel, replied, print, print_frame, frames, mon_backtrace}
use jos_smp.Printfmt.Format.{Args, done, ◌>>=◌, int, str}
use jos_smp.Printfmt.Print.{literal}
use jos_smp.Tty.{Tty, Speaks, Spoken-chain, Leads, AllFit}

-- The frames of a call chain, each by its frame pointer: the word at a frame pointer is the next,
-- and a zero ends the chain.
abbrev pub Chain : Kernel → ℕ → List ℕ → Type 0
Chain k ebp [] = ebp ≡ 0
Chain k ebp (e ∷ es) = (ebp ≡ e) × (e ≢ 0) × Chain k (k.word_at e) es

-- debuginfo_eip returns, with a function or without one, `info` of each frame.
abbrev pub Known : Kernel → (ℕ → Eipdebuginfo) → List ℕ → Type 0
Known k info [] = Unit
Known k info (e ∷ es) =
    ((debuginfo_eip k.stabs k.stabstr (k.word_at (add32 e 4)) ≡ done (found (info e)))
      ⊎ (debuginfo_eip k.stabs k.stabstr (k.word_at (add32 e 4)) ≡ done (missing (info e))))
    × Known k info es

-- The two lines of a frame: the saved `eip` and five arguments above its frame pointer; the file,
-- the line, the function and how far `eip` is behind its start.
abbrev pub first_line : Kernel → ℕ → Bytes × Args
first_line k e = (
  literal "ebp %08x eip %08x args %08x %08x %08x %08x %08x\n",
  int e
      ∷ int (k.word_at (add32 e 4))
      ∷ int (k.word_at (add32 e 8))
      ∷ int (k.word_at (add32 e 12))
      ∷ int (k.word_at (add32 e 16))
      ∷ int (k.word_at (add32 e 20))
      ∷ int (k.word_at (add32 e 24))
      ∷ [],
)

abbrev pub second_line : ℕ → Eipdebuginfo → Bytes × Args
second_line eip i = (
  literal "\t%s:%d: %.*s+%d\n",
  str (some i.eip_file)
      ∷ int i.eip_line
      ∷ int i.eip_fn_namelen
      ∷ str (some i.eip_fn_name)
      ∷ int (sub32 eip i.eip_fn_addr)
      ∷ [],
)

abbrev pub backtrace_lines : Kernel → (ℕ → Eipdebuginfo) → List ℕ → List (Bytes × Args)
backtrace_lines k info [] = []
backtrace_lines k info (e ∷ es) =
    first_line k e ∷ second_line (k.word_at (add32 e 4)) (info e) ∷ backtrace_lines k info es

module _ {S : Type 0} (tty : Tty S) where
  -- One frame, and those behind it.
  frames_step :
      (i : Eipdebuginfo) (fuel : ℕ) (k : Kernel) (e : ℕ) (s : S)
      → e ≢ 0
      → (debuginfo_eip k.stabs k.stabstr (k.word_at (add32 e 4)) ≡ done (found i))
        ⊎ (debuginfo_eip k.stabs k.stabstr (k.word_at (add32 e 4)) ≡ done (missing i))
      → frames tty (suc fuel) k e s ≡ (
          print tty "ebp %08x eip %08x args %08x %08x %08x %08x %08x\n" (first_line k e).1 s
          >>= (λ s1.
              print_frame tty (k.word_at (add32 e 4)) i s1 >>= frames tty fuel k (k.word_at e)))
  unfolding frames
  frames_step i fuel k e s ne (inl known) =
      let go : (e == 0) ≡ false = ground arith in rw (go, known) refl
  frames_step i fuel k e s ne (inr known) =
      let go : (e == 0) ≡ false = ground arith in rw (go, known) refl

  frames_end :
      (fuel : ℕ) (k : Kernel) (ebp : ℕ) (s : S)
      → ebp ≡ 0
      → frames tty (suc fuel) k ebp s ≡ done (replied (pos 0) s)
  unfolding frames
  frames_end fuel k ebp s z = rw z refl

  module _ (Fits : Bytes × Args → Type 0) (Spoken : S → List (Bytes × Args) → S → Type 0)
      (speaks : Speaks tty Fits Spoken) where
    pub print-Leads :
        (fmt : String) (args : Args) (s : S)
        → Fits (literal fmt, args)
        → Leads Spoken (λ t. t) (print tty fmt args s) s ((literal fmt, args) ∷ [])
    print-Leads fmt args s fit =
        let (n, s', run, out) = speaks.Spoken-cprintf (literal fmt) args s fit in
        (s', rw run refl, out)

    print_frame-Leads :
        (eip : ℕ) (i : Eipdebuginfo) (s : S)
        → Fits (second_line eip i)
        → Leads Spoken (λ t. t) (print_frame tty eip i s) s (second_line eip i ∷ [])
    unfolding print_frame
    print_frame-Leads eip i s fit = print-Leads "\t%s:%d: %.*s+%d\n" (second_line eip i).1 s fit

    frames-Leads :
        (es : List ℕ) (info : ℕ → Eipdebuginfo) (fuel : ℕ) (k : Kernel) (ebp : ℕ) (s : S)
        → length es < fuel
        → Chain k ebp es
        → Known k info es
        → AllFit Fits (backtrace_lines k info es)
        → Leads Spoken (replied (pos 0)) (frames tty fuel k ebp s) s (backtrace_lines k info es)
    frames-Leads es info zero k ebp s f c i all = absurd (omega arith)
    frames-Leads [] info (suc fuel) k ebp s f c i all =
        (s, frames_end fuel k ebp s c, speaks.Spoken-nil s)
    frames-Leads (e ∷ es) info (suc fuel) k ebp s f (same, ne, chain) (known, more)
          (fit1, (fit2, all)) =
        let (s1, run1, out1) =
          print-Leads "ebp %08x eip %08x args %08x %08x %08x %08x %08x\n" (first_line k e).1 s
            fit1 in
        let (s2, run2, out2) = print_frame-Leads (k.word_at (add32 e 4)) (info e) s1 fit2 in
        let (s', run, out) =
          frames-Leads es info fuel k (k.word_at e) s2 (omega arith) chain more all in
        (
          s',
          rw (same, frames_step (info e) fuel k e s ne known, run1, run2) run,
          Spoken-chain tty Fits Spoken speaks (first_line k e ∷ [])
              (second_line (k.word_at (add32 e 4)) (info e) ∷ []) (backtrace_lines k info es) s s1
              s2 s' out1 out2 out,
        )

    -- Where the chain of frame pointers is finite, the fuel exceeds its length, debuginfo_eip returns
    -- for each saved `eip`, and cprintf returns for each line, mon_backtrace returns 0, and prints two
    -- lines for each frame, the innermost first, and nothing else.
    pub mon_backtrace-Leads :
        (es : List ℕ) (info : ℕ → Eipdebuginfo) (fuel : ℕ) (k : Kernel) (s : S)
        → length es < fuel
        → Chain k k.ebp es
        → Known k info es
        → AllFit Fits (backtrace_lines k info es)
        → Leads Spoken (replied (pos 0)) (mon_backtrace tty fuel k s) s (backtrace_lines k info es)
    unfolding mon_backtrace
    mon_backtrace-Leads es info fuel k s f c i all = frames-Leads es info fuel k k.ebp s f c i all
