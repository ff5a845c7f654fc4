-- ===== src/Monitor/Display.antt =====
-- kern/monitor.c on the console of kern/console.c: what a line leaves on the screen.
use jos_smp.Base.{
  ℕ, suc, ◌+◌, ◌-◌, ◌<◌, ◌≤◌, ◌≡◌, refl, ◌∙◌, List, [], ◌∷◌, ◌++◌, map, length, codes, some, arith,
  Bool-cases, inl, inr, ltb, append-nil, sym,
}
use jos_smp.Base.Int.{pos}
use jos_smp.CString.Defs.{Bytes, strnlen}
use jos_smp.CString.Scan.{IsText}
use jos_smp.Console.Io.{Io}
use jos_smp.Console.Output.{put_all}
use jos_smp.Kdebug.Eip.{Eipdebuginfo}
use jos_smp.Monitor.Answers.{answer, help_log, kerninfo_log, perform-Leads}
use jos_smp.Monitor.Backtrace.{Chain, Known, backtrace_lines}
use jos_smp.Monitor.Command.{Kernel, replied, help, kerninfo, backtrace, runcmd}
use jos_smp.Monitor.Dispatch.{
  Action, too_many, nothing, call, unknown, same_text, command_of, interpret, AllText,
  AllText-words_from, runcmd-perform,
}
use jos_smp.Monitor.Words.{words_from}
use jos_smp.Printfmt.Format.{Args, done, int, str, scan, flag_step, getint}
use jos_smp.Printfmt.Number.{printnum}
use jos_smp.Printfmt.Print.{
  literal, vprintfmt, after, convert, print_signed, print_number, print_string, string_loop,
  left_pad, sign_extend,
}
use jos_smp.Printfmt.Runs.{done-same}
use jos_smp.Printfmt.Strings.{vprintfmt_string, whole}
use jos_smp.Terminal.Devices.{Terminal, console}
use jos_smp.Terminal.Displayed.{
  thirty_more, thirty_more-sub, formatted, Formats, Displayed, formatted-AllFit, console-Speaks,
}

-- What a line shows, by what it asks for: `symbols` is what kerninfo prints, `lines` the backtrace.
abbrev pub shown : List ℕ → List ℕ → Action → List ℕ
shown symbols lines too_many = codes "Too many arguments (max 16)\n"
shown symbols lines nothing = []
shown symbols lines (call help) =
    codes "help - Display this list of commands\n"
    ++ codes "kerninfo - Display information about the kernel\n"
    ++ codes "backtrace - Display a listing of function call frames\n"
shown symbols lines (call kerninfo) = symbols
shown symbols lines (call backtrace) = lines
shown symbols lines (unknown w) = (codes "Unknown command '" ++ map sign_extend w) ++ codes "'\n"

-- An unknown word is text.
abbrev OfText : Action → Type 0
OfText too_many = Unit
OfText nothing = Unit
OfText (call c) = Unit
OfText (unknown w) = IsText w

command_of-OfText : (w : Bytes) → IsText w → OfText (command_of w)
command_of-OfText w is = elim (Bool-cases (same_text w (codes "help"))) [
  | inl y ↦ rw y tt
  | inr n1 ↦ elim (Bool-cases (same_text w (codes "kerninfo"))) [
    | inl y ↦ rw (n1, y) tt
    | inr n2 ↦ elim (Bool-cases (same_text w (codes "backtrace"))) [
      | inl y ↦ rw (n1, n2, y) tt
      | inr n3 ↦ rw (n1, n2, n3) is
    ]
  ]
]

interpret-OfText : (ws : List Bytes) → AllText ws → OfText (interpret ws)
unfolding interpret
interpret-OfText [] all = tt
interpret-OfText (w ∷ ws) (is, all) = elim (Bool-cases (ltb 15 (length (w ∷ ws)))) [
  | inl y ↦ rw y tt
  | inr n ↦ rw n (command_of-OfText w is)
]

vprintfmt-too_many :
    (fuel : ℕ)
    → vprintfmt (thirty_more fuel) (literal "Too many arguments (max %d)\n") (int 16 ∷ [])
      ≡ done (codes "Too many arguments (max 16)\n")
unfolding vprintfmt after convert print_signed print_number scan flag_step getint printnum
vprintfmt-too_many fuel = refl

formatted-help_log :
    (fuel : ℕ) → formatted (thirty_more fuel) help_log ≡ done (shown [] [] (call help))
unfolding vprintfmt after convert print_string string_loop left_pad scan flag_step strnlen
formatted-help_log fuel = refl

quote_end : (fuel : ℕ) → vprintfmt (suc (suc (suc fuel))) (literal "'\n") [] ≡ done (codes "'\n")
unfolding vprintfmt after
quote_end fuel = refl

vprintfmt-unknown :
    (fuel : ℕ) (w rest : Bytes)
    → IsText w
    → vprintfmt
        (thirty_more fuel)
        (literal "Unknown command '%s'\n")
        (str (some (w ++ 0 ∷ rest)) ∷ [])
      ≡ done (shown [] [] (unknown w))
vprintfmt-unknown fuel w rest is =
    let e : thirty_more fuel ≡ 17 + suc (suc (suc (suc (fuel + 9)))) = omega arith in
    rw e (
      vprintfmt_string (codes "Unknown command '") whole w rest (suc (suc (suc (fuel + 9))))
        (literal "'\n") [] (omega arith) (omega arith) is
      ∙ rw (quote_end (fuel + 9)) refl)

one_formatted :
    (fuel : ℕ) (fmt : Bytes) (args : Args) (o : List ℕ)
    → vprintfmt fuel fmt args ≡ done o
    → formatted fuel ((fmt, args) ∷ []) ≡ done o
one_formatted fuel fmt args o e = rw (e, append-nil) refl

module _ (fuel : ℕ) (enough : 30 ≤ fuel) (k : Kernel) (info : ℕ → Eipdebuginfo)
    (es symbols : List ℕ) (lines : List ℕ)
    (kernel_symbols : formatted fuel (kerninfo_log k) ≡ done symbols)
    (frames : formatted fuel (backtrace_lines k info es) ≡ done lines) where
  answer-formatted :
      (a : Action) (rest : Bytes)
      → OfText a
      → formatted fuel (answer k info es a rest) ≡ done (shown symbols lines a)
  answer-formatted too_many rest is =
      one_formatted fuel _ _ _ (rw (thirty_more-sub fuel enough) (vprintfmt-too_many (fuel - 30)))
  answer-formatted nothing rest is = refl
  answer-formatted (call help) rest is =
      rw (thirty_more-sub fuel enough) (formatted-help_log (fuel - 30))
  answer-formatted (call kerninfo) rest is = kernel_symbols
  answer-formatted (call backtrace) rest is = frames
  answer-formatted (unknown w) rest is =
      one_formatted fuel _ _ _
        (rw (thirty_more-sub fuel enough) (vprintfmt-unknown (fuel - 30) w rest is))

  -- Let the kernel's call chain be finite, shorter than the fuel and known to debuginfo_eip, and let
  -- what kerninfo prints of its symbols be `symbols` and the backtrace `lines`. On a line of text,
  -- runcmd on the kernel's console returns 0 and puts on the screen what the words of the line ask
  -- for: that there are too many, nothing, the list of commands, the symbols, the backtrace, or that
  -- there is no command of the first word's name; and it leaves the rest of the console as it was.
  pub runcmd-displayed :
      {W : Type 0} (io : Io W) (polls : ℕ) (t r : Bytes) (s : Terminal W)
      → IsText t
      → length es < fuel
      → Chain k k.ebp es
      → Known k info es
      → runcmd (console io polls fuel) fuel k (t ++ 0 ∷ r) s
        ≡ done (
            replied (pos 0) (record s {
              screen = put_all io (shown symbols lines (interpret (words_from [] t))) s.screen;
            }))
  runcmd-displayed io polls t r s is few chain known =
      let a = interpret (words_from [] t) in
      let (rest, run) = runcmd-perform (console io polls fuel) fuel k t r s is in
      let prints =
        answer-formatted a rest
          (interpret-OfText (words_from [] t) (AllText-words_from [] t tt is)) in
      let (s', run', (o, e, same)) =
        perform-Leads (console io polls fuel) (Formats fuel) (Displayed io polls fuel)
          (console-Speaks io polls fuel) k info es fuel a rest s few chain known
          (formatted-AllFit fuel (answer k info es a rest) (shown symbols lines a) prints) in
      let all : o ≡ shown symbols lines a = done-same o _ (sym e ∙ prints) in
      run ∙ run' ∙ rw (same, all) refl
