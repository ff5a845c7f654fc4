-- ===== src/Monitor/Dispatch.antt =====
-- kern/monitor.c: runcmd does what the words of its line say.

use jos_smp.Base.{
  ℕ, ◌-◌, ◌≡◌, ◌≢◌, refl, ◌&&◌, Bool, true, false, none, some, List, [], ◌∷◌, ◌++◌, ◌==◌, ltb,
  length, drop, codes, length-append, if◌then◌else◌, arith, Bool-cases, inl, inr, ap, subst, ◌∙◌,
}
use jos_smp.Base.Int.{pos}
use jos_smp.CString.Defs.{Bytes}
use jos_smp.CString.Scan.{IsText}
use jos_smp.CString.Compare.{text_diff, strcmp-text_diff}
use jos_smp.Printfmt.Format.{Run, done, ◌>>=◌, int, str}
use jos_smp.Tty.{Tty}
use jos_smp.Monitor.Words.{words_from, separates, put_word}
use jos_smp.Monitor.Arguments.{Arguments, parse-ParsesTo}
use jos_smp.Monitor.Command.{
  Kernel, Reply, replied, Command, help, kerninfo, backtrace, commands, run_command, is_zero,
  find_command, invoke, dispatch, print, runcmd,
}

-- What a line asks for.
pub data Action : Type 0 where
  too_many : Action
  nothing : Action
  call : Command → Action
  unknown : Bytes → Action

abbrev pub same_text : Bytes → Bytes → Bool
same_text [] [] = true
same_text [] (b ∷ q) = false
same_text (a ∷ p) [] = false
same_text (a ∷ p) (b ∷ q) = a == b && same_text p q

abbrev pub command_of : Bytes → Action
command_of w =
    if same_text w (codes "help")
    then call help
    else if same_text w (codes "kerninfo")
    then call kerninfo
    else if same_text w (codes "backtrace")
    then call backtrace
    else unknown w

abbrev pub first_of : List Bytes → Action
first_of [] = nothing
first_of (w ∷ ws) = command_of w

unfoldable pub interpret : List Bytes → Action
interpret ws = if ltb 15 (length ws) then too_many else first_of ws

abbrev pub AllText : List Bytes → Type 0
AllText [] = Unit
AllText (w ∷ ws) = IsText w × AllText ws

pub IsText-snoc : (c : ℕ) (w : Bytes) → c ≢ 0 → IsText w → IsText (w ++ c ∷ [])
IsText-snoc c [] h is = (h, tt)
IsText-snoc c (d ∷ w) h (h', is) = (h', IsText-snoc c w h is)

AllText-put_word : (w : Bytes) (ws : List Bytes) → IsText w → AllText ws → AllText (put_word w ws)
AllText-put_word [] ws is all = all
AllText-put_word (c ∷ w) ws is all = (is, all)

pub AllText-words_from : (w t : Bytes) → IsText w → IsText t → AllText (words_from w t)
unfolding words_from
AllText-words_from w [] is it = AllText-put_word w [] is tt
AllText-words_from w (c ∷ t) is (h, it) = elim (Bool-cases (separates c)) [
  | inl y ↦ rw y (AllText-put_word w (words_from [] t) is (AllText-words_from [] t tt it))
  | inr n ↦ rw n (AllText-words_from (w ++ c ∷ []) t (IsText-snoc c w h is) it)
]

is_zero-text_diff : (p q : Bytes) → IsText p → IsText q → is_zero (text_diff p q) ≡ same_text p q
is_zero-text_diff [] [] h k = refl
is_zero-text_diff [] (b ∷ q) h k = ground arith
is_zero-text_diff (a ∷ p) [] h k = ground arith
is_zero-text_diff (a ∷ p) (b ∷ q) h k = ground (arith, is_zero-text_diff p q h.1 k.1)

find_command-same :
    (w rest : Bytes)
    → IsText w
    → find_command commands (w ++ 0 ∷ rest)
      ≡ done (elim (command_of w) [ call c ↦ some c | _ ↦ none ])
unfolding find_command commands
find_command-same w rest is =
    rw
      (
        strcmp-text_diff w (codes "help") rest [] is (omega arith),
        strcmp-text_diff w (codes "kerninfo") rest [] is (omega arith),
        strcmp-text_diff w (codes "backtrace") rest [] is (omega arith),
        is_zero-text_diff w (codes "help") is (omega arith),
        is_zero-text_diff w (codes "kerninfo") is (omega arith),
        is_zero-text_diff w (codes "backtrace") is (omega arith),
      )
      (ground arith)

-- What runcmd does for each of these; `rest` is the buffer behind an unknown word's terminator.
module _ {S : Type 0} (tty : Tty S) (fuel : ℕ) (k : Kernel) where
  unfoldable pub perform : Action → Bytes → S → Run (Reply S)
  perform too_many rest s =
      print tty "Too many arguments (max %d)\n" (int 16 ∷ []) s
      >>= (λ s'. done (replied (pos 0) s'))
  perform nothing rest s = done (replied (pos 0) s)
  perform (call c) rest s = run_command tty fuel k c s
  perform (unknown w) rest s =
      print tty "Unknown command '%s'\n" (str (some (w ++ 0 ∷ rest)) ∷ []) s
      >>= (λ s'. done (replied (pos 0) s'))

  invoke-perform :
      (w rest : Bytes) (s : S)
      → IsText w
      → invoke tty fuel k (w ++ 0 ∷ rest) s ≡ perform (command_of w) rest s
  unfolding invoke perform
  invoke-perform w rest s is =
      rw (find_command-same w rest is) (elim (Bool-cases (same_text w (codes "help"))) [
        | inl y ↦ rw y
        | inr n1 ↦ elim (Bool-cases (same_text w (codes "kerninfo"))) [
          | inl y ↦ rw (n1, y)
          | inr n2 ↦ elim (Bool-cases (same_text w (codes "backtrace"))) [
            | inl y ↦ rw (n1, n2, y)
            | inr n3 ↦ rw (n1, n2, n3)
          ]
        ]
      ])

  dispatch-perform :
      (ws : List Bytes) (argv : List ℕ) (many : Bool) (buf : Bytes) (s : S)
      → AllText ws
      → many ≡ ltb 15 (length ws)
      → (many ≡ false → Arguments 0 buf argv ws)
      → (rest : Bytes) × (dispatch tty fuel k s (record { too_many = many; argv = argv; buf = buf })
          ≡ perform (interpret ws) rest s)
  unfolding dispatch perform interpret
  dispatch-perform ws argv true buf s all e args = ([], rw (← e))
  dispatch-perform [] [] false buf s all e args = ([], refl)
  dispatch-perform [] (a ∷ argv) false buf s all e args = absurd (args refl)
  dispatch-perform (w ∷ ws) [] false buf s all e args = absurd (args refl)
  dispatch-perform (w ∷ ws) (a ∷ argv) false buf s all e args =
      let (le, (rest, there)) = (args refl).0 in
      let origin : a - 0 ≡ a = omega arith in
      let there' : drop a buf ≡ w ++ 0 ∷ rest =
        subst (λ n. drop n buf ≡ w ++ 0 ∷ rest) origin there in
      (rest, rw (← e, there') (invoke-perform w rest s all.0))

  -- On a line, the bytes of `t` and a zero, runcmd ends as its words say: with more than 15 it
  -- prints that there are too many, with none it does nothing, and otherwise it calls the command
  -- that the first word names, or prints that there is none of that name.
  pub runcmd-perform :
      (t r : Bytes) (s : S)
      → IsText t
      → (rest : Bytes) × (runcmd tty fuel k (t ++ 0 ∷ r) s
          ≡ perform (interpret (words_from [] t)) rest s)
  unfolding runcmd
  runcmd-perform t r s is =
      let (p, run, many, args, _) =
        parse-ParsesTo (length (t ++ 0 ∷ r)) 0 0 t r is (omega (arith, length-append t (0 ∷ r)))
          (omega arith) in
      rw run (
        dispatch-perform (words_from [] t) p.argv p.too_many p.buf s (AllText-words_from [] t tt is)
          (many ∙ ap (λ n. ltb 15 n) (omega arith)) args)
