-- ===== src/Printfmt/Strings.antt =====
-- lib/printfmt.c: what vprintfmt prints for text, `%s` and `%.*s`.
use jos_smp.Base.{
  ℕ, zero, suc, ◌+◌, ◌^◌, ◌<◌, ◌≡◌, refl, false, none, some, [], ◌∷◌, ◌++◌, map, take, arith,
  length, ◌==◌, ap, ◌∙◌, replicate, append-nil,
}
use jos_smp.Base.Int.{ℤ, pos, negsuc, pos_part, ◌-ℤ◌}
use jos_smp.Base.Word.{signed32}
use jos_smp.CString.Defs.{Bytes}
use jos_smp.CString.Scan.{IsText}
use jos_smp.Printfmt.Format.{Args, done, Flags, no_flags, int, str, scan, flag_step}
use jos_smp.Printfmt.Print.{
  vprintfmt, convert, out, string_loop, left_pad, print_string, sign_extend,
}
use jos_smp.CString.Find.{Lacks}
use jos_smp.Printfmt.Text.{behind, behind-behind, escape_lem, vprintfmt_text}

-- The characters of a string, with no limit and with one.
string_loop_all :
    (text rest : Bytes)
    → IsText text
    → string_loop false (text ++ 0 ∷ rest) none ≡ done (map sign_extend text)
unfolding string_loop
string_loop_all [] rest t = refl
string_loop_all (c ∷ text) rest (ne, t) =
    let z : (c == 0) ≡ false = ground arith in rw (z, string_loop_all text rest t) refl

string_loop-take :
    (n : ℕ) (text rest : Bytes)
    → IsText text
    → string_loop false (text ++ 0 ∷ rest) (some n) ≡ done (map sign_extend (take n text))
unfolding string_loop
string_loop-take zero [] rest t = refl
string_loop-take zero (c ∷ text) rest t = refl
string_loop-take (suc n) [] rest t = refl
string_loop-take (suc n) (c ∷ text) rest (ne, t) =
    let z : (c == 0) ≡ false = ground arith in rw (z, string_loop-take n text rest t) refl

-- The two forms: the whole string, or at most as many characters as the `int` before it says.
pub data Form : Type 0 where
  whole : Form
  up_to : (n : ℕ) → n < 2 ^ 31 → Form

abbrev pub form_text : Form → Bytes
form_text whole = b's' ∷ []
form_text (up_to n h) = b'.' ∷ b'*' ∷ b's' ∷ []

abbrev pub form_args : Form → Args → Args
form_args whole args = args
form_args (up_to n h) args = int n ∷ args

abbrev pub form_take : Form → Bytes → Bytes
form_take whole text = text
form_take (up_to n h) text = take n text

abbrev form_flags : Form → Flags
form_flags whole = no_flags
form_flags (up_to n h) = record no_flags { width = pos 0; precision = pos n }

scan_form :
    (f : Form) (s : Bytes) (args : Args)
    → scan (form_text f ++ s) no_flags (form_args f args) ≡ done (b's', s, form_flags f, args)
unfolding scan flag_step
scan_form whole s args = refl
scan_form (up_to n h) s args = let e : signed32 n ≡ pos n = ground arith in rw e refl

-- Where no width is left, no spaces follow.
no_fill : (w : ℤ) (k : ℕ) → pos_part w ≡ 0 → replicate {A = ℕ} (pos_part (w -ℤ pos k)) b' ' ≡ []
unfolding ◌-ℤ◌
no_fill w k z = let e : pos_part (w -ℤ pos k) ≡ 0 = ground arith in rw e refl

print_string_form :
    (f : Form) (text rest : Bytes)
    → IsText text
    → print_string (form_flags f) (text ++ 0 ∷ rest) ≡ done (map sign_extend (form_take f text))
unfolding print_string left_pad
print_string_form whole text rest t =
    let shut = string_loop_all text rest t in
    rw (shut, no_fill (negsuc 0) (length (map sign_extend text)) refl)
      (ap done (append-nil (map sign_extend text)))
print_string_form (up_to n h) text rest t =
    let shut = string_loop-take n text rest t in
    rw (shut, no_fill (pos 0) (length (map sign_extend (take n text))) refl)
      (ap done (append-nil (map sign_extend (take n text))))

convert_form :
    (f : Form) (text rest : Bytes) (args : Args)
    → IsText text
    → convert b's' (form_flags f) (str (some (text ++ 0 ∷ rest)) ∷ args)
      ≡ done (out (map sign_extend (form_take f text)) args)
unfolding convert
convert_form f text rest args t = rw (print_string_form f text rest t) refl

string_lem :
    (f : Form) (text rest : Bytes) (fuel : ℕ) (s : Bytes) (args : Args)
    → IsText text
    → vprintfmt
        (suc fuel)
        (b'%' ∷ (form_text f ++ s))
        (form_args f (str (some (text ++ 0 ∷ rest)) ∷ args))
      ≡ behind (map sign_extend (form_take f text)) (vprintfmt fuel s args)
string_lem f text rest fuel s args t =
    let arg = str (some (text ++ 0 ∷ rest)) ∷ args in
    escape_lem (form_text f ++ s) s b's' fuel (form_flags f) (form_args f arg) arg args _
      (scan_form f s arg) (convert_form f text rest args t)

-- A format that starts with text without `%` and goes on with `%s` or `%.*s` prints the text as it
-- stands, then the characters of the string argument up to its terminator, each as a `char`, and
-- for `%.*s` at most as many of them as the `int` before the string says; then it prints the rest
-- of the format with the remaining arguments. It takes one unit of fuel for each character of the
-- text and one for the escape sequence.
pub vprintfmt_string :
    (lead : Bytes) (f : Form) (text rest : Bytes) (fuel : ℕ) (s : Bytes) (args : Args)
    → IsText lead
    → Lacks b'%' lead
    → IsText text
    → vprintfmt
        (length lead + suc fuel)
        (lead ++ b'%' ∷ (form_text f ++ s))
        (form_args f (str (some (text ++ 0 ∷ rest)) ∷ args))
      ≡ behind (lead ++ map sign_extend (form_take f text)) (vprintfmt fuel s args)
vprintfmt_string lead f text rest fuel s args t l u =
    let all = form_args f (str (some (text ++ 0 ∷ rest)) ∷ args) in
    vprintfmt_text lead (b'%' ∷ (form_text f ++ s)) all (suc fuel) t l
    ∙ ap (behind lead) (string_lem f text rest fuel s args u)
    ∙ behind-behind lead (map sign_extend (form_take f text)) (vprintfmt fuel s args)
