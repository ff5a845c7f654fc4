-- ===== src/Printfmt/Text.antt =====
-- lib/printfmt.c: what vprintfmt prints of plain text and of each kind of %-escape sequence.
use native.Mathlib.Nat.{zero-add, suc-add}
use jos_smp.Base.{
  ℕ, suc, ◌+◌, ◌-◌, ◌^◌, ◌<◌, ◌≤◌, ◌≡◌, refl, sym, true, false, List, [], ◌∷◌, ◌++◌, map, arith,
  length, leb, ltb, ltb→lt, ltb-false→le, subst, ◌==◌, if◌then◌else◌, Bool-cases, inl, inr, ap, ◌∙◌,
  replicate, append_assoc,
}
use jos_smp.Base.Int.{pos}
use jos_smp.CString.Defs.{Bytes}
use jos_smp.CString.Scan.{IsText}
use jos_smp.CString.Find.{Lacks}
use jos_smp.Printfmt.Digits.{digit_char}
use jos_smp.Printfmt.Digits.{printnum-field, IsDigits, field}
use jos_smp.Printfmt.Format.{
  Args, Run, done, fault, out_of_fuel, ◌>>=◌, Flags, no_flags, int, getuint, getint, scan,
  flag_step,
}
use jos_smp.Printfmt.Print.{vprintfmt, after, convert, print_signed, print_number, out}

-- The output of a run, behind some more.
abbrev pub behind : List ℕ → Run (List ℕ) → Run (List ℕ)
behind o m = m >>= (λ o'. done (o ++ o'))

pub behind-behind : (a b : List ℕ) (m : Run (List ℕ)) → behind a (behind b m) ≡ behind (a ++ b) m
behind-behind a b (done o) = ap done (sym (append_assoc a b o))
behind-behind a b fault = refl
behind-behind a b out_of_fuel = refl

behind-nil : (m : Run (List ℕ)) → behind [] m ≡ m
behind-nil (done o) = refl
behind-nil fault = refl
behind-nil out_of_fuel = refl

-- Text without `%` is printed as it stands, one unit of fuel for each character, and then the rest
-- of the format.
pub vprintfmt_text :
    (text fmt : Bytes) (args : Args) (fuel : ℕ)
    → IsText text
    → Lacks b'%' text
    → vprintfmt (length text + fuel) (text ++ fmt) args ≡ behind text (vprintfmt fuel fmt args)
unfolding vprintfmt
vprintfmt_text [] fmt args fuel t l = rw (zero-add fuel, behind-nil)
vprintfmt_text (c ∷ text) fmt args fuel t l =
    let p : (c == b'%') ≡ false = ground arith in
    let z : (c == 0) ≡ false = ground arith in
    rw (suc-add (length text) fuel, p, z, vprintfmt_text text fmt args fuel t.1 l.1)
      (behind-behind (c ∷ []) text (vprintfmt fuel fmt args))

-- One %-escape sequence, once its flags are read and its conversion is made.
pub escape_lem :
    (s rest : Bytes) (ch fuel : ℕ) (fl : Flags) (args args' args'' : Args) (o : List ℕ)
    → scan s no_flags args ≡ done (ch, rest, fl, args')
    → convert ch fl args' ≡ done (out o args'')
    → vprintfmt (suc fuel) (b'%' ∷ s) args ≡ behind o (vprintfmt fuel rest args'')
unfolding vprintfmt after
escape_lem s rest ch fuel fl args args' args'' o e f = rw (e, f)

-- The digits of a number under the flags, or under a width.
print_number-field :
    (fl : Flags) (num base : ℕ)
    → (2 ≤ base) × (base ≤ 16)
    → num < 2 ^ 64
    → (ds : List ℕ) × (print_number fl num base ≡ done (field fl.width fl.padc ds))
      × IsDigits base num ds
unfolding print_number
print_number-field fl num base b h =
    let (ds, e, i) = printnum-field num base fl.width fl.padc b.0 b.1 h in
    (ds, rw (print_number, e), i)

-- The unsigned conversions.
pub data Radix : Type 0 where
  decimal octal hex : Radix

abbrev pub radix_char : Radix → ℕ
radix_char decimal = b'u'
radix_char octal = b'o'
radix_char hex = b'x'

abbrev pub radix_base : Radix → ℕ
radix_base decimal = 10
radix_base octal = 8
radix_base hex = 16

radix_base_ge : (r : Radix) → (2 ≤ radix_base r) × (radix_base r ≤ 16)
radix_base_ge decimal = omega arith
radix_base_ge octal = omega arith
radix_base_ge hex = omega arith

getuint_int : (l w : ℕ) (args : Args) → l ≡ 0 → getuint l (int w ∷ args) ≡ done (w, args)
unfolding getuint
getuint_int l w args e = rw e

convert_radix :
    (r : Radix) (fl : Flags) (w : ℕ) (args : Args) (ds : List ℕ)
    → fl.lflag ≡ 0
    → print_number fl w (radix_base r) ≡ done ds
    → convert (radix_char r) fl (int w ∷ args) ≡ done (out ds args)
unfolding convert
convert_radix decimal fl w args ds l e = rw (getuint_int fl.lflag w args l, e)
convert_radix octal fl w args ds l e = rw (getuint_int fl.lflag w args l, e)
convert_radix hex fl w args ds l e = rw (getuint_int fl.lflag w args l, e)

-- The flags of an escape sequence: none, or `0` and a width of one digit.
pub data Width : Type 0 where
  no_width : Width
  zeros : (n : ℕ) → 0 < n → n < 10 → Width

abbrev pub width_text : Width → Bytes
width_text no_width = []
width_text (zeros n p q) = b'0' ∷ (b'0' + n) ∷ []

abbrev pub width_flags : Width → Flags
width_flags no_width = no_flags
width_flags (zeros n p q) = record no_flags { padc = b'0'; width = pos n }

-- The characters before the digits `ds`.
abbrev pub width_fill : Width → List ℕ → List ℕ
width_fill no_width ds = []
width_fill (zeros n p q) ds = replicate (n - length ds) b'0'

scan_width :
    (w : Width) (r : Radix) (s : Bytes) (args : Args)
    → scan (width_text w ++ radix_char r ∷ s) no_flags args
      ≡ done (radix_char r, s, width_flags w, args)
unfolding scan flag_step
scan_width no_width decimal s args = refl
scan_width no_width octal s args = refl
scan_width no_width hex s args = refl
scan_width (zeros n p q) decimal s args = ground arith
scan_width (zeros n p q) octal s args = ground arith
scan_width (zeros n p q) hex s args = ground arith

width_field :
    (w : Width) (ds : List ℕ)
    → field (width_flags w).width (width_flags w).padc ds ≡ width_fill w ds ++ map digit_char ds
width_field no_width ds = ground arith
width_field (zeros n p q) ds = refl

width_lflag : (w : Width) → (width_flags w).lflag ≡ 0
width_lflag no_width = refl
width_lflag (zeros n p q) = refl

-- `%u`, `%o` and `%x`, plain or with `0` and a width of one digit, print the digits of their
-- argument in their base, filled with zeros up to the width, and go on behind.
pub vprintfmt_unsigned :
    (w : Width) (r : Radix) (num fuel : ℕ) (s : Bytes) (args : Args)
    → num < 2 ^ 32
    → (ds : List ℕ) × (vprintfmt
          (suc fuel)
          (b'%' ∷ (width_text w ++ radix_char r ∷ s))
          (int num ∷ args)
        ≡ behind (width_fill w ds ++ map digit_char ds) (vprintfmt fuel s args))
      × IsDigits (radix_base r) num ds
vprintfmt_unsigned w r num fuel s args h =
    let (ds, e, i) =
      print_number-field (width_flags w) num (radix_base r) (radix_base_ge r) (omega arith) in
    (
      ds,
      escape_lem (width_text w ++ radix_char r ∷ s) s (radix_char r) fuel (width_flags w)
          (int num ∷ args) (int num ∷ args) args _ (scan_width w r s (int num ∷ args))
          (rw (← width_field w ds) (convert_radix r (width_flags w) num args _ (width_lflag w) e)),
      i,
    )

-- The sign and the digits of an `int`, by its pattern.
abbrev pub sign_of : ℕ → List ℕ
sign_of w = if ltb w (2 ^ 31) then [] else b'-' ∷ []

abbrev pub magnitude : ℕ → ℕ
magnitude w = if ltb w (2 ^ 31) then w else 2 ^ 32 - w

-- A number of the magnitude printed, behind the sign that `print_signed` prints.
signed_pos :
    (num : ℕ) (ds : List ℕ)
    → num < 2 ^ 63
    → print_number no_flags num 10 ≡ done (field no_flags.width no_flags.padc ds)
    → print_signed no_flags num ≡ done (map digit_char ds)
unfolding print_signed
signed_pos num ds h e =
    let z : leb (2 ^ 63) num ≡ false = ground arith in rw z (e ∙ ap done (width_field no_width ds))

signed_neg :
    (num m : ℕ) (ds : List ℕ)
    → 2 ^ 63 ≤ num
    → 2 ^ 64 - num ≡ m
    → print_number no_flags m 10 ≡ done (field no_flags.width no_flags.padc ds)
    → print_signed no_flags num ≡ done (b'-' ∷ map digit_char ds)
unfolding print_signed
signed_neg num m ds h n e =
    let z : leb (2 ^ 63) num ≡ true = ground arith in
    rw (z, n, e) (ap (λ t. done (b'-' ∷ t)) (width_field no_width ds))

print_signed_lem :
    (w : ℕ)
    → w < 2 ^ 32
    → (ds : List ℕ) × (print_signed no_flags (if ltb w (2 ^ 31) then w else w + (2 ^ 64 - 2 ^ 32))
        ≡ done (sign_of w ++ map digit_char ds))
      × IsDigits 10 (magnitude w) ds
print_signed_lem w h = elim (Bool-cases (ltb w (2 ^ 31))) [
  | inl y ↦
      let n = ltb→lt w (2 ^ 31) y in
      let (ds, e, i) = print_number-field no_flags w 10 (omega arith) (omega arith) in
      (
        ds,
        subst
            (λ b.
              print_signed no_flags (if b then w else w + (2 ^ 64 - 2 ^ 32))
              ≡ done ((if b then [] else b'-' ∷ []) ++ map digit_char ds))
            (sym y) (signed_pos w ds (omega arith) e),
        subst (λ b. IsDigits 10 (if b then w else 2 ^ 32 - w) ds) (sym y) i,
      )
  | inr y ↦
      let n = ltb-false→le w (2 ^ 31) y in
      let (ds, e, i) = print_number-field no_flags (2 ^ 32 - w) 10 (omega arith) (omega arith) in
      (
        ds,
        subst
            (λ b.
              print_signed no_flags (if b then w else w + (2 ^ 64 - 2 ^ 32))
              ≡ done ((if b then [] else b'-' ∷ []) ++ map digit_char ds))
            (sym y)
            (signed_neg (w + (2 ^ 64 - 2 ^ 32)) (2 ^ 32 - w) ds (omega arith) (omega arith) e),
        subst (λ b. IsDigits 10 (if b then w else 2 ^ 32 - w) ds) (sym y) i,
      )
]

-- `%d` prints a minus sign for a negative `int` and the digits of its absolute value, and goes on
-- behind.
pub vprintfmt_signed :
    (w fuel : ℕ) (s : Bytes) (args : Args)
    → w < 2 ^ 32
    → (ds : List ℕ) × (vprintfmt (suc fuel) (b'%' ∷ b'd' ∷ s) (int w ∷ args)
        ≡ behind (sign_of w ++ map digit_char ds) (vprintfmt fuel s args))
      × IsDigits 10 (magnitude w) ds
unfolding scan flag_step
vprintfmt_signed w fuel s args h =
    let (ds, e, i) = print_signed_lem w h in
    (
      ds,
      escape_lem (b'd' ∷ s) s b'd' fuel no_flags (int w ∷ args) (int w ∷ args) args _ refl
          (conv ds e),
      i,
    )
  where
    conv :
        (ds : List ℕ)
        → print_signed no_flags (if ltb w (2 ^ 31) then w else w + (2 ^ 64 - 2 ^ 32))
          ≡ done (sign_of w ++ map digit_char ds)
        → convert b'd' no_flags (int w ∷ args) ≡ done (out (sign_of w ++ map digit_char ds) args)
    conv ds e = unfold convert getint in rw e
