-- ===== src/Printfmt/Print.antt =====
-- lib/printfmt.c: the conversions of vprintfmt, and its main loop on fuel.
use Prim.Native.String.{String}
use jos_smp.Base.{
  ℕ, zero, suc, ◌+◌, ◌-◌, ◌^◌, Bool, not, ◌&&◌, ◌||◌, Option, none, some, List, [], ◌∷◌, ◌++◌, ◌==◌,
  leb, ltb, get_or, length, replicate, if◌then◌else◌, codes,
}
use jos_smp.Base.Int.{ℤ, pos, negsuc, pos_part, ltb_ℤ, ◌-ℤ◌}
use jos_smp.CString.Defs.{Bytes, strnlen}
use jos_smp.Printfmt.Number.{printnum}
use jos_smp.Printfmt.Format.{
  Args, Run, done, fault, out_of_fuel, ◌>>=◌, of_option, Flags, no_flags, int, str, getuint, getint,
  get_int, get_str, scan,
}

-- A string literal with its terminator.
abbrev pub literal : String → Bytes
literal s = codes s ++ (0 ∷ [])

-- A `char` as an `int`.
abbrev pub sign_extend : ℕ → ℕ
sign_extend c = if ltb c 128 then c else c + (2 ^ 32 - 256)

-- `ch < ' ' || ch > '~'` for a signed `char`
abbrev pub unprintable : ℕ → Bool
unprintable c = ltb c b' ' || ltb b'~' c

abbrev pub shown : Bool → ℕ → ℕ
shown altflag c = if altflag && unprintable c then b'?' else sign_extend c

-- The characters that the middle loop of `%s` prints: all, or at most `limit`.
unfoldable pub string_loop : Bool → Bytes → Option ℕ → Run (List ℕ)
string_loop altflag [] limit = fault
string_loop altflag (c ∷ s) none =
    let rest = string_loop altflag s none >>= (λ out. done (shown altflag c ∷ out)) in
    if c == 0 then done [] else rest
string_loop altflag (c ∷ s) (some zero) = done []
string_loop altflag (c ∷ s) (some (suc k)) =
    let rest = string_loop altflag s (some k) >>= (λ out. done (shown altflag c ∷ out)) in
    if c == 0 then done [] else rest

-- `precision < 0 || --precision >= 0`
abbrev pub limit_of : ℤ → Option ℕ
limit_of (pos n) = some n
limit_of (negsuc n) = none

-- `(size_t) precision`
abbrev pub size_of : ℤ → ℕ
size_of (pos n) = n
size_of (negsuc n) = 2 ^ 32 - 1 - n

-- The characters before the string, and the width that is left: where there is a width and no `-`
-- flag, the loop `for (width -= strnlen(p, precision); width > 0; width--)`.
unfoldable pub left_pad : Flags → Bytes → Run (List ℕ × ℤ)
unfolding ◌-ℤ◌
left_pad fl p =
    if ltb_ℤ (pos 0) fl.width && not (fl.padc == b'-')
    then of_option (strnlen p (size_of fl.precision)) >>= (λ n.
      let width = fl.width -ℤ pos n in
      done (replicate (pos_part width) fl.padc, if ltb_ℤ (pos 0) width then pos 0 else width))
    else done ([], fl.width)

-- `case 's':` once the argument is read and a null pointer is replaced. Each character printed
-- takes one from the width; the last loop prints spaces while some is left.
unfoldable pub print_string : Flags → Bytes → Run (List ℕ)
unfolding ◌-ℤ◌
print_string fl p = left_pad fl p >>= (λ (l : List ℕ × ℤ).
    string_loop fl.altflag p (limit_of fl.precision)
    >>= (λ text. done (l.0 ++ (text ++ replicate (pos_part (l.1 -ℤ pos (length text))) b' '))))

-- `number:`
unfoldable pub print_number : Flags → ℕ → ℕ → Run (List ℕ)
print_number fl num base = elim (printnum num base fl.width fl.padc) [
  | none ↦ out_of_fuel
  | some out ↦ done out
]

-- `case 'd':` once the argument is read: `num` is the pattern of a `long long`.
unfoldable pub print_signed : Flags → ℕ → Run (List ℕ)
print_signed fl num =
    if leb (2 ^ 63) num
    then print_number fl (2 ^ 64 - num) 10 >>= (λ out. done (b'-' ∷ out))
    else print_number fl num 10

-- MAXERROR
abbrev pub max_error : ℕ
max_error = 6

unfoldable pub error_string : List (Option String)
error_string =
    none
    ∷ some "unspecified error"
    ∷ some "bad environment"
    ∷ some "invalid parameter"
    ∷ some "out of memory"
    ∷ some "out of environments"
    ∷ some "segmentation fault"
    ∷ []

-- What a conversion does next: the output is there, or `printfmt` is called with a format and
-- arguments of its own, or the format goes on behind the `%` because the character is none.
pub data Conversion : Type 0 where
  out : List ℕ → Args → Conversion
  nested : Bytes → Args → Args → Conversion
  literally : Args → Conversion

-- `err = -err` where negative; the pattern 2^31 has no negative and indexes the table out of range.
unfoldable pub convert_error : ℕ → Args → Run Conversion
unfolding error_string
convert_error w ap =
    let err = if ltb (2 ^ 31) w then 2 ^ 32 - w else w in
    if err == 2 ^ 31
    then fault
    else if ltb max_error err
    then done (nested (literal "error %d") (int err ∷ []) ap)
    else done (elim (get_or error_string err none) [
      | none ↦ nested (literal "error %d") (int err ∷ []) ap
      | some s ↦ nested (literal "%s") (str (some (literal s)) ∷ []) ap
    ])

unfoldable pub convert : ℕ → Flags → Args → Run Conversion
unfolding get_int get_str convert_error
convert ch fl ap =
    if ch == b'c'
    then get_int ap >>= (λ r. done (out (r.0 ∷ []) r.1))
    else if ch == b'e'
    then get_int ap >>= (λ r. convert_error r.0 r.1)
    else if ch == b's'
    then get_str ap >>= (λ r.
      print_string fl (elim r.0 [ none ↦ literal "(null)" | some p ↦ p ])
      >>= (λ o. done (out o r.1)))
    else if ch == b'd'
    then getint fl.lflag ap >>= (λ r. print_signed fl r.0 >>= (λ o. done (out o r.1)))
    else if ch == b'u'
    then getuint fl.lflag ap >>= (λ r. print_number fl r.0 10 >>= (λ o. done (out o r.1)))
    else if ch == b'o'
    then getuint fl.lflag ap >>= (λ r. print_number fl r.0 8 >>= (λ o. done (out o r.1)))
    else if ch == b'p'
    then get_int ap >>= (λ r. print_number fl r.0 16 >>= (λ o. done (out (b'0' ∷ b'x' ∷ o) r.1)))
    else if ch == b'x'
    then getuint fl.lflag ap >>= (λ r. print_number fl r.0 16 >>= (λ o. done (out o r.1)))
    else if ch == b'%'
    then done (out (ch ∷ []) ap)
    else done (literally ap)

-- After a conversion: `go` is the loop with one unit less of fuel, `rest` the format behind the
-- conversion character, `s` the format behind the `%`.
unfoldable pub after : (Bytes → Args → Run (List ℕ)) → Bytes → Bytes → Conversion → Run (List ℕ)
after go rest s (out o ap) = go rest ap >>= (λ o'. done (o ++ o'))
after go rest s (nested fmt args ap) = go fmt args >>= (λ o. go rest ap >>= (λ o'. done (o ++ o')))
after go rest s (literally ap) = go s ap >>= (λ o'. done (b'%' ∷ o'))

-- The main loop: one unit of fuel for each literal character and each %-escape sequence.
unfoldable pub vprintfmt : ℕ → Bytes → Args → Run (List ℕ)
vprintfmt zero fmt ap = out_of_fuel
vprintfmt (suc fuel) [] ap = fault
vprintfmt (suc fuel) (c ∷ s) ap =
    let next = vprintfmt fuel s ap >>= (λ o. done (c ∷ o)) in
    let escape = scan s no_flags ap >>= (λ (r : ℕ × Bytes × Flags × Args).
      convert r.0 r.2 r.3 >>= after (vprintfmt fuel) r.1 s) in
    if c == b'%' then escape else if c == 0 then done [] else next

-- `va_start` passes the arguments on.
unfoldable pub printfmt : ℕ → Bytes → Args → Run (List ℕ)
unfolding vprintfmt
printfmt fuel fmt ap = vprintfmt fuel fmt ap
