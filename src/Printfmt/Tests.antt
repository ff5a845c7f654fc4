-- ===== src/Printfmt/Tests.antt =====
-- lib/printfmt.c: runs of vprintfmt, and each theorem at an input.
use jos_smp.Base.{
  ◌+◌, ◌==◌, ◌||◌, ◌&&◌, leb, ltb, if◌then◌else◌, none, ℕ, ◌≡◌, ◌≢◌, arith, map, refl, some, List,
  [], ◌∷◌, ◌++◌, ◌-◌, ◌^◌, codes,
}
use jos_smp.Base.Int.{pos}
use jos_smp.CString.Defs.{strnlen}
use jos_smp.Memory.Defs.{Mem}
use jos_smp.Printfmt.Number.{printnum}
use jos_smp.Printfmt.Digits.{digit_char}
use jos_smp.Printfmt.Digits.{printnum-field, field, IsDigits}
use jos_smp.Printfmt.Caller.{take_all-take_all_at, AllStand, Pushed}
use jos_smp.Printfmt.Varargs.{
  take_all, take_all_at, take, Take, unsigned_number, signed_number, a_string, Taken, number, text,
}
use jos_smp.Printfmt.Total.{vprintfmt-ne-out_of_fuel}
use jos_smp.Printfmt.Text.{
  behind, vprintfmt_signed, vprintfmt_unsigned, Width, zeros, hex, width_fill,
}
use jos_smp.Printfmt.Strings.{vprintfmt_string, Form, up_to, form_text}
use jos_smp.Printfmt.Buffer.{vsnprintf, vsnprintf-printed}
use jos_smp.Printfmt.Format.{
  Args, int, quad, str, done, out_of_fuel, scan, flag_step, getint, getuint,
}
use jos_smp.Printfmt.Print.{
  literal, vprintfmt, after, convert, print_string, print_signed, print_number, left_pad,
  string_loop,
}

abbrev eight : Width
eight = zeros 8 (omega arith) (omega arith)

abbrev two : Form
two = up_to 2 (omega arith)

program : Unit {0}
unfolding vprintfmt after scan flag_step getint getuint convert print_string print_signed
    print_number left_pad string_loop printnum strnlen
program = tt

decimal_run :
    vprintfmt 50
      (literal "6828 is %o, %5d|%08x %c%%")
      (int 6828 ∷ int (2 ^ 32 - 42) ∷ int 0xbeef ∷ int b'!' ∷ [])
    ≡ done (codes "6828 is 15254, -   42|0000beef !%")
unfolding program
decimal_run = refl

string_run :
    vprintfmt 50 (literal "%-6s|%6s|%.2s|%e|%e|%q") (
      str (some (literal "abc"))
      ∷ str (some (literal "abc"))
      ∷ str (some (literal "abc"))
      ∷ int (2 ^ 32 - 4)
      ∷ int 9
      ∷ [])
    ≡ done (codes "abc   |   abc|ab|out of memory|error 9|%q")
unfolding program
string_run = refl

-- The `-` flag fills a number on the left, with dashes.
minus_run : vprintfmt 50 (literal "%-5d|") (int 42 ∷ []) ≡ done (codes "---42|")
unfolding program
minus_run = refl

vprintfmt-ne-out_of_fuel_example : vprintfmt 30 (literal "%d %s %e") (int 5 ∷ []) ≢ out_of_fuel
vprintfmt-ne-out_of_fuel_example =
    vprintfmt-ne-out_of_fuel 30 (literal "%d %s %e") (int 5 ∷ []) (omega arith) (omega arith)

printnum-field_example :
    (ds : List ℕ) × (printnum 0xbeef 16 (pos 8) b'0' ≡ some (field (pos 8) b'0' ds))
    × IsDigits 16 0xbeef ds
printnum-field_example =
    printnum-field 0xbeef 16 (pos 8) b'0' (omega arith) (omega arith) (omega arith)

vprintfmt_string_example :
    vprintfmt 6
      (codes "ab" ++ b'%' ∷ (form_text two ++ literal "%d"))
      (int 2 ∷ str (some (codes "xyz" ++ 0 ∷ [])) ∷ int 7 ∷ [])
    ≡ behind (codes "abxy") (vprintfmt 3 (literal "%d") (int 7 ∷ []))
vprintfmt_string_example =
    vprintfmt_string (codes "ab") two (codes "xyz") [] 3 (literal "%d") (int 7 ∷ []) (omega arith)
      (omega arith) (omega arith)

vprintfmt_signed_example :
    (ds : List ℕ) × (vprintfmt 3 (literal "%d!") (int (2 ^ 32 - 42) ∷ [])
      ≡ behind (b'-' ∷ map digit_char ds) (vprintfmt 2 (literal "!") []))
    × IsDigits 10 42 ds
vprintfmt_signed_example = vprintfmt_signed (2 ^ 32 - 42) 2 (literal "!") [] (omega arith)

vprintfmt_unsigned_example :
    (ds : List ℕ) × (vprintfmt 3 (literal "%08x!") (int 0xbeef ∷ [])
      ≡ behind (width_fill eight ds ++ map digit_char ds) (vprintfmt 2 (literal "!") []))
    × IsDigits 16 0xbeef ds
vprintfmt_unsigned_example = vprintfmt_unsigned eight hex 0xbeef 2 (literal "!") [] (omega arith)

-- "6828 is 15254" in a buffer of eight bytes.
abbrev octal_out : List ℕ
octal_out = codes "6828 is 15254"

octal_runs : vprintfmt 20 (literal "%d is %o") (int 6828 ∷ int 6828 ∷ []) ≡ done octal_out
unfolding program
octal_runs = refl

vsnprintf-printed_example :
    (m' : Mem) × (vsnprintf 20 100 (pos 8) (literal "%d is %o") (int 6828 ∷ int 6828 ∷ []) (λ a. 1)
      ≡ done (pos 13, m'))
    × (m' 107 ≡ 0)
vsnprintf-printed_example =
    vsnprintf-printed 20 100 7 (literal "%d is %o") (int 6828 ∷ int 6828 ∷ []) (λ a. 1) octal_out
      107 (omega arith) octal_runs

-- The stack of a call with -1, a `long long`, "hi" and a null pointer.
abbrev stack : Mem
stack a =
    if a == 0x2000
    then b'h'
    else if a == 0x2001
    then b'i'
    else if leb 0x1000 a && ltb a 0x1004
    then 255
    else if a == 0x1004 || a == 0x1008
    then 1
    else if a == 0x100d
    then 0x20
    else 0

abbrev taken : List Taken
taken = number (2 ^ 64 - 1) ∷ number (2 ^ 32 + 1) ∷ text (some (codes "hi" ++ 0 ∷ [])) ∷ []

abbrev call : Args
call = int (2 ^ 32 - 1) ∷ quad (2 ^ 32 + 1) ∷ str (some (codes "hi" ++ 0 ∷ [])) ∷ str none ∷ []

abbrev in_order : List Take
in_order = signed_number 0 ∷ unsigned_number 2 ∷ a_string ∷ []

call-Pushed : Pushed stack 0x1000 call
call-Pushed = (refl, (refl, ((omega arith, (refl, (refl, (refl, tt)))), (refl, tt))))

takes : take_all in_order call ≡ done (taken, str none ∷ [])
unfolding program take_all take
takes = refl

take_all-take_all_at_example :
    AllStand stack (take_all_at in_order stack 0x1000).0 taken
    × Pushed stack (take_all_at in_order stack 0x1000).1 (str none ∷ [])
take_all-take_all_at_example =
    take_all-take_all_at in_order stack 0x1000 call (str none ∷ []) taken (omega arith) call-Pushed
      takes
