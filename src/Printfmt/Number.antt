-- ===== src/Printfmt/Number.antt =====
-- lib/printfmt.c: printnum. Its output is the list of the characters it hands to `putch`.
-- The recursion is on fuel, `none` when that runs out or a digit is read outside of the literal; an
-- unsigned long long has at most 64 digits.
use jos_smp.Base.{
  ℕ, zero, suc, ◌/◌, ◌%◌, Option, none, some, List, [], ◌∷◌, ◌++◌, ◌==◌, leb, get_elem?,
  if◌then◌else◌,
}
use jos_smp.Base.Int.{ℤ, pos, negsuc, ◌-ℤ◌}

-- "0123456789abcdef"
abbrev pub hex_digits : List ℕ
hex_digits =
    b'0' ∷ b'1' ∷ b'2' ∷ b'3' ∷ b'4' ∷ b'5' ∷ b'6' ∷ b'7' ∷ b'8' ∷ b'9' ∷ b'a' ∷ b'b' ∷ b'c' ∷ b'd'
    ∷ b'e' ∷ b'f' ∷ []

-- `"0123456789abcdef"[d]`: the terminator behind the digits, and `none` behind that.
unfoldable pub digit_at : ℕ → Option ℕ
digit_at d = get_elem? (hex_digits ++ 0 ∷ []) d

-- `while (--width > 0) putch(padc, putdat);`
unfoldable pub pad_loop : ℕ → ℕ → List ℕ
pad_loop zero padc = []
pad_loop (suc width) padc = let rest = padc ∷ pad_loop width padc in if width == 0 then [] else rest

unfoldable pub pad : ℤ → ℕ → List ℕ
unfolding pad_loop
pad (pos width) padc = pad_loop width padc
pad (negsuc width) padc = []

-- `putch` of the last digit.
abbrev pub put_digit : Option (List ℕ) → Option ℕ → Option (List ℕ)
put_digit none c = none
put_digit (some out) none = none
put_digit (some out) (some c) = some (out ++ c ∷ [])

unfoldable pub printnum_loop : ℕ → ℕ → ℕ → ℤ → ℕ → Option (List ℕ)
unfolding pad ◌-ℤ◌ digit_at
printnum_loop zero num base width padc = none
printnum_loop (suc fuel) num base width padc =
    let more = printnum_loop fuel (num / base) base (width -ℤ pos 1) padc in
    let last = digit_at (num % base) in
    put_digit (if leb base num then more else some (pad width padc)) last

unfoldable pub printnum : ℕ → ℕ → ℤ → ℕ → Option (List ℕ)
unfolding printnum_loop
printnum num base width padc = printnum_loop 64 num base width padc
