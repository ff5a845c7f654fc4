-- ===== src/Printfmt/Format.antt =====
-- lib/printfmt.c: vprintfmt, printfmt, getuint and getint. The format is the bytes from `fmt` to
-- the end of its object. The output is the list of the `int`s handed to `putch`, each its 32-bit
-- pattern. A `char` is signed; field widths stay below 2^31.
use jos_smp.Base.{
  ℕ, ◌+◌, ◌-◌, ◌*◌, ◌^◌, Bool, true, false, ◌&&◌, Option, none, some, List, [], ◌∷◌, ◌==◌, leb, ltb,
  if◌then◌else◌,
}
use jos_smp.Base.Int.{ℤ, pos, negsuc, pos_part, ltb_ℤ}
use jos_smp.Base.Word.{signed32}
use jos_smp.CString.Defs.{Bytes}

-- One argument behind the `...`: a 32-bit `int`, `unsigned`, `long` or pointer by its pattern, a
-- 64-bit `long long` by its pattern, or a `char *`, which is null or the bytes from it on.
pub data Arg : Type 0 where
  int : ℕ → Arg
  quad : ℕ → Arg
  str : Option Bytes → Arg

abbrev pub Args : Type 0
Args = List Arg

-- `fault` is undefined behaviour: a read past an object, or a `va_arg` that does not fit.
pub data Run (A : Type 0) : Type 0 where
  done : A → Run A
  fault : Run A
  out_of_fuel : Run A

infixl 5 ◌>>=◌
abbrev pub ◌>>=◌ : {A B : Type 0} → Run A → (A → Run B) → Run B
done a >>= f = f a
fault >>= f = fault
out_of_fuel >>= f = out_of_fuel

abbrev pub of_option : {A : Type 0} → Option A → Run A
of_option none = fault
of_option (some a) = done a

-- The variables that a %-escape sequence sets. `number` says that the last character was a digit
-- of a width or precision that is still being read.
pub record Flags : Type 0 where
  pub padc : ℕ
  pub width : ℤ
  pub precision : ℤ
  pub lflag : ℕ
  pub altflag : Bool
  pub number : Bool

abbrev pub no_flags : Flags
no_flags = record {
  padc = b' ';
  width = negsuc 0;
  precision = negsuc 0;
  lflag = 0;
  altflag = false;
  number = false;
}

unfoldable pub getuint : ℕ → Args → Run (ℕ × Args)
getuint lflag [] = fault
getuint lflag (int w ∷ ap) = if leb 2 lflag then fault else done (w, ap)
getuint lflag (quad v ∷ ap) = if leb 2 lflag then done (v, ap) else fault
getuint lflag (str s ∷ ap) = fault

-- The result is the pattern of a `long long`: an `int` is sign-extended.
unfoldable pub getint : ℕ → Args → Run (ℕ × Args)
getint lflag [] = fault
getint lflag (int w ∷ ap) =
    if leb 2 lflag then fault else done (if ltb w (2 ^ 31) then w else w + (2 ^ 64 - 2 ^ 32), ap)
getint lflag (quad v ∷ ap) = if leb 2 lflag then done (v, ap) else fault
getint lflag (str s ∷ ap) = fault

-- `va_arg(ap, int)`
unfoldable pub get_int : Args → Run (ℕ × Args)
get_int (int w ∷ ap) = done (w, ap)
get_int _ = fault

-- `va_arg(ap, char *)`
unfoldable pub get_str : Args → Run (Option Bytes × Args)
get_str (str s ∷ ap) = done (s, ap)
get_str _ = fault

-- `process_precision:`
unfoldable pub process_precision : Flags → Flags
process_precision fl =
    if ltb_ℤ fl.width (pos 0)
    then record fl { width = fl.precision; precision = negsuc 0; number = false }
    else record fl { number = false }

-- What the `switch` does with a character: read on with new flags and arguments, or stop at it.
pub data Step : Type 0 where
  reswitch : Flags → Args → Step
  stop : Step

unfoldable pub flag_step : ℕ → Flags → Args → Run Step
unfolding get_int process_precision
flag_step ch fl ap =
    if ch == b'-'
    then done (reswitch (record fl { padc = b'-' }) ap)
    else if ch == b'0'
    then done (reswitch (record fl { padc = b'0' }) ap)
    else if leb b'1' ch && leb ch b'9'
    then done (reswitch (record fl { precision = pos (ch - b'0'); number = true }) ap)
    else if ch == b'*'
    then get_int ap
      >>= (λ r. done (reswitch (process_precision (record fl { precision = signed32 r.0 })) r.1))
    else if ch == b'.'
    then done (reswitch (if ltb_ℤ fl.width (pos 0) then record fl { width = pos 0 } else fl) ap)
    else if ch == b'#'
    then done (reswitch (record fl { altflag = true }) ap)
    else if ch == b'l'
    then done (reswitch (record fl { lflag = fl.lflag + 1 }) ap)
    else done stop

-- One more digit of a number.
abbrev pub accumulate : Flags → ℕ → Flags
accumulate fl ch = record fl { precision = pos (pos_part fl.precision * 10 + ch - b'0') }

abbrev pub is_digit : ℕ → Bool
is_digit ch = leb b'0' ch && leb ch b'9'

-- From `reswitch:` to the conversion character: that character, the format behind it, the flags
-- and the arguments left.
unfoldable pub scan : Bytes → Flags → Args → Run (ℕ × Bytes × Flags × Args)
scan [] fl ap = fault
scan (ch ∷ s) fl ap =
    let more = scan s (accumulate fl ch) ap in
    if fl.number && is_digit ch
    then more
    else let fl' = if fl.number then process_precision fl else fl in
      flag_step ch fl' ap
      >>= (λ r. elim r [ reswitch fl'' ap' ↦ scan s fl'' ap' | stop ↦ done (ch, s, fl', ap) ])
