-- ===== src/Printfmt/Varargs.antt =====
-- inc/stdarg.h, and the use that lib/printfmt.c makes of it: a va_list is a pointer to the arguments
-- that the caller pushed, and the list of arguments of the other modules is what it points at.
use jos_smp.Base.{ℕ, ◌+◌, ◌-◌, ◌*◌, ◌/◌, ◌^◌, Option, List, [], ◌∷◌, leb, ltb, if◌then◌else◌}
use jos_smp.Base.Word.{add32, sub32}
use jos_smp.CString.Defs.{Bytes}
use jos_smp.Cpu.Strings.{load32}
use jos_smp.Memory.Defs.{Mem}
use jos_smp.Printfmt.Format
use jos_smp.Printfmt.Format.{Args, Run, done, ◌>>=◌, get_int, get_str}

-- `__va_size(type)`, by the type's size: rounded up to whole `long`s.
abbrev pub va_size : ℕ → ℕ
va_size size = (size + 4 - 1) / 4 * 4

-- `va_start(ap, last)`, by the address and the size of `last`.
unfoldable pub va_start : ℕ → ℕ → ℕ
va_start last size = add32 last (va_size size)

-- `va_arg(ap, type)` of 32 and of 64 bits: what it reads, and the new `ap`.
unfoldable pub va_arg32 : Mem → ℕ → ℕ × ℕ
va_arg32 m list = let list' = add32 list (va_size 4) in (load32 m (sub32 list' (va_size 4)), list')

unfoldable pub va_arg64 : Mem → ℕ → ℕ × ℕ
va_arg64 m list =
    let list' = add32 list (va_size 8) in
    let p = sub32 list' (va_size 8) in (load32 m p + 2 ^ 32 * load32 m (add32 p 4), list')

-- getuint and getint, by the address of their va_list's target.
unfoldable pub getuint : ℕ → Mem → ℕ → ℕ × ℕ
getuint lflag m list = if leb 2 lflag then va_arg64 m list else va_arg32 m list

unfoldable pub getint : ℕ → Mem → ℕ → ℕ × ℕ
getint lflag m list =
    let (w, list') = va_arg32 m list in
    if leb 2 lflag
    then va_arg64 m list
    else (if ltb w (2 ^ 31) then w else w + (2 ^ 64 - 2 ^ 32), list')

-- The ways in which vprintfmt takes an argument.
pub data Take : Type 0 where
  unsigned_number : (lflag : ℕ) → Take
  signed_number : (lflag : ℕ) → Take
  an_int : Take
  a_string : Take

-- What it takes from a list of arguments: a number, or a string or null.
pub data Taken : Type 0 where
  number : ℕ → Taken
  text : Option Bytes → Taken

abbrev as_number : ℕ × Args → Run (Taken × Args)
as_number r = done (number r.0, r.1)

abbrev as_text : Option Bytes × Args → Run (Taken × Args)
as_text r = done (text r.0, r.1)

unfoldable pub take : Take → Args → Run (Taken × Args)
unfolding Format.getuint Format.getint get_int get_str
take (unsigned_number lflag) args = Format.getuint lflag args >>= as_number
take (signed_number lflag) args = Format.getint lflag args >>= as_number
take an_int args = get_int args >>= as_number
take a_string args = get_str args >>= as_text

-- And by the pointer: a pattern, and the new pointer.
unfoldable pub take_at : Take → Mem → ℕ → ℕ × ℕ
unfolding getuint getint
take_at (unsigned_number lflag) m list = getuint lflag m list
take_at (signed_number lflag) m list = getint lflag m list
take_at an_int m list = va_arg32 m list
take_at a_string m list = va_arg32 m list

unfoldable pub take_all : List Take → Args → Run (List Taken × Args)
take_all [] args = done ([], args)
take_all (t ∷ ts) args = take t args >>= (λ (r : Taken × Args).
    take_all ts r.1 >>= (λ (s : List Taken × Args). done (r.0 ∷ s.0, s.1)))

unfoldable pub take_all_at : List Take → Mem → ℕ → List ℕ × ℕ
take_all_at [] m list = ([], list)
take_all_at (t ∷ ts) m list =
    let (v, list') = take_at t m list in
    let (vs, list'') = take_all_at ts m list' in (v ∷ vs, list'')
