-- ===== src/CString/Tests.antt =====
-- lib/string.c: runs of the reading routines, and each theorem at an input.
use jos_smp.Base.{none, ◌-◌, ◌^◌, ◌≡◌, ◌↔◌, refl, arith, some, [], ◌∷◌, ◌++◌, codes}
use jos_smp.Base.Int.{ℤ, pos, neg}
use jos_smp.CString.Defs.{Bytes, strlen, strcmp, strncmp, strchr, strfind}
use jos_smp.CString.Compare.{strcmp_lem}
use jos_smp.CString.Strtol.{
  strtol, strtol_space, strtol_sign, strtol_prefix, strtol_digits, digit_of,
}

-- " \t-0x1Fg" under base 0.
hex_run :
    strtol (32 ∷ 9 ∷ b'-' ∷ b'0' ∷ b'x' ∷ b'1' ∷ b'F' ∷ b'g' ∷ 0 ∷ []) 0 ≡ some (2 ^ 32 - 31, 7)
unfolding strtol strtol_space strtol_sign strtol_prefix strtol_digits digit_of
hex_run = refl

abbrev help : Bytes
help = codes "help"

abbrev hello : Bytes
hello = codes "hello"

strlen_run : strlen (help ++ 0 ∷ 7 ∷ []) ≡ some 4
unfolding strlen
strlen_run = refl

find_run :
    (strfind (help ++ 0 ∷ hello) b':' ≡ some 4) × (strchr (help ++ 0 ∷ hello) b':' ≡ some none)
unfolding strfind strchr
find_run = (refl, refl)

strcmp_lem_example :
    (d : ℤ) × (strcmp (help ++ 0 ∷ 3 ∷ []) (hello ++ 0 ∷ []) ≡ some d)
    × (strcmp (hello ++ 0 ∷ []) (help ++ 0 ∷ 3 ∷ []) ≡ some (neg d))
    × ((d ≡ pos 0) ↔ (help ≡ hello))
    × (strncmp (help ++ 0 ∷ 3 ∷ []) (hello ++ 0 ∷ []) 3
        ≡ strcmp (codes "hel" ++ 0 ∷ []) (codes "hel" ++ 0 ∷ []))
strcmp_lem_example = strcmp_lem help hello (3 ∷ []) [] 3 (omega arith) (omega arith)
