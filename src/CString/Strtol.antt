-- ===== src/CString/Strtol.antt =====
-- lib/string.c: strtol, over the bytes from `s` on. The `long` value is its 32-bit pattern: the
-- multiplication and the addition wrap. `none` is a read past the end of the object.
pub mod Value
pub mod Numeral
use jos_smp.Base.{
  ℕ, zero, suc, ◌+◌, ◌-◌, ◌*◌, ◌%◌, ◌^◌, Bool, true, false, ◌||◌, ◌&&◌, Option, none, some, List,
  [], ◌∷◌, ◌==◌, leb, ltb, if◌then◌else◌,
}
use jos_smp.CString.Defs.{Bytes}

-- `while (*s == ' ' || *s == '\t') s++;` with the distance walked.
unfoldable pub strtol_space : Bytes → ℕ → Option (Bytes × ℕ)
strtol_space [] i = none
strtol_space (c ∷ s) i =
    let rest = strtol_space s (i + 1) in if c == b' ' || c == 9 then rest else some (c ∷ s, i)

-- The plus or minus sign: whether it was `-`, and what follows.
unfoldable pub strtol_sign : Bytes → ℕ → Bool × Bytes × ℕ
strtol_sign [] i = (false, [], i)
strtol_sign (c ∷ s) i =
    if c == b'+'
    then (false, s, i + 1)
    else if c == b'-'
    then (true, s, i + 1)
    else (false, c ∷ s, i)

-- `s[1] == 'x'`, read only where `s[0] == '0'`.
unfoldable pub is_x : Bytes → Option Bool
is_x [] = none
is_x (c ∷ s) = some (c == b'x')

-- What is left, the distance, and the base.
unfoldable pub strtol_prefix : Bytes → ℕ → ℕ → Option (Bytes × ℕ × ℕ)
unfolding is_x
strtol_prefix [] i base = if base == 0 || base == 16 then none else some ([], i, base)
strtol_prefix (c ∷ s) i base =
    if (base == 0 || base == 16) && c == b'0'
    then elim (is_x s) [
      | none ↦ none
      | some true ↦ elim s [ [] ↦ none | x ∷ t ↦ some (t, i + 2, 16) ]
      | some false ↦ if base == 0 then some (s, i + 1, 8) else some (c ∷ s, i, base)
    ]
    else if base == 0
    then some (c ∷ s, i, 10)
    else some (c ∷ s, i, base)

-- The value of a character as a digit, if it is one in any base.
unfoldable pub digit_of : ℕ → Option ℕ
digit_of c =
    if leb b'0' c && leb c b'9'
    then some (c - b'0')
    else if leb b'a' c && leb c b'z'
    then some (c - b'a' + 10)
    else if leb b'A' c && leb c b'Z'
    then some (c - b'A' + 10)
    else none

unfoldable pub strtol_digits : Bytes → ℕ → ℕ → ℕ → Option (ℕ × ℕ)
strtol_digits [] base val i = none
strtol_digits (c ∷ s) base val i = elim (digit_of c) [
  | none ↦ some (val, i)
  | some dig ↦
      let rest = strtol_digits s base ((val * base + dig) % 2 ^ 32) (i + 1) in
      if leb base dig then some (val, i) else rest
]

abbrev pub negate : Bool → ℕ → ℕ
negate true val = (2 ^ 32 - val) % 2 ^ 32
negate false val = val

-- The value's pattern, and the distance to `*endptr`.
unfoldable pub strtol : Bytes → ℕ → Option (ℕ × ℕ)
strtol s base = elim (strtol_space s 0) [
  | none ↦ none
  | some (s1, i1) ↦
      let (minus, s2, i2) = strtol_sign s1 i1 in
      elim (strtol_prefix s2 i2 base) [
        | none ↦ none
        | some (s3, i3, base') ↦ elim (strtol_digits s3 base' 0 i3) [
          | none ↦ none
          | some (val, i) ↦ some (negate minus val, i)
        ]
      ]
]
