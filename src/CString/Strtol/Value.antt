-- ===== src/CString/Strtol/Value.antt =====
-- lib/string.c: strtol returns the value of the numeral and points behind its last digit.
use native.Mathlib.Nat.{div-add-mod}
use jos_smp.Base.{
  ℕ, ◌+◌, ◌*◌, ◌%◌, ◌^◌, ◌<◌, ◌≤◌, ◌≡◌, ◌≢◌, true, false, some, [], ◌∷◌, ◌++◌, arith, length, ◌-◌,
  List, ◌⊎◌, leb, Option-cases, inl, inr, ap,
}
use jos_smp.CString.Defs.{Bytes}
use jos_smp.CString.Strtol.{strtol_digits, digit_of}
use jos_smp.Printfmt.Digits.{value, AllBelow}

-- A character is the digit `d`: '0' to '9', or a letter, in either case.
abbrev pub IsDigit : ℕ → ℕ → Type 0
IsDigit c d =
    ((d < 10) × (c ≡ b'0' + d))
    ⊎ ((10 ≤ d) × (d < 36) × ((c ≡ b'a' + (d - 10)) ⊎ (c ≡ b'A' + (d - 10))))

-- A text is the digits of a list.
abbrev pub Spells : Bytes → List ℕ → Type 0
Spells [] [] = Unit
Spells [] (d ∷ ds) = ⊥
Spells (c ∷ cs) [] = ⊥
Spells (c ∷ cs) (d ∷ ds) = IsDigit c d × Spells cs ds

digit_of-IsDigit : (c d : ℕ) → IsDigit c d → digit_of c ≡ some d
unfolding digit_of
digit_of-IsDigit c d is = ground arith

-- A character at which the digits end.
abbrev pub Ends : ℕ → ℕ → Type 0
Ends base x = (d : ℕ) → digit_of x ≡ some d → base ≤ d

-- Reducing between the steps changes nothing.
step_mod : (val base d : ℕ) → ((val % 2 ^ 32) * base + d) % 2 ^ 32 ≡ (val * base + d) % 2 ^ 32
step_mod val base d = omega (arith, ap (λ (t : ℕ). t * base) (div-add-mod val (2 ^ 32)))

pub strtol_digits-value :
    (cs : Bytes) (ds rest : List ℕ) (x base val i : ℕ)
    → Spells cs ds
    → AllBelow base ds
    → Ends base x
    → strtol_digits (cs ++ x ∷ rest) base (val % 2 ^ 32) i
      ≡ some (value base val ds % 2 ^ 32, i + length ds)
unfolding strtol_digits
strtol_digits-value [] [] rest x base val i is h e = elim (Option-cases (digit_of x)) [
  | inl n ↦ rw (n, strtol_digits) (ground arith)
  | inr (d, p) ↦
      let n : leb base d ≡ true = ground (arith, e d p) in rw (p, strtol_digits, n) (ground arith)
]
strtol_digits-value [] (d ∷ ds) rest x base val i is h e = absurd is
strtol_digits-value (c ∷ cs) [] rest x base val i is h e = absurd is
strtol_digits-value (c ∷ cs) (d ∷ ds) rest x base val i is h e =
    let n : leb base d ≡ false = ground arith in
    rw
      (
        digit_of-IsDigit c d is.0,
        strtol_digits,
        n,
        step_mod val base d,
        strtol_digits-value cs ds rest x base (val * base + d) (i + 1) is.1 h.1 e,
      )
      (ground arith)

-- No digit is a space, a sign or a zero byte; only 0 looks like '0', and none below 16 like 'x'.
pub IsDigit-bound : (c d : ℕ) → IsDigit c d → b'0' ≤ c
IsDigit-bound c d is = ground arith

pub IsDigit-nonzero : (c d : ℕ) → IsDigit c d → d ≢ 0 → c ≢ b'0'
IsDigit-nonzero c d is n e = ground arith

pub IsDigit-ne_x : (c d : ℕ) → IsDigit c d → d < 16 → c ≢ b'x'
IsDigit-ne_x c d is low e = ground arith

-- The terminator ends the digits in every base.
pub Ends-zero : (base : ℕ) → Ends base 0
unfolding digit_of
Ends-zero base d e = cc
