-- ===== src/CString/Strtol/Numeral.antt =====
-- lib/string.c: the whole of strtol on a numeral with spaces, a sign and a base prefix.
use jos_smp.Base.{ℕ, ◌<◌, ◌≤◌, ◌≡◌, ◌≢◌, ◌⊎◌, Bool, true, false, [], ◌∷◌, ◌++◌, length}
use jos_smp.CString.Defs.{Bytes}

abbrev pub AllSpace : Bytes → Type 0
AllSpace [] = Unit
AllSpace (c ∷ s) = ((c ≡ b' ') ⊎ (c ≡ 9)) × AllSpace s

pub data Sign : Type 0 where
  bare plus minus : Sign

abbrev pub sign_text : Sign → Bytes
sign_text bare = []
sign_text plus = b'+' ∷ []
sign_text minus = b'-' ∷ []

abbrev pub is_minus : Sign → Bool
is_minus minus = true
is_minus bare = false
is_minus plus = false

-- How the numeral shows its base: by the argument, by no prefix, by `0x`, or by `0`.
pub data Form : Type 0 where
  given decimal hex octal : Form

abbrev pub form_text : Form → Bytes
form_text given = []
form_text decimal = []
form_text hex = b'0' ∷ b'x' ∷ []
form_text octal = b'0' ∷ []

abbrev pub NonzeroHead : Bytes → Type 0
NonzeroHead [] = ⊥
NonzeroHead (d ∷ ds) = d ≢ 0

-- The digits `ds` under the argument `base` are read in the base `actual`.
abbrev pub Fits : Form → ℕ → ℕ → Bytes → Type 0
Fits given base actual ds = (base ≢ 0) × (actual ≡ base) × (0 < length ds)
Fits decimal base actual ds = (base ≡ 0) × (actual ≡ 10) × NonzeroHead ds
Fits hex base actual ds = ((base ≡ 0) ⊎ (base ≡ 16)) × (actual ≡ 16)
Fits octal base actual ds = (base ≡ 0) × (actual ≡ 8)

-- What follows the spaces and the sign begins with a character at or above '0'.
abbrev Starts : Bytes → Type 0
Starts [] = ⊥
Starts (c ∷ s) = b'0' ≤ c

-- The numeral behind the sign: its prefix, its digits, and what ends it.
abbrev pub body_text : Form → Bytes → ℕ → Bytes → Bytes
body_text form cs x rest = form_text form ++ (cs ++ x ∷ rest)
