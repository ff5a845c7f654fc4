-- ===== src/CString/Scan.antt =====
-- lib/string.c: what strlen and strnlen return.
use jos_smp.Base.{
  ℕ, zero, suc, ◌+◌, ◌≡◌, ◌≢◌, some, [], ◌∷◌, ◌++◌, arith, length, min, Bool-cases, inl, inr, ◌==◌,
}
use jos_smp.CString.Defs.{Bytes, strlen, strlen_loop, strnlen, strnlen_loop}

-- The characters of a C string: no byte of it is zero.
abbrev pub IsText : Bytes → Type 0
IsText [] = Unit
IsText (c ∷ s) = (c ≢ 0) × IsText s

strlen_loop-text :
    (s rest : Bytes) (n : ℕ) → IsText s → strlen_loop (s ++ 0 ∷ rest) n ≡ some (n + length s)
unfolding strlen_loop
strlen_loop-text [] rest n h = ground arith
strlen_loop-text (c ∷ s) rest n h = ground (arith, strlen_loop-text s rest (n + 1) h.1)

-- For a terminated string `strlen` counts the characters before the terminator, whatever follows.
pub strlen-text : (s rest : Bytes) → IsText s → strlen (s ++ 0 ∷ rest) ≡ some (length s)
unfolding strlen
strlen-text s rest h = ground (arith, strlen_loop-text s rest 0 h)

strlen_loop-split :
    (s : Bytes) (n k : ℕ)
    → strlen_loop s n ≡ some k
    → (text : Bytes) × (rest : Bytes) × IsText text × (s ≡ text ++ 0 ∷ rest) × (k ≡ n + length text)
unfolding strlen_loop
strlen_loop-split [] n k h = cc
strlen_loop-split (c ∷ s) n k h = elim (Bool-cases (c == 0)) [
  | inl z ↦ ([], s, tt, ground arith, ground arith)
  | inr nz ↦
      let (text, rest, p, e, l) = strlen_loop-split s (n + 1) k (rw nz at h) in
      (c ∷ text, rest, (ground arith, p), ground arith, ground arith)
]

-- When `strlen` returns, the object holds a terminated string of that length at its start.
pub strlen-split :
    (s : Bytes) (k : ℕ)
    → strlen s ≡ some k
    → (text : Bytes) × (rest : Bytes) × IsText text × (s ≡ text ++ 0 ∷ rest) × (k ≡ length text)
unfolding strlen
strlen-split s k h =
    let (text, rest, p, e, l) = strlen_loop-split s 0 k h in (text, rest, p, e, omega arith)

strnlen_loop-text :
    (s rest : Bytes) (size n : ℕ)
    → IsText s
    → strnlen_loop (s ++ 0 ∷ rest) size n ≡ some (n + min size (length s))
unfolding strnlen_loop
strnlen_loop-text s rest zero n h = ground arith
strnlen_loop-text [] rest (suc size) n h = ground arith
strnlen_loop-text (c ∷ s) rest (suc size) n h =
    ground (arith, strnlen_loop-text s rest size (n + 1) h.1)

-- On a terminated string `strnlen` returns the smaller of the size and the length.
pub strnlen-text :
    (s rest : Bytes) (size : ℕ)
    → IsText s
    → strnlen (s ++ 0 ∷ rest) size ≡ some (min size (length s))
unfolding strnlen
strnlen-text s rest size h = ground (arith, strnlen_loop-text s rest size 0 h)
