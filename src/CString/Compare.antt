-- ===== src/CString/Compare.antt =====
-- lib/string.c: what strcmp, strncmp and memcmp return.
use jos_smp.Base.{
  ℕ, zero, suc, ◌≡◌, ◌↔◌, ◌∙◌, sym, refl, some, [], ◌∷◌, ◌++◌, arith, length, take, ◌==◌,
  if◌then◌else◌,
}
use jos_smp.Base.Int.{ℤ, pos, neg, sub_ℕ}
use jos_smp.CString.Defs.{Bytes, strcmp, strncmp, memcmp}
use jos_smp.CString.Scan.{IsText}

-- The sign of the byte order of two texts, each followed by a zero: the difference of the first
-- two bytes that differ, 0 if there are none.
abbrev pub text_diff : Bytes → Bytes → ℤ
text_diff [] [] = pos 0
text_diff [] (b ∷ q) = sub_ℕ 0 b
text_diff (a ∷ p) [] = pos a
text_diff (a ∷ p) (b ∷ q) = let rest = text_diff p q in if a == b then rest else sub_ℕ a b

-- On terminated strings `strcmp` returns the difference of the first bytes that differ.
pub strcmp-text_diff :
    (p q r r' : Bytes)
    → IsText p
    → IsText q
    → strcmp (p ++ 0 ∷ r) (q ++ 0 ∷ r') ≡ some (text_diff p q)
unfolding strcmp
strcmp-text_diff [] [] r r' h k = ground arith
strcmp-text_diff [] (b ∷ q) r r' h k = ground arith
strcmp-text_diff (a ∷ p) [] r r' h k = ground arith
strcmp-text_diff (a ∷ p) (b ∷ q) r r' h k = ground (arith, strcmp-text_diff p q r r' h.1 k.1)

text_diff-zero : (p q : Bytes) → IsText p → IsText q → text_diff p q ≡ pos 0 → p ≡ q
text_diff-zero [] [] h k e = refl
text_diff-zero [] (b ∷ q) h k e = ground arith
text_diff-zero (a ∷ p) [] h k e = ground arith
text_diff-zero (a ∷ p) (b ∷ q) h k e = ground (arith, text_diff-zero p q h.1 k.1)

text_diff_self : (p : Bytes) → text_diff p p ≡ pos 0
text_diff_self [] = refl
text_diff_self (a ∷ p) = ground (arith, text_diff_self p)

-- `strcmp` of two terminated strings is 0 exactly when their characters are the same.
pub strcmp-zero_iff :
    (p q r r' : Bytes)
    → IsText p
    → IsText q
    → (strcmp (p ++ 0 ∷ r) (q ++ 0 ∷ r') ≡ some (pos 0)) ↔ (p ≡ q)
strcmp-zero_iff p q r r' h k = (
  λ e. text_diff-zero p q h k (ground (arith, strcmp-text_diff p q r r' h k)),
  λ e. ground (arith, strcmp-text_diff p q r r' h k, text_diff_self p),
)

text_diff_swap : (p q : Bytes) → text_diff q p ≡ neg (text_diff p q)
text_diff_swap [] [] = refl
text_diff_swap [] (b ∷ q) = ground arith
text_diff_swap (a ∷ p) [] = ground arith
text_diff_swap (a ∷ p) (b ∷ q) = ground (arith, text_diff_swap p q)

-- Exchanging the arguments of `strcmp` negates its result.
pub strcmp_swap :
    (p q r r' : Bytes)
    → IsText p
    → IsText q
    → (d : ℤ) × (strcmp (p ++ 0 ∷ r) (q ++ 0 ∷ r') ≡ some d)
      × (strcmp (q ++ 0 ∷ r') (p ++ 0 ∷ r) ≡ some (neg d))
strcmp_swap p q r r' h k = (
  text_diff p q,
  strcmp-text_diff p q r r' h k,
  ground (arith, strcmp-text_diff q p r' r k h, text_diff_swap p q),
)

-- `strncmp` of two terminated strings compares their first `n` characters.
pub strncmp-take :
    (p q r r' : Bytes) (n : ℕ)
    → IsText p
    → IsText q
    → strncmp (p ++ 0 ∷ r) (q ++ 0 ∷ r') n ≡ some (text_diff (take n p) (take n q))
unfolding strncmp
strncmp-take p q r r' zero h k = ground arith
strncmp-take [] [] r r' (suc n) h k = ground arith
strncmp-take [] (b ∷ q) r r' (suc n) h k = ground arith
strncmp-take (a ∷ p) [] r r' (suc n) h k = ground arith
strncmp-take (a ∷ p) (b ∷ q) r r' (suc n) h k = ground (arith, strncmp-take p q r r' n h.1 k.1)

IsText-take : (n : ℕ) (p : Bytes) → IsText p → IsText (take n p)
IsText-take zero [] h = tt
IsText-take zero (c ∷ p) h = tt
IsText-take (suc n) [] h = tt
IsText-take (suc n) (c ∷ p) (ne, h) = (ne, IsText-take n p h)

-- On two terminated strings `strcmp` returns a number; exchanging its arguments negates that, it is
-- 0 exactly when the strings' characters are the same; and `strncmp` gives what `strcmp` gives of the
-- strings cut after `n` characters.
pub strcmp_lem :
    (p q r r' : Bytes) (n : ℕ)
    → IsText p
    → IsText q
    → (d : ℤ) × (strcmp (p ++ 0 ∷ r) (q ++ 0 ∷ r') ≡ some d)
      × (strcmp (q ++ 0 ∷ r') (p ++ 0 ∷ r) ≡ some (neg d))
      × ((d ≡ pos 0) ↔ (p ≡ q))
      × (strncmp (p ++ 0 ∷ r) (q ++ 0 ∷ r') n ≡ strcmp (take n p ++ 0 ∷ []) (take n q ++ 0 ∷ []))
strcmp_lem p q r r' n h k = (
  text_diff p q,
  strcmp-text_diff p q r r' h k,
  ground (arith, strcmp-text_diff q p r' r k h, text_diff_swap p q),
  (λ e. text_diff-zero p q h k e, λ e. rw e (text_diff_self q)),
  strncmp-take p q r r' n h k
      ∙ sym (strcmp-text_diff (take n p) (take n q) [] [] (IsText-take n p h) (IsText-take n q k)),
)

-- `memcmp` of two blocks of `n` bytes is 0 exactly when the blocks are the same.
pub memcmp-zero_iff :
    (s1 s2 r r' : Bytes) (n : ℕ)
    → length s1 ≡ n
    → length s2 ≡ n
    → (memcmp (s1 ++ r) (s2 ++ r') n ≡ some (pos 0)) ↔ (s1 ≡ s2)
unfolding memcmp
memcmp-zero_iff [] [] r r' zero e f = (λ _. refl, λ _. ground arith)
memcmp-zero_iff [] s2 r r' (suc n) e f = absurd (omega arith)
memcmp-zero_iff (a ∷ s1) s2 r r' zero e f = absurd (omega arith)
memcmp-zero_iff [] (b ∷ s2) r r' zero e f = absurd (omega arith)
memcmp-zero_iff (a ∷ s1) [] r r' (suc n) e f = absurd (omega arith)
memcmp-zero_iff (a ∷ s1) (b ∷ s2) r r' (suc n) e f =
    let ih = memcmp-zero_iff s1 s2 r r' n (omega arith) (omega arith) in
    (λ h. ground (arith, ih.0), λ h. ground (arith, ih.1))
