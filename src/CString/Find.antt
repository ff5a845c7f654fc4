-- ===== src/CString/Find.antt =====
-- lib/string.c: what strchr, strfind and memfind return.
use jos_smp.Base.{
  ℕ, zero, suc, ◌+◌, ◌%◌, ◌≡◌, ◌<◌, ◌≢◌, none, some, [], ◌∷◌, ◌++◌, arith, length, inl, inr, ◌⊎◌,
  ◌==◌, if◌then◌else◌,
}
use jos_smp.CString.Defs.{Bytes, strchr, strchr_loop, strfind, strfind_loop, memfind, memfind_loop}
use jos_smp.CString.Scan.{IsText}

-- No byte of the list is `c`.
abbrev pub Lacks : ℕ → Bytes → Type 0
Lacks c [] = Unit
Lacks c (x ∷ s) = (x ≢ c) × Lacks c s

strchr_loop-hit :
    (pre rest : Bytes) (c i : ℕ)
    → IsText pre
    → Lacks c pre
    → c ≢ 0
    → strchr_loop (pre ++ c ∷ rest) c i ≡ some (some (i + length pre))
unfolding strchr_loop
strchr_loop-hit [] rest c i t l nz = ground arith
strchr_loop-hit (x ∷ pre) rest c i t l nz =
    ground (arith, strchr_loop-hit pre rest c (i + 1) t.1 l.1)

strchr_loop-miss :
    (s rest : Bytes) (c i : ℕ) → IsText s → Lacks c s → strchr_loop (s ++ 0 ∷ rest) c i ≡ some none
unfolding strchr_loop
strchr_loop-miss [] rest c i t l = ground arith
strchr_loop-miss (x ∷ s) rest c i t l = ground (arith, strchr_loop-miss s rest c (i + 1) t.1 l.1)

-- `strchr` with a nonzero `c` returns the distance to the first `c` where that comes before the
-- terminator, and the null pointer where the terminator comes first.
pub strchr_lem :
    (pre rest : Bytes) (c x : ℕ)
    → IsText pre
    → Lacks c pre
    → c ≢ 0
    → (x ≡ c) ⊎ (x ≡ 0)
    → strchr (pre ++ x ∷ rest) c ≡ some (if x == 0 then none else some (length pre))
unfolding strchr
strchr_lem pre rest c x t l nz (inl e) = rw e (ground (arith, strchr_loop-hit pre rest c 0 t l nz))
strchr_lem pre rest c x t l nz (inr e) = rw e (strchr_loop-miss pre rest c 0 t l)

strfind_loop-hit :
    (pre rest : Bytes) (c x i : ℕ)
    → IsText pre
    → Lacks c pre
    → (x ≡ c) ⊎ (x ≡ 0)
    → strfind_loop (pre ++ x ∷ rest) c i ≡ some (i + length pre)
unfolding strfind_loop
strfind_loop-hit [] rest c x i t l e = ground arith
strfind_loop-hit (y ∷ pre) rest c x i t l e =
    ground (arith, strfind_loop-hit pre rest c x (i + 1) t.1 l.1 e)

-- `strfind` returns the distance to the first `c`, or to the terminator if that comes first.
pub strfind_lem :
    (pre rest : Bytes) (c x : ℕ)
    → IsText pre
    → Lacks c pre
    → (x ≡ c) ⊎ (x ≡ 0)
    → strfind (pre ++ x ∷ rest) c ≡ some (length pre)
unfolding strfind
strfind_lem pre rest c x t l e = ground (arith, strfind_loop-hit pre rest c x 0 t l e)

-- Where the first `c` of a string comes before its terminator, and `c` is not 0, `strchr` and
-- `strfind` return the distance to it; where the terminator comes first, `strchr` returns the null
-- pointer, and `strfind` the distance to the terminator.
pub strchr-strfind :
    (pre rest : Bytes) (c x : ℕ)
    → IsText pre
    → Lacks c pre
    → c ≢ 0
    → (x ≡ c) ⊎ (x ≡ 0)
    → (strfind (pre ++ x ∷ rest) c ≡ some (length pre))
      × (strchr (pre ++ x ∷ rest) c ≡ some (if x == 0 then none else some (length pre)))
strchr-strfind pre rest c x t l nz e =
    (strfind_lem pre rest c x t l e, strchr_lem pre rest c x t l nz e)

memfind_loop-hit :
    (pre rest : Bytes) (c n i : ℕ)
    → Lacks (c % 256) pre
    → length pre < n
    → memfind_loop (pre ++ (c % 256) ∷ rest) c n i ≡ some (i + length pre)
unfolding memfind_loop
memfind_loop-hit pre rest c zero i l h = absurd (omega arith)
memfind_loop-hit [] rest c (suc n) i l h = ground arith
memfind_loop-hit (x ∷ pre) rest c (suc n) i l h =
    ground (arith, memfind_loop-hit pre rest c n (i + 1) l.1)

memfind_loop-miss :
    (s rest : Bytes) (c i : ℕ)
    → Lacks (c % 256) s
    → memfind_loop (s ++ rest) c (length s) i ≡ some (i + length s)
unfolding memfind_loop
memfind_loop-miss [] rest c i l = ground arith
memfind_loop-miss (x ∷ s) rest c i l = ground (arith, memfind_loop-miss s rest c (i + 1) l.1)

-- `memfind` returns the distance to the first byte equal to `(unsigned char) c` among the first
-- `n`, and `n` where none of those is; zero bytes do not stop it.
pub memfind_lem :
    (s rest : Bytes) (c n : ℕ)
    → Lacks (c % 256) s
    → (length s ≡ n) ⊎ ((post : Bytes) × (length s < n) × (rest ≡ (c % 256) ∷ post))
    → memfind (s ++ rest) c n ≡ some (length s)
unfolding memfind
memfind_lem s rest c n l (inl e) = rw (← e) (ground (arith, memfind_loop-miss s rest c 0 l))
memfind_lem s rest c n l (inr (post, h, e)) =
    rw e (ground (arith, memfind_loop-hit s post c n 0 l h))
