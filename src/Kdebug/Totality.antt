-- ===== src/Kdebug/Totality.antt =====
-- kern/kdebug.c: the loops of debuginfo_eip behind the searches end inside of their tables.
use jos_smp.Base.{
  ℕ, zero, suc, ◌+◌, ◌-◌, ◌<◌, ◌≤◌, ◌≡◌, refl, Bool-cases, inl, inr, List, [], ◌∷◌, Option, none,
  some, ◌==◌, length, drop, get_or, arith, ltb, sym, ◌∙◌,
}
use jos_smp.CString.Defs.{Bytes, strfind, strfind_loop}
use jos_smp.Printfmt.Format.{done}
use jos_smp.Printfmt.Print.{literal}
use jos_smp.Kdebug.Search.{Stab}
use jos_smp.Kdebug.Invariant.{stab_at, get_elem?-stab_at}
use jos_smp.Kdebug.Eip.{stab_of, name_at, names_file, file_back, count_args, n_psym}

-- A table of names: its last byte is zero.
abbrev pub IsClosed : Bytes → Type 0
IsClosed s = (0 < length s) × (get_or s (length s - 1) 0 ≡ 0)

last_of_tail :
    (x y : ℕ) (s : Bytes)
    → get_or (x ∷ y ∷ s) (length (x ∷ y ∷ s) - 1) 0 ≡ get_or (y ∷ s) (length (y ∷ s) - 1) 0
last_of_tail x y s = let e : length (x ∷ y ∷ s) - 1 ≡ suc (length (y ∷ s) - 1) = omega arith in rw e

strfind_loop-ends :
    (s : Bytes) (c i : ℕ)
    → 0 < length s
    → get_or s (length s - 1) 0 ≡ 0
    → (n : ℕ) × (strfind_loop s c i ≡ some n)
unfolding strfind_loop
strfind_loop-ends [] c i h e = absurd (omega arith)
strfind_loop-ends (x ∷ []) c i h e = (i, ground arith)
strfind_loop-ends (x ∷ y ∷ s) c i h e = elim (Bool-cases (x == 0)) [
  | inl z ↦ (i, rw z)
  | inr n ↦ elim (Bool-cases (x == c)) [
    | inl z ↦ (i, rw (n, z))
    | inr n' ↦
        rw (n, n')
          (strfind_loop-ends (y ∷ s) c (i + 1) (omega arith) (sym (last_of_tail x y s) ∙ e))
  ]
]

drop-IsClosed : (n : ℕ) (s : Bytes) → n < length s → IsClosed s → IsClosed (drop n s)
drop-IsClosed zero s h c = c
drop-IsClosed (suc n) [] h c = absurd (omega arith)
drop-IsClosed (suc n) (x ∷ []) h c = absurd (omega arith)
drop-IsClosed (suc n) (x ∷ y ∷ s) h c =
    drop-IsClosed n (y ∷ s) (omega arith) (omega arith, sym (last_of_tail x y s) ∙ c.1)

-- The name of a function ends, whether it is in the table or unknown.
pub strfind-name_at :
    (stabstr : Bytes) (strx c : ℕ)
    → IsClosed stabstr
    → (n : ℕ) × (strfind (name_at stabstr strx (literal "<unknown>")) c ≡ some n)
unfolding strfind name_at
strfind-name_at stabstr strx c closed = elim (Bool-cases (ltb strx (length stabstr))) [
  | inl y ↦
      let d : IsClosed (drop strx stabstr) = drop-IsClosed strx stabstr (ground arith) closed in
      rw y (strfind_loop-ends (drop strx stabstr) c 0 d.0 d.1)
  | inr n ↦ rw n (strfind_loop-ends (literal "<unknown>") c 0 (omega arith) refl)
]

module _ (stabs : List Stab) where
  pub stab_of-stab_at : (i : ℕ) → i < length stabs → stab_of stabs i ≡ done (stab_at stabs i)
  unfolding stab_of
  stab_of-stab_at i h = rw (get_elem?-stab_at stabs i h)

  pub file_back-ends :
      (l k : ℕ) → l + k ≤ length stabs → (hit : Option Stab) × (file_back stabs l k ≡ done hit)
  unfolding file_back
  file_back-ends l zero h = (none, refl)
  file_back-ends l (suc k) h =
      rw (get_elem?-stab_at stabs (l + k) (omega arith), file_back)
        (elim (Bool-cases (names_file (stab_at stabs (l + k)))) [
          | inl y ↦ rw y (some (stab_at stabs (l + k)), refl)
          | inr n ↦ rw n (file_back-ends l k (omega arith))
        ])

  pub count_args-ends : (l k : ℕ) → l + k ≤ length stabs → (n : ℕ) × (count_args stabs l k ≡ done n)
  unfolding count_args
  count_args-ends l zero h = (0, refl)
  count_args-ends l (suc k) h =
      rw (get_elem?-stab_at stabs l (omega arith), count_args)
        (elim (Bool-cases ((stab_at stabs l).n_type == n_psym)) [
          | inl y ↦ let (n, e) = count_args-ends (l + 1) k (omega arith) in rw (y, e) (n + 1, refl)
          | inr n ↦ rw n (0, refl)
        ])
