-- ===== src/Memory/Copy.antt =====
-- lib/string.c: what strcpy, strncpy and strlcpy leave in memory.
use jos_smp.Base.{
  ℕ, zero, suc, ◌+◌, ◌-◌, ◌^◌, ◌≡◌, ◌≢◌, ◌<◌, ◌≤◌, ◌⊎◌, refl, fun_ext, ◌&&◌, arith, ◌==◌, ltb, leb,
  if◌then◌else◌, min, some, true, false, ap,
}
use jos_smp.Base.Word.{add32}
use jos_smp.Memory.Defs.{Mem, write, strcpy, strncpy, strlcpy, strlcpy_loop}
use jos_smp.Memory.Move.{moved}

-- A terminated string of `n` characters stands at `p`.
pub record IsStringAt (m : Mem) (p n : ℕ) : Type 0 where
  pub chars : (i : ℕ) → i < n → m (p + i) ≢ 0
  pub terminator : m (p + n) ≡ 0
  pub inside : p + n + 1 < 2 ^ 32

IsStringAt-empty : {m : Mem} {p : ℕ} → IsStringAt m p 0 → m p ≡ 0
IsStringAt-empty h = ground (arith, h.terminator)

-- A write below the end of an empty string's byte, or above it, leaves it.
IsStringAt-keep :
    {m : Mem} {p : ℕ} (q v : ℕ) → q ≢ p → IsStringAt m p 0 → IsStringAt (write m q v) p 0
IsStringAt-keep q v h s = record {
  chars = λ i hi. absurd (omega arith);
  terminator = ground (arith, s.terminator);
  inside = s.inside;
}

module _ {m : Mem} {p n : ℕ} where
  IsStringAt-first : IsStringAt m p (suc n) → m p ≢ 0
  IsStringAt-first h e = h.chars 0 (omega arith) (ground arith)

  -- The rest of the string, when a byte outside of it was written.
  IsStringAt-rest :
      (q v : ℕ)
      → (q ≤ p) ⊎ (p + suc n < q)
      → IsStringAt m p (suc n)
      → IsStringAt (write m q v) (add32 p 1) n
  IsStringAt-rest q v h s = record {
    chars = λ i hi. ground (arith, s.chars (suc i));
    terminator = ground (arith, s.terminator);
    inside = omega (arith, s.inside);
  }

strcpy-moved_at :
    (fuel n dst src : ℕ) (m : Mem)
    → n < fuel
    → IsStringAt m src n
    → dst + n + 1 < 2 ^ 32
    → (dst ≤ src) ⊎ (src + n < dst)
    → strcpy fuel dst src m ≡ some (moved dst src (suc n) m)
unfolding strcpy
strcpy-moved_at zero n dst src m f h p o = absurd (omega arith)
strcpy-moved_at (suc fuel) zero dst src m f h p o =
    let z = IsStringAt-empty h in
    let e : (m src == 0) ≡ true = ground arith in rw e (ap some (fun_ext (λ a. ground arith)))
strcpy-moved_at (suc fuel) (suc n) dst src m f h p o =
    let z = IsStringAt-first h in
    let e : (m src == 0) ≡ false = ground arith in
    let i = h.inside in
    rw
      (
        e,
        strcpy-moved_at fuel n (add32 dst 1) (add32 src 1) (write m dst (m src)) (omega arith)
            (IsStringAt-rest dst (m src) (omega arith) h) (omega arith) (omega arith),
      )
      (ap some (fun_ext (λ a. ground arith)))

-- Enough fuel is one round more than the string has characters: then `strcpy` returns, and the
-- string with its terminator stands at the destination, all else unchanged. The destination may
-- begin below the source or lie behind its terminator.
pub strcpy-moved :
    (fuel n dst src : ℕ) (m : Mem)
    → n < fuel
    → IsStringAt m src n
    → dst + n + 1 < 2 ^ 32
    → (dst ≤ src) ⊎ (src + n < dst)
    → (m' : Mem) × (strcpy fuel dst src m ≡ some m')
      × IsStringAt m' dst n
      × ((a : ℕ) → m' a ≡ moved dst src (suc n) m a)
strcpy-moved fuel n dst src m f h p o = (
  moved dst src (suc n) m,
  strcpy-moved_at fuel n dst src m f h p o,
  record {
    chars = λ i hi. ground (arith, h.chars i);
    terminator = ground (arith, h.terminator);
    inside = p;
  },
  λ a. refl,
)

-- What strncpy leaves: the first characters, then zeros up to `size`.
abbrev pub padded : ℕ → ℕ → ℕ → ℕ → Mem → Mem
padded dst src n size m a =
    if leb dst a && ltb a (dst + size)
    then if ltb (a - dst) n then m (src + (a - dst)) else 0
    else m a

-- `strncpy` writes exactly `size` bytes: the characters of the source, cut at `size`, then zeros.
-- The destination lies apart from the source string.
pub strncpy-padded :
    (size n dst src : ℕ) (m : Mem) (a : ℕ)
    → IsStringAt m src n
    → dst + size < 2 ^ 32
    → (dst + size ≤ src) ⊎ (src + n < dst)
    → strncpy size dst src m a ≡ padded dst src n size m a
unfolding strncpy
strncpy-padded zero n dst src m a h p o = ground arith
strncpy-padded (suc size) zero dst src m a h p o =
    let z = IsStringAt-empty h in
    let i = h.inside in
    let e : (write m dst (m src) src == 0) ≡ true = ground arith in
    rw
      (
        e,
        strncpy-padded size 0 (add32 dst 1) src (write m dst (m src)) a
            (IsStringAt-keep dst (m src) (omega arith) h) (omega arith) (omega arith),
      )
      (ground arith)
strncpy-padded (suc size) (suc n) dst src m a h p o =
    let z = IsStringAt-first h in
    let i = h.inside in
    let e : (write m dst (m src) src == 0) ≡ false = ground arith in
    rw
      (
        e,
        strncpy-padded size n (add32 dst 1) (add32 src 1) (write m dst (m src)) a
            (IsStringAt-rest dst (m src) (omega arith) h) (omega arith) (omega arith),
      )
      (ground arith)

strlcpy_loop-moved :
    (room n dst src : ℕ) (m : Mem) (a : ℕ)
    → IsStringAt m src n
    → dst + room + 1 < 2 ^ 32
    → (dst + room < src) ⊎ (src + n < dst)
    → let (m', end) = strlcpy_loop room dst src m in
      (m' a ≡ write (moved dst src (min room n) m) (dst + min room n) 0 a)
      × (end ≡ dst + min room n)
unfolding strlcpy_loop
strlcpy_loop-moved zero n dst src m a h p o = ground arith
strlcpy_loop-moved (suc room) zero dst src m a h p o =
    let z = IsStringAt-empty h in let e : (m src == 0) ≡ true = ground arith in rw e (ground arith)
strlcpy_loop-moved (suc room) (suc n) dst src m a h p o =
    let z = IsStringAt-first h in
    let i = h.inside in
    let e : (m src == 0) ≡ false = ground arith in
    let ih =
      strlcpy_loop-moved room n (add32 dst 1) (add32 src 1) (write m dst (m src)) a
        (IsStringAt-rest dst (m src) (omega arith) h) (omega arith) (omega arith) in
    rw e (rw (ih.0) (ground arith), rw (ih.1) (ground arith))

-- With room for `room` characters and a terminator, `strlcpy` copies the characters of the source,
-- cut at `room`, writes one zero behind them and nothing else, and returns how many it copied.
pub strlcpy-moved :
    (room n dst src : ℕ) (m : Mem) (a : ℕ)
    → IsStringAt m src n
    → dst + room + 1 < 2 ^ 32
    → (dst + room < src) ⊎ (src + n < dst)
    → let (m', count) = strlcpy (suc room) dst src m in
      (m' a ≡ write (moved dst src (min room n) m) (dst + min room n) 0 a) × (count ≡ min room n)
unfolding strlcpy
strlcpy-moved room n dst src m a h p o =
    let (e, f) = strlcpy_loop-moved room n dst src m a h p o in (e, rw f (omega arith))
