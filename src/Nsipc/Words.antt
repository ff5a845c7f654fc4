-- ===== src/Nsipc/Words.antt =====
-- lib/nsipc.c: what stores of members and copies of blocks leave in memory.
use jos_smp.Base.{
  ℕ, zero, suc, ◌+◌, ◌*◌, ◌/◌, ◌%◌, ◌^◌, ◌<◌, ◌≤◌, ◌≡◌, ◌⊎◌, refl, ap₂, arith, List, [], ◌∷◌,
}
use jos_smp.Base.Word.{add32}
use jos_smp.Boot.Load.{read32}
use jos_smp.Memory.Defs.{Mem, memmove}
use jos_smp.Memory.Move.{memmove-moved}
use jos_smp.Nsipc.Defs.{put32}

-- The `n` cells from `a` on, and the `k` from `b` on, have none in common.
abbrev pub Apart : ℕ → ℕ → ℕ → ℕ → Type 0
Apart a n b k = (a + n ≤ b) ⊎ (b + k ≤ a)

-- The `n` bytes from `p` on.
abbrev pub bytes_at : Mem → ℕ → ℕ → List ℕ
bytes_at m p zero = []
bytes_at m p (suc n) = m p ∷ bytes_at m (p + 1) n

pub put32-Apart : (p v : ℕ) (m : Mem) (a : ℕ) → p + 4 < 2 ^ 32 → Apart p 4 a 1 → put32 p v m a ≡ m a
unfolding put32
put32-Apart p v m a h s = ground arith

-- The four bytes that a store leaves.
put32_bytes :
    (p v : ℕ) (m : Mem)
    → p + 4 < 2 ^ 32
    → (put32 p v m p ≡ v % 256)
      × (put32 p v m (p + 1) ≡ v / 256 % 256)
      × (put32 p v m (p + 2) ≡ v / 65536 % 256)
      × (put32 p v m (p + 3) ≡ v / 16777216 % 256)
unfolding put32
put32_bytes p v m h = (ground arith, ground arith, ground arith, ground arith)

read32_bytes :
    (m : Mem) (p : ℕ)
    → p + 4 < 2 ^ 32
    → read32 m p ≡ m p + 256 * m (p + 1) + 65536 * m (p + 2) + 16777216 * m (p + 3)
read32_bytes m p h =
    let e1 : add32 p 1 ≡ p + 1 = omega arith in
    let e2 : add32 p 2 ≡ p + 2 = omega arith in
    let e3 : add32 (p + 2) 1 ≡ p + 3 = omega arith in rw (e1, e2, e3) (omega arith)

pub read32-put32 : (p v : ℕ) (m : Mem) → p + 4 < 2 ^ 32 → v < 2 ^ 32 → read32 (put32 p v m) p ≡ v
read32-put32 p v m h k =
    let b = put32_bytes p v m h in omega (arith, read32_bytes (put32 p v m) p h, b.0, b.1, b.2, b.3)

pub memmove-Apart :
    (d s n : ℕ) (m : Mem) (a : ℕ)
    → d + n < 2 ^ 32
    → s + n < 2 ^ 32
    → Apart d n a 1
    → memmove d s n m a ≡ m a
memmove-Apart d s n m a h k p = ground (arith, memmove-moved d s n m a)

-- A word depends on its four bytes.
pub read32-same :
    (m m' : Mem) (p : ℕ)
    → p + 4 < 2 ^ 32
    → ((a : ℕ) → p ≤ a → a < p + 4 → m' a ≡ m a)
    → read32 m' p ≡ read32 m p
read32-same m m' p h same = omega (
  arith,
  read32_bytes m p h,
  read32_bytes m' p h,
  same p (omega arith) (omega arith),
  same (p + 1) (omega arith) (omega arith),
  same (p + 2) (omega arith) (omega arith),
  same (p + 3) (omega arith) (omega arith),
)

pub bytes_at-same :
    (m m' : Mem) (d s n : ℕ)
    → ((i : ℕ) → i < n → m' (d + i) ≡ m (s + i))
    → bytes_at m' d n ≡ bytes_at m s n
bytes_at-same m m' d s zero same = refl
bytes_at-same m m' d s (suc n) same =
    let first : m' d ≡ m s =
      let e : d + 0 ≡ d = omega arith in
      let e' : s + 0 ≡ s = omega arith in rw (e, e') at (same 0 (omega arith)) in
    let later = λ (i : ℕ) (lt : i < n).
      let e : d + suc i ≡ d + 1 + i = omega arith in
      let e' : s + suc i ≡ s + 1 + i = omega arith in rw (e, e') at (same (suc i) (omega arith)) in
    ap₂ ◌∷◌ first (bytes_at-same m m' (d + 1) (s + 1) n later)

pub bytes_at-memmove :
    (d s n : ℕ) (m : Mem)
    → d + n < 2 ^ 32
    → s + n < 2 ^ 32
    → bytes_at (memmove d s n m) d n ≡ bytes_at m s n
bytes_at-memmove d s n m h k =
    bytes_at-same m (memmove d s n m) d s n (λ i lt. ground (arith, memmove-moved d s n m (d + i)))

-- What stands apart from a store or a copy is as before.
module _ (p v : ℕ) (m : Mem) (low : p + 4 < 2 ^ 32) where
  pub read32-put32-Apart :
      (q : ℕ) → q + 4 < 2 ^ 32 → Apart p 4 q 4 → read32 (put32 p v m) q ≡ read32 m q
  read32-put32-Apart q h apart =
      read32-same m (put32 p v m) q h (λ a le lt. put32-Apart p v m a low (omega arith))

  pub bytes_at-put32 : (d n : ℕ) → Apart p 4 d n → bytes_at (put32 p v m) d n ≡ bytes_at m d n
  bytes_at-put32 d n apart =
      bytes_at-same m (put32 p v m) d d n (λ i lt. put32-Apart p v m (d + i) low (omega arith))

pub read32-memmove-Apart :
    (d s n : ℕ) (m : Mem) (q : ℕ)
    → d + n < 2 ^ 32
    → s + n < 2 ^ 32
    → q + 4 < 2 ^ 32
    → Apart d n q 4
    → read32 (memmove d s n m) q ≡ read32 m q
read32-memmove-Apart d s n m q h k l apart =
    read32-same m (memmove d s n m) q l (λ a le lt. memmove-Apart d s n m a h k (omega arith))
