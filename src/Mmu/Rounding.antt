-- ===== src/Mmu/Rounding.antt =====
-- inc/types.h: MIN, MAX, ROUNDDOWN and ROUNDUP on 32-bit words.
use jos_smp.Base.{ℕ, ◌+◌, ◌-◌, ◌%◌, ◌^◌, ◌<◌, ◌≤◌, ◌≡◌, arith, leb, if◌then◌else◌}
use jos_smp.Base.Word.{add32, sub32}

unfoldable pub min_of : ℕ → ℕ → ℕ
min_of a b = if leb a b then a else b

unfoldable pub max_of : ℕ → ℕ → ℕ
max_of a b = if leb b a then a else b

unfoldable pub rounddown : ℕ → ℕ → ℕ
rounddown a n = a - a % n

unfoldable pub roundup : ℕ → ℕ → ℕ
unfolding rounddown
roundup a n = rounddown (sub32 (add32 a n) 1) n

mod-rounddown : (a n : ℕ) → 0 < n → rounddown a n % n ≡ 0
unfolding rounddown
mod-rounddown a n h = grind arith

rounddown_bounds : (a n : ℕ) → 0 < n → (rounddown a n ≤ a) × (a < rounddown a n + n)
unfolding rounddown
rounddown_bounds a n h = grind arith

-- For a positive `n`, ROUNDDOWN gives the greatest multiple of `n` up to `a`; and where `a + n` is at
-- most 2^32, ROUNDUP gives the least multiple of `n` from `a` on.
pub roundup_lem :
    (a n : ℕ)
    → 0 < n
    → a + n ≤ 2 ^ 32
    → (rounddown a n % n ≡ 0)
      × (rounddown a n ≤ a)
      × (a < rounddown a n + n)
      × (roundup a n % n ≡ 0)
      × (a ≤ roundup a n)
      × (roundup a n < a + n)
unfolding roundup
roundup_lem a n h fits =
    let inner : sub32 (add32 a n) 1 ≡ a + n - 1 = omega arith in
    let down = rounddown_bounds a n h in
    let up = rounddown_bounds (a + n - 1) n h in
    (
      mod-rounddown a n h,
      down.0,
      down.1,
      rw inner (mod-rounddown (a + n - 1) n h),
      rw inner (omega (arith, up.1)),
      rw inner (omega (arith, up.0)),
    )
