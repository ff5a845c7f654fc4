-- ===== src/Base/BitOr.antt =====
-- `|` of two words whose one-bits lie apart is their sum.
use Prim.Native.Nat.{bit_or, bit_or-bitwise, digits}
use jos_smp.Base.{ℕ, zero, suc, ◌+◌, ◌*◌, ◌/◌, ◌%◌, ◌≤◌, ◌≡◌, refl, max, arith, ◌∙◌, sym}

-- The recursion of `bit_or` with a fuel of its own.
abbrev or_from : ℕ → ℕ → ℕ → ℕ
or_from fuel x y = digits (λ y. y) max fuel x y

or_from_enough : (f g x y : ℕ) → x ≤ f → x ≤ g → or_from f x y ≡ or_from g x y
or_from_enough f g zero y p q = from_zero f ∙ sym (from_zero g)
  where
    from_zero : (h : ℕ) → or_from h zero y ≡ y
    from_zero zero = refl
    from_zero (suc h) = refl
or_from_enough zero g (suc x) y p q = absurd (omega arith)
or_from_enough (suc f) zero (suc x) y p q = absurd (omega arith)
or_from_enough (suc f) (suc g) (suc x) y p q =
    omega (arith, or_from_enough f g (suc x / 2) (y / 2) (omega arith) (omega arith))

-- The lowest digit.
pub bit_or_halves : (x y : ℕ) → bit_or x y ≡ bit_or (x / 2) (y / 2) * 2 + max (x % 2) (y % 2)
bit_or_halves zero y = omega (arith, bit_or-bitwise 0 y, bit_or-bitwise 0 (y / 2))
bit_or_halves (suc x) y =
    let rest = or_from_enough x (suc x / 2) (suc x / 2) (y / 2) (omega arith) (omega arith) in
    omega (arith, bit_or-bitwise (suc x) y, bit_or-bitwise (suc x / 2) (y / 2), rest)

-- The lowest `k` bits of the number are zero, and the number has at most `k` bits.
abbrev pub Shifted : ℕ → ℕ → Type 0
Shifted zero x = Unit
Shifted (suc k) x = (x % 2 ≡ 0) × Shifted k (x / 2)

abbrev pub Fits : ℕ → ℕ → Type 0
Fits zero y = y ≡ 0
Fits (suc k) y = Fits k (y / 2)

or_zero_from : (f x : ℕ) → x ≤ f → bit_or x 0 ≡ x
or_zero_from zero x h = let e : x ≡ 0 = omega arith in rw e
or_zero_from (suc f) x h = omega (arith, bit_or_halves x 0, or_zero_from f (x / 2))

pub bit_or-add : (k x y : ℕ) → Shifted k x → Fits k y → bit_or x y ≡ x + y
bit_or-add zero x y s f = rw f (omega (arith, or_zero_from x x))
bit_or-add (suc k) x y s f = omega (arith, bit_or_halves x y, bit_or-add k (x / 2) (y / 2) s.1 f)
