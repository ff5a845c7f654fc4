-- ===== src/Printfmt/Digits.antt =====
-- lib/printfmt.c: printnum prints the digits of the number, padded on the left.
use native.Mathlib.Nat.{pow-succ', pow-zero, two-pow-succ, div-lt_iff_lt-mul, mod-lt, mod-eq_of_lt}
use jos_smp.Base.{
  ℕ, zero, suc, ◌+◌, ◌*◌, ◌-◌, ◌/◌, ◌%◌, ◌^◌, ◌<◌, ◌≤◌, ◌≡◌, refl, some, List, [], ◌∷◌, ◌++◌, map,
  arith, ltb, true, ◌==◌, if◌then◌else◌, Bool, none, length, length-append, leb, append_assoc,
  map-append, false, Bool-cases, inl, inr, ap, replicate,
}
use jos_smp.Base.Int.{ℤ, pos, negsuc, ◌-ℤ◌, pos_part}
use jos_smp.Base.Bits.{holds_up_to, holds_up_to-at}
use jos_smp.Printfmt.Number.{digit_at, pad, pad_loop, printnum, printnum_loop}

-- The character of a digit: '0' to '9', then from 'a' on.
unfoldable pub digit_char : ℕ → ℕ
digit_char d = if ltb d 10 then b'0' + d else b'a' + (d - 10)

right_digit : ℕ → Bool
right_digit d = elim (digit_at d) [ none ↦ false | some c ↦ c == digit_char d ]

right_digits : holds_up_to right_digit 15 ≡ true
unfolding holds_up_to right_digit digit_at digit_char
right_digits = refl

digit_at-digit_char : (d : ℕ) → d < 16 → digit_at d ≡ some (digit_char d)
unfolding right_digit
digit_at-digit_char d h = ground (arith, holds_up_to-at right_digit 15 right_digits d)

-- The number that a list of digits stands for, most significant first, behind `acc`.
abbrev pub value : ℕ → ℕ → List ℕ → ℕ
value base acc [] = acc
value base acc (d ∷ ds) = value base (acc * base + d) ds

abbrev pub AllBelow : ℕ → List ℕ → Type 0
AllBelow base [] = Unit
AllBelow base (d ∷ ds) = (d < base) × AllBelow base ds

-- The digits of a number: it is their value, and the first is zero only for the number 0.
pub record IsDigits (base num : ℕ) (ds : List ℕ) : Type 0 where
  pub below : AllBelow base ds
  pub valued : value base 0 ds ≡ num
  pub least : (k : ℕ) → num < base * base ^ k → length ds ≤ suc k
  pub positive : 0 < length ds

value-append :
    (base acc d : ℕ) (ds : List ℕ) → value base acc (ds ++ (d ∷ [])) ≡ value base acc ds * base + d
value-append base acc d [] = refl
value-append base acc d (e ∷ ds) = value-append base (acc * base + e) d ds

AllBelow-append :
    (base d : ℕ) (ds : List ℕ) → d < base → AllBelow base ds → AllBelow base (ds ++ (d ∷ []))
AllBelow-append base d [] h k = (h, tt)
AllBelow-append base d (e ∷ ds) h k = (k.0, AllBelow-append base d ds h k.1)

div-lt_half : (num base k : ℕ) → 2 ≤ base → num < 2 * k → num / base < k
div-lt_half num base k h l = grind arith

pad_loop-replicate : (w c : ℕ) → pad_loop (suc w) c ≡ replicate w c
unfolding pad_loop
pad_loop-replicate zero c = refl
pad_loop-replicate (suc w) c = ground (arith, pad_loop-replicate w c)

pad-replicate : (width : ℤ) (c k : ℕ) → k ≡ pos_part width - 1 → pad width c ≡ replicate k c
unfolding pad pad_loop
pad-replicate (pos zero) c k e = rw e
pad-replicate (pos (suc w)) c k e = let f : k ≡ w = omega arith in rw f (pad_loop-replicate w c)
pad-replicate (negsuc w) c k e = rw e

-- The digits of `num / base`, with one digit more.
IsDigits-append :
    (base num : ℕ) (ds : List ℕ)
    → 2 ≤ base
    → base ≤ num
    → IsDigits base (num / base) ds
    → IsDigits base num (ds ++ (num % base ∷ []))
IsDigits-append base num ds b l h = record {
  below = AllBelow-append base (num % base) ds (omega arith) h.below;
  valued = rw (value-append base 0 (num % base) ds, h.valued) (omega arith);
  least = least;
  positive = omega (arith, length-append ds (num % base ∷ []));
}
  where
    least : (k : ℕ) → num < base * base ^ k → length (ds ++ (num % base ∷ [])) ≤ suc k
    least zero p = absurd (omega (arith, pow-zero base, ap (λ (t : ℕ). base * t) (pow-zero base)))
    least (suc k) p = omega (
      arith,
      length-append ds (num % base ∷ []),
      h.least k (
          (div-lt_iff_lt-mul (omega arith)).1
            (omega (arith, p, pow-succ' base k, ap (λ (t : ℕ). base * t) (pow-succ' base k)))),
    )

IsDigits-single : (base num : ℕ) → 2 ≤ base → num < base → IsDigits base num (num % base ∷ [])
IsDigits-single base num b l = record {
  below = (mod-lt num (omega arith), tt);
  valued = omega (arith, mod-eq_of_lt l);
  least = λ k p. omega arith;
  positive = omega arith;
}

-- What printnum prints of the digits `ds` in a field of `width`.
abbrev pub field : ℤ → ℕ → List ℕ → List ℕ
field width padc ds = replicate (pos_part width - length ds) padc ++ map digit_char ds

field-single :
    (width : ℤ) (padc d : ℕ) → pad width padc ++ (digit_char d ∷ []) ≡ field width padc (d ∷ [])
field-single width padc d = rw (pad-replicate width padc _ refl)

field-append :
    (width : ℤ) (padc d : ℕ) (ds : List ℕ)
    → field (width -ℤ pos 1) padc ds ++ (digit_char d ∷ []) ≡ field width padc (ds ++ (d ∷ []))
unfolding ◌-ℤ◌
field-append width padc d ds =
    rw
      (
        room,
        map-append digit_char ds (d ∷ []),
        ← append_assoc (replicate (pos_part width - length (ds ++ (d ∷ []))) padc)
            (map digit_char ds) (digit_char d ∷ []),
      )
      refl
  where
    room : pos_part (width -ℤ pos 1) - length ds ≡ pos_part width - length (ds ++ (d ∷ []))
    room = ground (arith, length-append ds (d ∷ []))

-- With one unit of fuel for each binary digit, the loop returns the padded digits.
printnum_loop-field :
    (fuel num base : ℕ) (width : ℤ) (padc : ℕ)
    → 2 ≤ base
    → base ≤ 16
    → num < 2 ^ suc fuel
    → (ds : List ℕ) × (printnum_loop (suc fuel) num base width padc ≡ some (field width padc ds))
      × IsDigits base num ds
unfolding printnum_loop
printnum_loop-field zero num base width padc b top h =
    let d = digit_at-digit_char (num % base) (omega arith) in
    let f : leb base num ≡ false = ground (arith, two-pow-succ 0) in
    (
      num % base ∷ [],
      rw (f, d) (ap some (field-single width padc (num % base))),
      IsDigits-single base num b (ground arith),
    )
printnum_loop-field (suc fuel) num base width padc b top h =
    let d = digit_at-digit_char (num % base) (omega arith) in
    elim (Bool-cases (leb base num)) [
      | inl y ↦
          let (ds, e, i) =
            printnum_loop-field fuel (num / base) base (width -ℤ pos 1) padc b top
              (div-lt_half num base (2 ^ suc fuel) b (omega (arith, two-pow-succ (suc fuel)))) in
          (
            ds ++ (num % base ∷ []),
            rw (y, e, d) (ap some (field-append width padc (num % base) ds)),
            IsDigits-append base num ds b (ground arith) i,
          )
      | inr y ↦ (
        num % base ∷ [],
        rw (y, d) (ap some (field-single width padc (num % base))),
        IsDigits-single base num b (ground arith),
      )
    ]

-- For a base from 2 to 16 and a 64-bit number, `printnum` returns: it prints the number's digits,
-- as '0' to '9' and 'a' to 'f', without leading zeros, behind as many `padc` as the width has more than digits.
pub printnum-field :
    (num base : ℕ) (width : ℤ) (padc : ℕ)
    → 2 ≤ base
    → base ≤ 16
    → num < 2 ^ 64
    → (ds : List ℕ) × (printnum num base width padc ≡ some (field width padc ds))
      × IsDigits base num ds
unfolding printnum
printnum-field num base width padc b top h = printnum_loop-field 63 num base width padc b top h
