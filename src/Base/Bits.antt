-- ===== src/Base/Bits.antt =====
-- A test that runs through all numbers up to a bound, for statements on bytes.
use jos_smp.Base.{ℕ, zero, suc, ◌≤◌, ◌≡◌, Bool, true, false, if◌then◌else◌, arith, dec_lt}

unfoldable pub holds_up_to : (ℕ → Bool) → ℕ → Bool
holds_up_to test zero = test 0
holds_up_to test (suc top) =
    let lower = holds_up_to test top in if test (suc top) then lower else false

pub holds_up_to-at :
    (test : ℕ → Bool) (top : ℕ) → holds_up_to test top ≡ true → (k : ℕ) → k ≤ top → test k ≡ true
unfolding holds_up_to
holds_up_to-at test zero all k le = ground arith
holds_up_to-at test (suc top) all k le =
    let low : holds_up_to test top ≡ true = ground arith in
    elim (dec_lt top k) [
      | yes above ↦ let last : k ≡ suc top = omega arith in ground (arith, last)
      | no below ↦ holds_up_to-at test top low k (omega arith)
    ]
