-- ===== src/Keyboard/Modifiers.antt =====
-- kern/console.c: what a key pressed and released again does to `shift`.
use Prim.Native.Nat.{bit_xor}
use jos_smp.Base.{ℕ, ◌+◌, ◌<◌, ◌≡◌, ◌≢◌, refl, Bool, true, ◌&&◌, ◌||◌, ◌==◌, arith}
use jos_smp.Base.Bits.{holds_up_to, holds_up_to-at}
use jos_smp.Keyboard.Decode.{decode, clear}
use jos_smp.Keyboard.Keymap.{shiftcode, togglecode}

-- `shift` after the bytes of a key pressed and released, plain and with escapes.
unfoldable pub typed : ℕ → ℕ → ℕ
typed d shift = (decode (d + 128) (decode d shift).1).1

unfoldable pub typed_escaped : ℕ → ℕ → ℕ
unfolding typed
typed_escaped d shift = (decode (d + 128) (decode 0xe0 (decode d (decode 0xe0 shift).1).1).1).1

-- The key's modifier is up, its lock is toggled, and the rest is as before.
unfoldable pub settled : ℕ → ℕ → ℕ
settled code shift = bit_xor (clear shift (shiftcode code)) (togglecode code)

settles : ℕ → ℕ → Bool
settles d shift =
    d == 0x60
    || ((typed d shift == settled d shift) && (typed_escaped d shift == settled (d + 128) shift))

settles_table : holds_up_to (λ d. holds_up_to (settles d) 63) 127 ≡ true
unfolding holds_up_to settles typed typed_escaped settled decode shiftcode togglecode
settles_table = refl

-- From a state without a pending escape, pressing and releasing a key (any code below 0x80 but 0x60,
-- whose release byte is the escape itself), plain or with an escape before each of its two bytes,
-- leaves `shift` with that key's modifier up, its lock toggled and every other bit as before.
pub decode-settled :
    (d shift : ℕ)
    → d < 128
    → d ≢ 0x60
    → shift < 64
    → (typed d shift ≡ settled d shift) × (typed_escaped d shift ≡ settled (d + 128) shift)
unfolding settles
decode-settled d shift hd h60 hs = ground (
  arith,
  holds_up_to-at (settles d) 63
      (holds_up_to-at (λ d. holds_up_to (settles d) 63) 127 settles_table d (omega arith)) shift,
)
