-- ===== src/Cpu/Strings.antt =====
-- inc/x86.h: the port instructions. The devices are a parameter, `Bus`: what a read of 8, 16 or 32
-- bits returns and does, and what a write does. `%w1` is the low 16 bits of the port. A `rep`
-- instruction makes as many rounds as its count, from `addr` up, the direction flag being clear.
use jos_smp.Base.{ℕ, zero, suc, ◌+◌, ◌*◌, ◌/◌, ◌%◌, ◌^◌}
use jos_smp.Base.Word.{add32}
use jos_smp.Memory.Defs.{Mem, write, write32}

pub record Bus (W : Type 0) : Type 0 where
  pub in8 : ℕ → W → ℕ × W
  pub in16 : ℕ → W → ℕ × W
  pub in32 : ℕ → W → ℕ × W
  pub out8 : ℕ → ℕ → W → W
  pub out16 : ℕ → ℕ → W → W
  pub out32 : ℕ → ℕ → W → W

-- A 16-bit and a 32-bit store, low byte first, and loads.
abbrev pub store16 : ℕ → ℕ → Mem → Mem
store16 p v m = write (write m p (v % 256)) (add32 p 1) (v / 256 % 256)

abbrev pub store32 : ℕ → ℕ → Mem → Mem
store32 p v m = write32 m p (v % 256) (v / 256 % 256) (v / 65536 % 256) (v / 16777216 % 256)

abbrev pub load16 : Mem → ℕ → ℕ
load16 m p = m p + 256 * m (add32 p 1)

abbrev pub load32 : Mem → ℕ → ℕ
load32 m p = m p + 256 * m (add32 p 1) + 65536 * m (add32 p 2) + 16777216 * m (add32 p 3)

module _ {W : Type 0} (bus : Bus W) where
  unfoldable pub inb : ℕ → W → ℕ × W
  inb port w = let (v, w') = bus.in8 (port % 2 ^ 16) w in (v % 2 ^ 8, w')

  unfoldable pub inw : ℕ → W → ℕ × W
  inw port w = let (v, w') = bus.in16 (port % 2 ^ 16) w in (v % 2 ^ 16, w')

  unfoldable pub inl : ℕ → W → ℕ × W
  inl port w = let (v, w') = bus.in32 (port % 2 ^ 16) w in (v % 2 ^ 32, w')

  unfoldable pub outb : ℕ → ℕ → W → W
  outb port v w = bus.out8 (port % 2 ^ 16) (v % 2 ^ 8) w

  unfoldable pub outw : ℕ → ℕ → W → W
  outw port v w = bus.out16 (port % 2 ^ 16) (v % 2 ^ 16) w

  unfoldable pub outl : ℕ → ℕ → W → W
  outl port v w = bus.out32 (port % 2 ^ 16) (v % 2 ^ 32) w

  unfoldable pub insb : ℕ → ℕ → ℕ → Mem × W → Mem × W
  unfolding inb
  insb port addr zero s = s
  insb port addr (suc cnt) (m, w) =
      let (v, w') = inb port w in insb port (add32 addr 1) cnt (write m addr v, w')

  unfoldable pub insw : ℕ → ℕ → ℕ → Mem × W → Mem × W
  insw port addr zero s = s
  insw port addr (suc cnt) (m, w) =
      let (v, w') = inw port w in insw port (add32 addr 2) cnt (store16 addr v m, w')

  unfoldable pub insl : ℕ → ℕ → ℕ → Mem × W → Mem × W
  insl port addr zero s = s
  insl port addr (suc cnt) (m, w) =
      let (v, w') = inl port w in insl port (add32 addr 4) cnt (store32 addr v m, w')

  unfoldable pub outsb : ℕ → ℕ → ℕ → Mem → W → W
  outsb port addr zero m w = w
  outsb port addr (suc cnt) m w = outsb port (add32 addr 1) cnt m (outb port (m addr) w)

  unfoldable pub outsw : ℕ → ℕ → ℕ → Mem → W → W
  outsw port addr zero m w = w
  outsw port addr (suc cnt) m w = outsw port (add32 addr 2) cnt m (outw port (load16 m addr) w)

  unfoldable pub outsl : ℕ → ℕ → ℕ → Mem → W → W
  outsl port addr zero m w = w
  outsl port addr (suc cnt) m w = outsl port (add32 addr 4) cnt m (outl port (load32 m addr) w)
