-- ===== src/Boot/Disk.antt =====
-- boot/main.c: waitdisk and readsect. The disk controller and its ports are not part of the program:
-- `W` is their state, and `insl` returns the bytes that it would store.
use jos_smp.Base.{ℕ, zero, suc, ◌+◌, ◌/◌, ◌%◌, ◌^◌, List, [], ◌∷◌, ◌==◌, if◌then◌else◌}
use Prim.Native.Nat.{bit_or}
use jos_smp.Base.Word.{add32}
use jos_smp.Console.Io.{Io}
use jos_smp.Memory.Defs.{Mem, write}
use jos_smp.Printfmt.Format.{Run, done, out_of_fuel, ◌>>=◌}

pub record Ports (W : Type 0) : Type 0 where
  pub io : Io W
  pub insl : ℕ → ℕ → W → List ℕ × W
  pub outw : ℕ → ℕ → W → W

-- What `insl` stores from `dst` on.
unfoldable pub store_bytes : ℕ → List ℕ → Mem → Mem
store_bytes dst [] m = m
store_bytes dst (b ∷ bs) m = store_bytes (add32 dst 1) bs (write m dst b)

-- The `n` bytes of `image` from `at` on.
unfoldable pub block : (ℕ → ℕ) → ℕ → ℕ → List ℕ
block image zero at = []
block image (suc n) at = image at ∷ block image n (at + 1)

module _ {W : Type 0} (dev : Ports W) where
  -- `while ((inb(0x1F7) & 0xC0) != 0x40)` on fuel.
  unfoldable pub waitdisk : ℕ → W → Run W
  waitdisk zero w = out_of_fuel
  waitdisk (suc fuel) w =
      let (v, w') = dev.io.inb 0x1f7 w in
      let again = waitdisk fuel w' in if v / 64 % 4 == 1 then done w' else again

  -- The writes of readsect to the ports: the sector's number, and the command.
  unfoldable pub select : ℕ → W → W
  select offset w =
      let w1 = dev.io.outb 0x1f2 1 w in
      let w2 = dev.io.outb 0x1f3 (offset % 256) w1 in
      let w3 = dev.io.outb 0x1f4 (offset / 2 ^ 8 % 256) w2 in
      let w4 = dev.io.outb 0x1f5 (offset / 2 ^ 16 % 256) w3 in
      let w5 = dev.io.outb 0x1f6 (bit_or (offset / 2 ^ 24) 0xe0 % 256) w4 in
      dev.io.outb 0x1f7 0x20 w5

  unfoldable pub readsect : ℕ → ℕ → ℕ → Mem × W → Run (Mem × W)
  readsect fuel dst offset s =
      waitdisk fuel s.1
      >>= (λ w. waitdisk fuel (select offset w))
      >>= (λ w. let (bytes, w') = dev.insl 0x1f0 128 w in done (store_bytes dst bytes s.0, w'))
