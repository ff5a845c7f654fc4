-- ===== src/Boot/Sector.antt =====
-- boot/main.c: readsect on a disk that works, and what such a disk is.
use jos_smp.Base.{
  ℕ, zero, suc, ◌+◌, ◌-◌, ◌*◌, ◌/◌, ◌%◌, ◌^◌, ◌<◌, ◌≤◌, ◌≡◌, refl, arith, ◌&&◌, ◌==◌, ltb, leb,
  if◌then◌else◌, Bool-cases, inl, inr, ◌∙◌,
}
use Prim.Native.Nat.{bit_or}
use jos_smp.Base.BitOr.{bit_or_halves}
use jos_smp.Base.Word.{add32}
use jos_smp.Memory.Defs.{Mem, write}
use jos_smp.Printfmt.Format.{done}
use jos_smp.Boot.Disk.{Ports, store_bytes, block, waitdisk, select, readsect}

-- An ATA disk that holds the bytes `image`: `reg` is a port's register, `busy` the status reads that
-- are still to come before it is ready, at most `limit`, and `sector` what the last command read.
-- When it is ready, a register keeps what is written; the command to read one sector, in LBA mode on
-- the first drive, takes its number from the registers; and the data port gives the sector's bytes.
pub record Disk {W : Type 0} (dev : Ports W) (image : ℕ → ℕ) (limit : ℕ) : Type 0 where
  pub reg : ℕ → W → ℕ
  pub busy : W → ℕ
  pub sector : W → ℕ
  pub busy_bound : (w : W) → busy w ≤ limit
  pub status : (w : W) → ((dev.io.inb 0x1f7 w).0 / 64 % 4 == 1) ≡ (busy w == 0)
  pub busy-inb : (w : W) → busy (dev.io.inb 0x1f7 w).1 ≡ busy w - 1
  pub sector-inb : (w : W) → sector (dev.io.inb 0x1f7 w).1 ≡ sector w
  pub busy-outb :
      (p v : ℕ) (w : W) → 0x1f2 ≤ p → p ≤ 0x1f6 → busy w ≡ 0 → busy (dev.io.outb p v w) ≡ 0
  pub reg-outb :
      (p v q : ℕ) (w : W)
      → 0x1f2 ≤ p
      → p ≤ 0x1f6
      → busy w ≡ 0
      → reg q (dev.io.outb p v w) ≡ (if q == p then v else reg q w)
  pub command :
      (w : W)
      → busy w ≡ 0
      → reg 0x1f2 w ≡ 1
      → reg 0x1f6 w / 16 ≡ 0xe
      → sector (dev.io.outb 0x1f7 0x20 w)
        ≡ reg 0x1f3 w + 2 ^ 8 * reg 0x1f4 w + 2 ^ 16 * reg 0x1f5 w + 2 ^ 24 * (reg 0x1f6 w % 16)
  pub data_port : (w : W) → busy w ≡ 0 → (dev.insl 0x1f0 128 w).0 ≡ block image 512 (512 * sector w)

-- Memory with the `n` bytes of the image from `at` on stored from `dst` on, read at `a`.
abbrev pub loaded : (ℕ → ℕ) → ℕ → ℕ → ℕ → Mem → Mem
loaded image dst at n m a = if leb dst a && ltb a (dst + n) then image (at + (a - dst)) else m a

pub store_bytes-block :
    (image : ℕ → ℕ) (n dst at : ℕ) (m : Mem) (a : ℕ)
    → dst + n < 2 ^ 32
    → store_bytes dst (block image n at) m a ≡ loaded image dst at n m a
unfolding store_bytes block
store_bytes-block image zero dst at m a h = ground arith
store_bytes-block image (suc n) dst at m a h =
    rw (store_bytes-block image n (add32 dst 1) (at + 1) (write m dst (image at)) a (omega arith))
      (ground arith)

drive_bits : (t : ℕ) → t < 16 → bit_or t 0xe0 % 256 ≡ 0xe0 + t
drive_bits t h =
    let below : t / 2 / 2 / 2 / 2 ≡ 0 = omega arith in
    let top : bit_or (t / 2 / 2 / 2 / 2) 0xe ≡ 0xe = rw below refl in
    omega (
      arith,
      bit_or_halves t 0xe0,
      bit_or_halves (t / 2) 0x70,
      bit_or_halves (t / 2 / 2) 0x38,
      bit_or_halves (t / 2 / 2 / 2) 0x1c,
      top,
    )

module _ {W : Type 0} {dev : Ports W} {image : ℕ → ℕ} {limit : ℕ}
    (disk : Disk dev image limit) where
  waitdisk-ready :
      (fuel : ℕ) (w : W)
      → disk.busy w < fuel
      → (w' : W) × (waitdisk dev fuel w ≡ done w')
        × (disk.busy w' ≡ 0)
        × (disk.sector w' ≡ disk.sector w)
  unfolding waitdisk
  waitdisk-ready zero w h = absurd (omega arith)
  waitdisk-ready (suc fuel) w h = elim (Bool-cases (disk.busy w == 0)) [
    | inl y ↦
        let w' = (dev.io.inb 0x1f7 w).1 in
        let e : disk.busy w' ≡ 0 = grind (arith, disk.busy-inb w) in
        (w', rw (disk.status w, y) refl, e, disk.sector-inb w)
    | inr n ↦
        let w1 = (dev.io.inb 0x1f7 w).1 in
        let (w', run, ready, same) = waitdisk-ready fuel w1 (grind (arith, disk.busy-inb w)) in
        (w', rw (disk.status w, n) run, ready, same ∙ disk.sector-inb w)
  ]

  sector-select :
      (offset : ℕ) (w : W)
      → offset < 2 ^ 28
      → disk.busy w ≡ 0
      → disk.sector (select dev offset w) ≡ offset
  unfolding select
  sector-select offset w h ready =
      let top = bit_or (offset / 2 ^ 24) 0xe0 % 256 in
      let w1 = dev.io.outb 0x1f2 1 w in
      let w2 = dev.io.outb 0x1f3 (offset % 256) w1 in
      let w3 = dev.io.outb 0x1f4 (offset / 2 ^ 8 % 256) w2 in
      let w4 = dev.io.outb 0x1f5 (offset / 2 ^ 16 % 256) w3 in
      let w5 = dev.io.outb 0x1f6 top w4 in
      let b1 = disk.busy-outb 0x1f2 1 w (omega arith) (omega arith) ready in
      let b2 = disk.busy-outb 0x1f3 (offset % 256) w1 (omega arith) (omega arith) b1 in
      let b3 = disk.busy-outb 0x1f4 (offset / 2 ^ 8 % 256) w2 (omega arith) (omega arith) b2 in
      let b4 = disk.busy-outb 0x1f5 (offset / 2 ^ 16 % 256) w3 (omega arith) (omega arith) b3 in
      let b5 = disk.busy-outb 0x1f6 top w4 (omega arith) (omega arith) b4 in
      let e1 = λ (q : ℕ). disk.reg-outb 0x1f2 1 q w (omega arith) (omega arith) ready in
      let e2 = λ (q : ℕ). disk.reg-outb 0x1f3 (offset % 256) q w1 (omega arith) (omega arith) b1 in
      let e3 =
        λ (q : ℕ). disk.reg-outb 0x1f4 (offset / 2 ^ 8 % 256) q w2 (omega arith) (omega arith) b2 in
      let e4 = λ (q : ℕ).
        disk.reg-outb 0x1f5 (offset / 2 ^ 16 % 256) q w3 (omega arith) (omega arith) b3 in
      let e5 = λ (q : ℕ). disk.reg-outb 0x1f6 top q w4 (omega arith) (omega arith) b4 in
      let r2 : disk.reg 0x1f2 w5 ≡ 1 = e5 0x1f2 ∙ e4 0x1f2 ∙ e3 0x1f2 ∙ e2 0x1f2 ∙ e1 0x1f2 in
      let r3 : disk.reg 0x1f3 w5 ≡ offset % 256 = e5 0x1f3 ∙ e4 0x1f3 ∙ e3 0x1f3 ∙ e2 0x1f3 in
      let r4 : disk.reg 0x1f4 w5 ≡ offset / 2 ^ 8 % 256 = e5 0x1f4 ∙ e4 0x1f4 ∙ e3 0x1f4 in
      let r5 : disk.reg 0x1f5 w5 ≡ offset / 2 ^ 16 % 256 = e5 0x1f5 ∙ e4 0x1f5 in
      let r6 : disk.reg 0x1f6 w5 ≡ top = e5 0x1f6 in
      let drive = drive_bits (offset / 2 ^ 24) (omega arith) in
      rw (disk.command w5 b5 r2 (omega (arith, r6, drive))) (omega (arith, r3, r4, r5, r6, drive))

  pub readsect-loaded :
      (fuel dst offset : ℕ) (m : Mem) (w : W)
      → limit < fuel
      → offset < 2 ^ 28
      → (w' : W) × (readsect dev fuel dst offset (m, w)
          ≡ done (store_bytes dst (block image 512 (512 * offset)) m, w'))
  unfolding readsect
  readsect-loaded fuel dst offset m w enough h =
      let (w1, run1, ready1, _) = waitdisk-ready fuel w (omega (arith, disk.busy_bound w)) in
      let w2 = select dev offset w1 in
      let (w3, run3, ready3, same3) = waitdisk-ready fuel w2 (omega (arith, disk.busy_bound w2)) in
      let e : disk.sector w3 ≡ offset = same3 ∙ sector-select offset w1 h ready1 in
      ((dev.insl 0x1f0 128 w3).1, rw (run1, run3, disk.data_port w3 ready3, e) refl)
