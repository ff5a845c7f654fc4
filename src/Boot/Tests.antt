-- ===== src/Boot/Tests.antt =====
-- boot/main.c: a disk that is busy for a while after a command, with a small kernel on it.
use jos_smp.Base.{
  ℕ, ◌+◌, ◌-◌, ◌*◌, ◌%◌, ◌^◌, ◌≡◌, refl, List, [], ◌∷◌, ◌==◌, min, ltb, if◌then◌else◌, arith,
}
use jos_smp.Printfmt.Format.{done}
use jos_smp.Boot.Disk.{Ports, block}
use jos_smp.Boot.Sector.{Disk}
use jos_smp.Boot.Load.{enters, bootmain}
use jos_smp.Boot.Segment.{placed}
use jos_smp.Boot.Kernel.{CanLoad, IsKernel, kernel, segments_placed, bootmain-placed}

record Ata : Type 0 where
  regs : ℕ → ℕ
  waiting : ℕ
  lba : ℕ

abbrev lba_of : (ℕ → ℕ) → ℕ
lba_of r = r 0x1f3 + 2 ^ 8 * r 0x1f4 + 2 ^ 16 * r 0x1f5 + 2 ^ 24 * (r 0x1f6 % 16)

abbrev busy_of : Ata → ℕ
busy_of w = min w.waiting 3

abbrev ata_outb : ℕ → ℕ → Ata → Ata
ata_outb p v w =
    if p == 0x1f7
    then record { regs = w.regs; waiting = 3; lba = lba_of w.regs }
    else record w { regs = λ q. if q == p then v else w.regs q }

abbrev ata : (ℕ → ℕ) → Ports Ata
ata image = record {
  io = record {
    inb = λ p w. (if busy_of w == 0 then 0x40 else 0x80, record w { waiting = busy_of w - 1 });
    outb = ata_outb;
  };
  insl = λ p n w. (block image (4 * n) (512 * w.lba), w);
  outw = λ p v w. w;
}

ata-Disk : (image : ℕ → ℕ) → Disk (ata image) image 3
ata-Disk image = record {
  reg = λ q w. w.regs q;
  busy = busy_of;
  sector = λ w. w.lba;
  busy_bound = λ w. omega arith;
  status = λ w. ground arith;
  busy-inb = λ w. omega arith;
  sector-inb = λ w. refl;
  busy-outb = λ p v w h k e. ground arith;
  reg-outb = λ p v q w h k e. ground arith;
  command = λ w e one lba. refl;
  data_port = λ w e. refl;
}

abbrev byte_at : List (ℕ × ℕ) → ℕ → ℕ
byte_at [] p = 0
byte_at ((q, v) ∷ more) p = if p == q then v else byte_at more p

-- The entry is 0x10000c; one header, at 52: 6000 bytes from 4096 on in the file go to 0xf0100000.
abbrev small_kernel : List (ℕ × ℕ)
small_kernel =
    (0, 0x7f)
    ∷ (1, 0x45)
    ∷ (2, 0x4c)
    ∷ (3, 0x46)
    ∷ (24, 0x0c)
    ∷ (26, 0x10)
    ∷ (28, 52)
    ∷ (44, 1)
    ∷ (57, 0x10)
    ∷ (62, 0x10)
    ∷ (63, 0xf0)
    ∷ (72, 0x70)
    ∷ (73, 0x17)
    ∷ []

abbrev small_disk : ℕ → ℕ
small_disk p = if ltb p 512 then 0 else byte_at small_kernel (p - 512)

small_disk-CanLoad : CanLoad small_disk 52
small_disk-CanLoad = record {
  behind = omega arith;
  fits = omega arith;
  small = omega arith;
  aligned = refl;
}

small_disk-IsKernel : IsKernel small_disk
small_disk-IsKernel = record {
  magic = refl;
  headers = omega arith;
  segments = (small_disk-CanLoad, tt);
}

abbrev powered_on : Ata
powered_on = record { regs = λ q. 0; waiting = 2; lba = 0 }

bootmain-placed_example :
    (w' : Ata) × (bootmain (ata small_disk) 4 ((λ a. 0), powered_on)
      ≡ done (
        enters 0x10000c,
        (segments_placed small_disk 1 52 (placed small_disk 0x10000 4096 0 (λ a. 0)), w'),
      ))
bootmain-placed_example =
    bootmain-placed (ata-Disk small_disk) 4 (omega arith) (λ a. 0) powered_on
      (kernel small_disk-IsKernel)
