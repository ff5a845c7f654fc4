-- ===== src/Boot/Kernel.antt =====
-- boot/main.c: bootmain loads an ELF kernel.
use jos_smp.Base.{
  ℕ, zero, suc, ◌+◌, ◌*◌, ◌%◌, ◌^◌, ◌<◌, ◌≤◌, ◌≡◌, ◌≢◌, ◌==◌, refl, arith, ltb, false, true, ◌∙◌,
}
use jos_smp.Base.Word.{add32}
use jos_smp.Memory.Defs.{Mem}
use jos_smp.Printfmt.Format.{done}
use jos_smp.Boot.Disk.{Ports}
use jos_smp.Boot.Sector.{Disk}
use jos_smp.Boot.Segment.{placed, readseg-placed, run_then}
use jos_smp.Boot.Load.{
  read16, read32, e_magic, e_entry, e_phoff, e_phnum, p_offset, p_va, p_memsz, enters, spins,
  BootEnd, readseg, load_segments, load_kernel, bootmain,
}

-- The kernel's file, from the disk's second sector on.
abbrev pub file : (ℕ → ℕ) → Mem
file image p = image (512 + p)

-- readseg can load the segment whose header is at `ph` in the file, and puts it behind the page that
-- bootmain reads the headers into.
pub record CanLoad (image : ℕ → ℕ) (ph : ℕ) : Type 0 where
  pub behind : 0x11000 ≤ p_va (file image) ph % 2 ^ 24
  pub fits : p_va (file image) ph % 2 ^ 24 + p_memsz (file image) ph + 512 ≤ 2 ^ 32
  pub small : p_offset (file image) ph < 2 ^ 32
  pub aligned : p_va (file image) ph % 512 ≡ p_offset (file image) ph % 512

abbrev pub AllLoad : (ℕ → ℕ) → ℕ → ℕ → Type 0
AllLoad image zero ph = Unit
AllLoad image (suc n) ph = CanLoad image ph × AllLoad image n (ph + 32)

-- An ELF file whose program headers are in its first 4096 bytes and describe such segments.
pub record IsKernel (image : ℕ → ℕ) : Type 0 where
  pub magic : e_magic (file image) 0 ≡ 0x464c457f
  pub headers : e_phoff (file image) 0 + 32 * e_phnum (file image) 0 ≤ 4096
  pub segments : AllLoad image (e_phnum (file image) 0) (e_phoff (file image) 0)

-- Memory with the segments of the `n` headers from `ph` on in the file, each where its header says.
unfoldable pub segments_placed : (ℕ → ℕ) → ℕ → ℕ → Mem → Mem
segments_placed image zero ph m = m
segments_placed image (suc n) ph m =
    let f = file image in
    segments_placed image n (ph + 32)
      (placed image (p_va f ph % 2 ^ 24) (p_memsz f ph) (p_offset f ph) m)

-- What the disk may hold, how bootmain then ends, and the memory then, with that page read to `m`.
pub data Contents (image : ℕ → ℕ) : Type 0 where
  kernel : IsKernel image → Contents image
  other : e_magic (file image) 0 ≢ 0x464c457f → Contents image

abbrev pub booted : (image : ℕ → ℕ) → Contents image → BootEnd
booted image (kernel is) = enters (e_entry (file image) 0 % 2 ^ 24)
booted image (other ne) = spins

abbrev pub boot_memory : (image : ℕ → ℕ) → Contents image → Mem → Mem
boot_memory image (kernel is) m =
    segments_placed image (e_phnum (file image) 0) (e_phoff (file image) 0) m
boot_memory image (other ne) m = m

-- The page at ELFHDR holds the first bytes of the file.
abbrev HasHeaders : (ℕ → ℕ) → Mem → Type 0
HasHeaders image m = (p : ℕ) → p < 4096 → m (0x10000 + p) ≡ file image p

placed-HasHeaders : (image : ℕ → ℕ) (m : Mem) → HasHeaders image (placed image 0x10000 4096 0 m)
placed-HasHeaders image m p h = ground arith

HasHeaders-placed :
    (image : ℕ → ℕ) (start count offset : ℕ) (m : Mem)
    → 0x11000 ≤ start
    → HasHeaders image m
    → HasHeaders image (placed image start count offset m)
HasHeaders-placed image start count offset m h has p k = ground (arith, has p k)

HasHeaders-segments_placed :
    (image : ℕ → ℕ) (n ph : ℕ) (m : Mem)
    → AllLoad image n ph
    → HasHeaders image m
    → HasHeaders image (segments_placed image n ph m)
unfolding segments_placed
HasHeaders-segments_placed image zero ph m all has = has
HasHeaders-segments_placed image (suc n) ph m (can, all) has =
    let f = file image in
    HasHeaders-segments_placed image n (ph + 32)
      (placed image (p_va f ph % 2 ^ 24) (p_memsz f ph) (p_offset f ph) m) all
      (HasHeaders-placed image (p_va f ph % 2 ^ 24) (p_memsz f ph) (p_offset f ph) m can.behind has)

read16-file :
    (image : ℕ → ℕ) (m : Mem) (p q : ℕ)
    → HasHeaders image m
    → p ≡ 0x10000 + q
    → q + 2 ≤ 4096
    → read16 m p ≡ read16 (file image) q
read16-file image m p q has e h =
    let e1 : add32 p 1 ≡ 0x10000 + (q + 1) = omega arith in
    let e2 : add32 q 1 ≡ q + 1 = omega arith in
    rw (e1, e2, e, has q (omega arith), has (q + 1) (omega arith)) refl

read32-file :
    (image : ℕ → ℕ) (m : Mem) (p q : ℕ)
    → HasHeaders image m
    → p ≡ 0x10000 + q
    → q + 4 ≤ 4096
    → read32 m p ≡ read32 (file image) q
read32-file image m p q has e h =
    let low = read16-file image m p q has e (omega arith) in
    let high = read16-file image m (add32 p 2) (add32 q 2) has (omega arith) (omega arith) in
    omega (arith, low, high)

magic-file :
    (image : ℕ → ℕ) (m : Mem)
    → e_magic (placed image 0x10000 4096 0 m) 0x10000 ≡ e_magic (file image) 0
magic-file image m =
    read32-file image (placed image 0x10000 4096 0 m) 0x10000 0 (placed-HasHeaders image m)
      (omega arith) (omega arith)

module _ {W : Type 0} {dev : Ports W} {image : ℕ → ℕ} {limit : ℕ} (disk : Disk dev image limit)
    (polls : ℕ) (enough : limit < polls) where
  -- readseg on the members of the header in memory.
  readseg-file :
      (ph : ℕ) (m : Mem) (w : W)
      → ph + 32 ≤ 4096
      → CanLoad image ph
      → HasHeaders image m
      → (w' : W) × (readseg dev polls
            (p_va m (0x10000 + ph))
            (p_memsz m (0x10000 + ph))
            (p_offset m (0x10000 + ph))
            (m, w)
          ≡ done (
            placed image
                (p_va (file image) ph % 2 ^ 24)
                (p_memsz (file image) ph)
                (p_offset (file image) ph)
                m,
            w',
          ))
  readseg-file ph m w fit can has =
      let member = λ (k : ℕ) (h : k + 4 ≤ 32).
        read32-file image m (add32 (0x10000 + ph) k) (add32 ph k) has (omega arith) (omega arith) in
      rw (member 8 (omega arith), member 20 (omega arith), member 4 (omega arith))
        (readseg-placed disk polls enough (p_va (file image) ph) (p_memsz (file image) ph)
          (p_offset (file image) ph) m w can.fits can.small can.aligned)

  load_segments-placed :
      (n fuel ph : ℕ) (m : Mem) (w : W)
      → n < fuel
      → ph + 32 * n ≤ 4096
      → AllLoad image n ph
      → HasHeaders image m
      → (w' : W) × (load_segments dev polls fuel (0x10000 + ph) (0x10000 + ph + 32 * n) (m, w)
          ≡ done (segments_placed image n ph m, w'))
  unfolding load_segments segments_placed
  load_segments-placed n zero ph m w f fit all has = absurd (omega arith)
  load_segments-placed zero (suc fuel) ph m w f fit all has =
      let stop : ltb (0x10000 + ph) (0x10000 + ph + 32 * 0) ≡ false = ground arith in
      (w, rw stop refl)
  load_segments-placed (suc n) (suc fuel) ph m w f fit (can, all) has =
      let go : ltb (0x10000 + ph) (0x10000 + ph + 32 * suc n) ≡ true = ground arith in
      let next : add32 (0x10000 + ph) 32 ≡ 0x10000 + (ph + 32) = omega arith in
      let last : 0x10000 + ph + 32 * suc n ≡ 0x10000 + (ph + 32) + 32 * n = omega arith in
      let f' = file image in
      rw (go, next, last)
        (run_then _ (readseg-file ph m w (omega arith) can has) (λ w1.
          load_segments-placed n fuel (ph + 32)
            (placed image (p_va f' ph % 2 ^ 24) (p_memsz f' ph) (p_offset f' ph) m) w1 (omega arith)
            (omega arith) all
            (HasHeaders-placed image (p_va f' ph % 2 ^ 24) (p_memsz f' ph) (p_offset f' ph) m
              can.behind has)))

  -- The memory when the kernel is entered.
  load_kernel-placed :
      (m : Mem) (w : W)
      → IsKernel image
      → HasHeaders image m
      → (w' : W) × (load_kernel dev polls (m, w)
          ≡ done (
            enters (e_entry (file image) 0 % 2 ^ 24),
            (segments_placed image (e_phnum (file image) 0) (e_phoff (file image) 0) m, w'),
          ))
  unfolding load_kernel
  load_kernel-placed m w is has =
      let f = file image in
      let n = e_phnum f 0 in
      let ph = e_phoff f 0 in
      let fits = is.headers in
      let from : e_phoff m 0x10000 ≡ ph =
        read32-file image m (add32 0x10000 28) (add32 0 28) has (omega arith) (omega arith) in
      let number : e_phnum m 0x10000 ≡ n =
        read16-file image m (add32 0x10000 44) (add32 0 44) has (omega arith) (omega arith) in
      let after = segments_placed image n ph m in
      let entry : e_entry after 0x10000 ≡ e_entry f 0 =
        read32-file image after (add32 0x10000 24) (add32 0 24)
          (HasHeaders-segments_placed image n ph m is.segments has) (omega arith) (omega arith) in
      let e : add32 0x10000 ph ≡ 0x10000 + ph = omega arith in
      let e' : add32 (0x10000 + ph) (32 * n) ≡ 0x10000 + ph + 32 * n = omega arith in
      rw (from, number, e, e')
        (run_then _ (load_segments-placed n (n + 1) ph m w (omega arith) fits is.segments has)
          (λ w1. (w1, rw entry refl)))

  -- Let an ATA disk hold, from its second sector on, an ELF file whose program headers are in its first
  -- 4096 bytes, each for a segment that lies behind 0x11000, ends below the last sector of the address
  -- space, and starts as far into a sector in memory as in the file; or no ELF file. The boot loader
  -- reads the first page of the file to ELFHDR; then, of an ELF file, it puts each segment where the
  -- program header says, and enters the kernel at its entry point; otherwise it stops in its loop.
  pub bootmain-placed :
      (m : Mem) (w : W) (disk_has : Contents image)
      → (w' : W) × (bootmain dev polls (m, w)
          ≡ done (
            booted image disk_has,
            (boot_memory image disk_has (placed image 0x10000 4096 0 m), w'),
          ))
  unfolding bootmain
  bootmain-placed m w (kernel is) =
      let magic = magic-file image m ∙ is.magic in
      run_then _
        (readseg-placed disk polls enough 0x10000 4096 0 m w (omega arith) (omega arith) refl)
        (λ w1.
          rw magic
            (load_kernel-placed (placed image 0x10000 4096 0 m) w1 is (placed-HasHeaders image m)))
  bootmain-placed m w (other ne) =
      let bad : (e_magic (placed image 0x10000 4096 0 m) 0x10000 == 0x464c457f) ≡ false =
        ground (arith, magic-file image m) in
      run_then _
        (readseg-placed disk polls enough 0x10000 4096 0 m w (omega arith) (omega arith) refl)
        (λ w1. (dev.outw 0x8a00 0x8e00 (dev.outw 0x8a00 0x8a00 w1), rw bad refl))
