-- ===== src/Boot/Segment.antt =====
-- boot/main.c: readseg puts the bytes of the kernel's image where they belong.
use jos_smp.Base.{
  ℕ, zero, suc, ◌+◌, ◌-◌, ◌*◌, ◌/◌, ◌%◌, ◌^◌, ◌<◌, ◌≤◌, ◌≡◌, refl, arith, ◌&&◌, ltb, leb, fun_ext,
  if◌then◌else◌, false, true, ap, ◌∙◌,
}
use jos_smp.Base.Word.{add32}
use jos_smp.Memory.Defs.{Mem}
use jos_smp.Printfmt.Format.{Run, done, ◌>>=◌}
use jos_smp.Boot.Disk.{Ports, readsect}
use jos_smp.Boot.Sector.{Disk, loaded, store_bytes-block, readsect-loaded}
use jos_smp.Boot.Load.{load_sectors, readseg}

-- Memory with the sectors that hold the `count` bytes from `offset` on in the kernel's image, which
-- starts at the disk's second sector, such that the first of these bytes is at `start`.
abbrev pub placed : (ℕ → ℕ) → ℕ → ℕ → ℕ → Mem → Mem
placed image start count offset m a =
    if leb (start / 512 * 512) a && ltb a ((start + count + 511) / 512 * 512)
    then image (512 + (offset + a - start))
    else m a

-- A run that is done with the one memory is done with the other.
with_memory :
    {W : Type 0} {r : Run (Mem × W)} {m m' : Mem}
    → m ≡ m'
    → ((w : W) × (r ≡ done (m, w)))
    → (w : W) × (r ≡ done (m', w))
with_memory e (w, run) = (w, run ∙ ap (λ m. done (m, w)) e)

-- A run that is done with the memory `m`, and what follows it.
pub run_then :
    {W A : Type 0} {r : Run (Mem × W)} {m : Mem} {result : W → A} (f : Mem × W → Run A)
    → ((w : W) × (r ≡ done (m, w)))
    → ((w : W) → (w' : W) × (f (m, w) ≡ done (result w')))
    → (w' : W) × ((r >>= f) ≡ done (result w'))
run_then f (w, run) next = let (w', run') = next w in (w', ap (λ r. r >>= f) run ∙ run')

loaded-none : (image : ℕ → ℕ) (va at : ℕ) (m : Mem) → loaded image va at (512 * 0) m ≡ m
loaded-none image va at m = fun_ext (λ a. ground arith)

loaded-loaded :
    (image : ℕ → ℕ) (n va at : ℕ) (m : Mem) (a : ℕ)
    → loaded image (va + 512) (at + 512) n (loaded image va at 512 m) a
      ≡ loaded image va at (512 + n) m a
loaded-loaded image n va at m a = ground arith

loaded-placed :
    (image : ℕ → ℕ) (start count offset n : ℕ) (m : Mem) (a : ℕ)
    → start % 512 ≡ offset % 512
    → n ≡ (start + count + 511) / 512 - start / 512
    → loaded image (start / 512 * 512) (512 * (offset / 512 + 1)) (512 * n) m a
      ≡ placed image start count offset m a
loaded-placed image start count offset n m a h size = ground arith

module _ {W : Type 0} {dev : Ports W} {image : ℕ → ℕ} {limit : ℕ} (disk : Disk dev image limit)
    (polls : ℕ) (enough : limit < polls) where
  sector-loaded :
      (va offset : ℕ) (m : Mem) (w : W)
      → va + 512 < 2 ^ 32
      → offset < 2 ^ 28
      → (w' : W) × (readsect dev polls va offset (m, w)
          ≡ done (loaded image va (512 * offset) 512 m, w'))
  sector-loaded va offset m w h k =
      let (w', run) = readsect-loaded disk polls va offset m w enough k in
      (w', rw run (rw (fun_ext (λ a. store_bytes-block image 512 va (512 * offset) m a h)) refl))

  load_sectors-loaded :
      (n fuel va end_va offset : ℕ) (m : Mem) (w : W)
      → n < fuel
      → end_va ≤ va + 512 * n
      → va + 512 * n < end_va + 512
      → va + 512 * n < 2 ^ 32
      → offset + n < 2 ^ 28
      → (w' : W) × (load_sectors dev polls fuel va end_va offset (m, w)
          ≡ done (loaded image va (512 * offset) (512 * n) m, w'))
  unfolding load_sectors
  load_sectors-loaded n zero va end_va offset m w f h k fits few = absurd (omega arith)
  load_sectors-loaded zero (suc fuel) va end_va offset m w f h k fits few =
      let stop : ltb va end_va ≡ false = ground arith in
      (w, rw (stop, loaded-none image va (512 * offset) m) refl)
  load_sectors-loaded (suc n) (suc fuel) va end_va offset m w f h k fits few =
      let go : ltb va end_va ≡ true = ground arith in
      let e : add32 va 512 ≡ va + 512 = omega arith in
      let e' : add32 offset 1 ≡ offset + 1 = omega arith in
      let at : 512 * (offset + 1) ≡ 512 * offset + 512 = omega arith in
      let size : 512 * suc n ≡ 512 + 512 * n = omega arith in
      rw (go, e, e')
        (run_then _ (sector-loaded va offset m w (omega arith) (omega arith)) (λ w1.
          with_memory
            (rw (at, size) (fun_ext (λ a. loaded-loaded image (512 * n) va (512 * offset) m a)))
            (load_sectors-loaded n fuel (va + 512) end_va (offset + 1)
              (loaded image va (512 * offset) 512 m) w1 (omega arith) (omega arith) (omega arith)
              (omega arith) (omega arith))))

  -- readseg of a segment that ends below the last sector of the address space, where `va` is as far
  -- into its sector as `offset` is.
  pub readseg-placed :
      (va count offset : ℕ) (m : Mem) (w : W)
      → va % 2 ^ 24 + count + 512 ≤ 2 ^ 32
      → offset < 2 ^ 32
      → va % 512 ≡ offset % 512
      → (w' : W) × (readseg dev polls va count offset (m, w)
          ≡ done (placed image (va % 2 ^ 24) count offset m, w'))
  unfolding readseg
  readseg-placed va count offset m w fits u h =
      let start = va % 2 ^ 24 in
      let n = (start + count + 511) / 512 - start / 512 in
      let e : start - start % 512 ≡ start / 512 * 512 = omega arith in
      let e' : add32 start count ≡ start + count = omega arith in
      rw (e, e')
        (with_memory
          (fun_ext (λ a. loaded-placed image start count offset n m a (omega arith) (omega arith)))
          (load_sectors-loaded n (count / 512 + 3) (start / 512 * 512) (start + count)
            (offset / 512 + 1) m w (omega arith) (omega arith) (omega arith) (omega arith)
            (omega arith)))
