-- ===== src/Mmu/Tests.antt =====
-- inc/mmu.h and inc/types.h: each theorem at an input.

use jos_smp.Base.{◌+◌, ◌*◌, ◌/◌, ◌≡◌, refl, arith, false, [], ◌∷◌}
use jos_smp.Mmu.Paging.{pgaddr, pdx, ptx, pgoff, pte_addr, ppn}
use jos_smp.Mmu.Segments.{seg, seg16, seg_asm, layout, base_of, limit_of, seg_lem}
use jos_smp.Mmu.Gates.{Gatedesc, setgate, setcallgate, entry_of, low_word, high_word, setgate_lem}
use jos_smp.Mmu.Layout.{vpt, vpd}
use jos_smp.Mmu.SelfMap.{translate, entry_at, vpt_lem}
use jos_smp.Base.{ℕ, some, ◌==◌, if◌then◌else◌}
use jos_smp.Mmu.Rounding.{rounddown, roundup}

-- The kernel's first page: PDX 0x3c0, PTX 0x100.
paging_runs :
    (pgaddr (pdx 0xf0100123) (ptx 0xf0100123) (pgoff 0xf0100123) ≡ 0xf0100123)
    × (pdx 0xf0100123 ≡ 0x3c0)
    × (ptx 0xf0100123 ≡ 0x100)
    × (ppn 0xf0100123 ≡ 0xf0100)
unfolding pgaddr pdx ptx pgoff ppn
paging_runs = (refl, refl, refl, refl)

-- The boot loader's code segment: readable and executable, 4 GB from 0 on.
code_bytes : seg_asm 0xa 0 0xffffffff ≡ 0xff ∷ 0xff ∷ 0 ∷ 0 ∷ 0 ∷ 0x9a ∷ 0xcf ∷ 0 ∷ []
unfolding seg_asm
code_bytes = refl

seg_lem_example :
    (base_of (seg 0x2 0x12345678 0x7654321 3) ≡ 0x12345678)
    × (limit_of (seg 0x2 0x12345678 0x7654321 3) ≡ 0x7654321 / 4096 * 4096 + 4095)
    × ((seg 0x2 0x12345678 0x7654321 3).sd_type ≡ 0x2)
    × ((seg 0x2 0x12345678 0x7654321 3).sd_dpl ≡ 3)
    × (base_of (seg16 0x2 0x12345678 0x67 3) ≡ 0x12345678)
    × (limit_of (seg16 0x2 0x12345678 0x67 3) ≡ 0x67)
    × ((seg16 0x2 0x12345678 0x67 3).sd_type ≡ 0x2)
    × ((seg16 0x2 0x12345678 0x67 3).sd_dpl ≡ 3)
    × (layout (seg 0x2 0x12345678 0x7654321 0) ≡ seg_asm 0x2 0x12345678 0x7654321)
seg_lem_example =
    seg_lem 0x2 0x12345678 0x7654321 0x67 3 (omega arith) (omega arith) (omega arith) (omega arith)
      (omega arith)

abbrev stale : Gatedesc
stale = record {
  gd_off_15_0 = 1;
  gd_ss = 2;
  gd_args = 3;
  gd_rsv1 = 4;
  gd_type = 5;
  gd_s = 1;
  gd_dpl = 3;
  gd_p = 0;
  gd_off_31_16 = 6;
}

setgate_lem_example :
    (entry_of
        (low_word (setgate stale false 8 0xf0103abc 3))
        (high_word (setgate stale false 8 0xf0103abc 3))
      ≡ record { handler = 0xf0103abc; selector = 8; kind = 0xe; level = 3; is_present = 1 })
    × (entry_of
          (low_word (setcallgate stale 8 0xf0103abc 3))
          (high_word (setcallgate stale 8 0xf0103abc 3))
        ≡ record { handler = 0xf0103abc; selector = 8; kind = 0xc; level = 3; is_present = 1 })
setgate_lem_example =
    setgate_lem stale false 8 0xf0103abc 3 (omega arith) (omega arith) (omega arith)

rounding_runs :
    (rounddown 0x1234 4096 ≡ 0x1000) × (roundup 0x1234 4096 ≡ 0x2000) × (roundup 0 4096 ≡ 0)
unfolding rounddown roundup
rounding_runs = (refl, refl, refl)

-- A page directory at 0x1000 whose entry 0x3bf, for VPT, is itself, and whose entry 0 is a page
-- table at 0x2000.
abbrev paged : ℕ → ℕ
paged a = if a == 0x1000 + 4 * 0x3bf then 0x1003 else if a == 0x1000 then 0x2003 else 0

vpt_lem_example :
    (translate paged 0x1000 (vpt + 4 * 5) ≡ some (entry_at paged 0x1000 5))
    × (translate paged 0x1000 (vpd + 4 * 7) ≡ some (0x1000 + 4 * 7))
unfolding pte_addr
vpt_lem_example = vpt_lem paged 0x1000 5 7 refl refl (omega arith) refl (omega arith)

fifth_entry : entry_at paged 0x1000 5 ≡ 0x2014
unfolding pte_addr
fifth_entry = refl
