-- ===== src/Mmu/Segments.antt =====
-- inc/mmu.h, part 2: segment descriptors, by the C macros and by the assembler's.
use Prim.Native.Nat.{bit_or}
use jos_smp.Base.{ℕ, ◌+◌, ◌*◌, ◌/◌, ◌%◌, ◌^◌, ◌<◌, ◌≡◌, arith, List, [], ◌∷◌, ◌==◌, if◌then◌else◌}
use jos_smp.Base.BitOr.{bit_or-add}

-- The bit-fields, first the lowest bits.
pub record Segdesc : Type 0 where
  pub sd_lim_15_0 : ℕ
  pub sd_base_15_0 : ℕ
  pub sd_base_23_16 : ℕ
  pub sd_type : ℕ
  pub sd_s : ℕ
  pub sd_dpl : ℕ
  pub sd_p : ℕ
  pub sd_lim_19_16 : ℕ
  pub sd_avl : ℕ
  pub sd_rsv1 : ℕ
  pub sd_db : ℕ
  pub sd_g : ℕ
  pub sd_base_31_24 : ℕ

-- An initializer in the order of the fields; a store to a bit-field keeps its low bits.
abbrev pub segdesc : ℕ → ℕ → ℕ → ℕ → ℕ → ℕ → ℕ → ℕ → ℕ → ℕ → ℕ → ℕ → ℕ → Segdesc
segdesc l0 b0 b16 type s dpl p l16 avl rsv1 db g b24 = record {
  sd_lim_15_0 = l0 % 2 ^ 16;
  sd_base_15_0 = b0 % 2 ^ 16;
  sd_base_23_16 = b16 % 2 ^ 8;
  sd_type = type % 2 ^ 4;
  sd_s = s % 2;
  sd_dpl = dpl % 2 ^ 2;
  sd_p = p % 2;
  sd_lim_19_16 = l16 % 2 ^ 4;
  sd_avl = avl % 2;
  sd_rsv1 = rsv1 % 2;
  sd_db = db % 2;
  sd_g = g % 2;
  sd_base_31_24 = b24 % 2 ^ 8;
}

unfoldable pub seg_null : Segdesc
seg_null = segdesc 0 0 0 0 0 0 0 0 0 0 0 0 0

unfoldable pub seg_fault : Segdesc
seg_fault = segdesc 0 0 0 0 1 0 1 0 0 0 1 0 0

unfoldable pub seg : ℕ → ℕ → ℕ → ℕ → Segdesc
seg type base lim dpl =
    segdesc (lim / 2 ^ 12 % 0x10000) (base % 0x10000) (base / 2 ^ 16 % 0x100) type 1 dpl 1
      (lim / 2 ^ 28) 0 0 1 1 (base / 2 ^ 24)

unfoldable pub seg16 : ℕ → ℕ → ℕ → ℕ → Segdesc
seg16 type base lim dpl =
    segdesc (lim % 0x10000) (base % 0x10000) (base / 2 ^ 16 % 0x100) type 1 dpl 1 (lim / 2 ^ 16) 0 0
      1 0 (base / 2 ^ 24)

-- The assembler's SEG(type, base, lim), byte by byte, a `.word` with its low byte first.
unfoldable pub seg_asm : ℕ → ℕ → ℕ → List ℕ
seg_asm type base lim =
    let limit = lim / 2 ^ 12 % 0x10000 in
    let low = base % 0x10000 in
    (limit % 0x100)
    ∷ (limit / 0x100)
    ∷ (low % 0x100)
    ∷ (low / 0x100)
    ∷ (base / 2 ^ 16 % 0x100)
    ∷ (bit_or 0x90 type % 0x100)
    ∷ bit_or 0xc0 (lim / 2 ^ 28 % 0x10)
    ∷ (base / 2 ^ 24 % 0x100)
    ∷ []

-- The eight bytes of a descriptor in memory, as the order and widths of the fields lay it out.
unfoldable pub layout : Segdesc → List ℕ
layout d =
    (d.sd_lim_15_0 % 0x100)
    ∷ (d.sd_lim_15_0 / 0x100)
    ∷ (d.sd_base_15_0 % 0x100)
    ∷ (d.sd_base_15_0 / 0x100)
    ∷ d.sd_base_23_16
    ∷ (d.sd_type + d.sd_s * 16 + d.sd_dpl * 32 + d.sd_p * 128)
    ∷ (d.sd_lim_19_16 + d.sd_avl * 16 + d.sd_rsv1 * 32 + d.sd_db * 64 + d.sd_g * 128)
    ∷ d.sd_base_31_24
    ∷ []

-- What the processor reads in a descriptor: the segment's first address, and its last offset.
unfoldable pub base_of : Segdesc → ℕ
base_of d = d.sd_base_15_0 + d.sd_base_23_16 * 2 ^ 16 + d.sd_base_31_24 * 2 ^ 24

unfoldable pub limit_of : Segdesc → ℕ
limit_of d =
    let raw = d.sd_lim_15_0 + d.sd_lim_19_16 * 2 ^ 16 in
    if d.sd_g == 1 then raw * 4096 + 4095 else raw

layout-seg :
    (type base lim : ℕ)
    → type < 16
    → base < 2 ^ 32
    → lim < 2 ^ 32
    → layout (seg type base lim 0) ≡ seg_asm type base lim
unfolding layout seg seg_asm
layout-seg type base lim ht hb hl =
    rw
      (
        bit_or-add 4 0x90 type (omega arith) (omega arith),
        bit_or-add 4 0xc0 (lim / 2 ^ 28 % 0x10) (omega arith) (omega arith),
      )
      (ground arith)

-- The processor finds in a descriptor that SEG makes of 32-bit numbers the base as given and the
-- limit rounded up to the end of its 4096-byte page; in one that SEG16 makes of a 20-bit limit, both
-- as given; and in each the type and the privilege level. With privilege level 0, SEG lays out the
-- eight bytes that the assembler's macro of that name does.
pub seg_lem :
    (type base lim lim16 dpl : ℕ)
    → type < 16
    → base < 2 ^ 32
    → lim < 2 ^ 32
    → lim16 < 2 ^ 20
    → dpl < 4
    → (base_of (seg type base lim dpl) ≡ base)
      × (limit_of (seg type base lim dpl) ≡ lim / 4096 * 4096 + 4095)
      × ((seg type base lim dpl).sd_type ≡ type)
      × ((seg type base lim dpl).sd_dpl ≡ dpl)
      × (base_of (seg16 type base lim16 dpl) ≡ base)
      × (limit_of (seg16 type base lim16 dpl) ≡ lim16)
      × ((seg16 type base lim16 dpl).sd_type ≡ type)
      × ((seg16 type base lim16 dpl).sd_dpl ≡ dpl)
      × (layout (seg type base lim 0) ≡ seg_asm type base lim)
unfolding base_of limit_of seg seg16
seg_lem type base lim lim16 dpl ht hb hl hl16 hd = (
  omega arith,
  omega arith,
  omega arith,
  omega arith,
  omega arith,
  omega arith,
  omega arith,
  omega arith,
  layout-seg type base lim ht hb hl,
)
