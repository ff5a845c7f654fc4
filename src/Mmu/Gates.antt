-- ===== src/Mmu/Gates.antt =====
-- inc/mmu.h, part 3: gate descriptors for interrupts, traps and calls.
use jos_smp.Base.{ℕ, ◌+◌, ◌*◌, ◌/◌, ◌%◌, ◌^◌, ◌<◌, ◌≡◌, arith, Bool, true, false, if◌then◌else◌}

-- STS_CG32, STS_IG32 and STS_TG32
abbrev pub sts_cg32 : ℕ
sts_cg32 = 0xc

abbrev pub sts_ig32 : ℕ
sts_ig32 = 0xe

abbrev pub sts_tg32 : ℕ
sts_tg32 = 0xf

-- The bit-fields, first the lowest bits.
pub record Gatedesc : Type 0 where
  pub gd_off_15_0 : ℕ
  pub gd_ss : ℕ
  pub gd_args : ℕ
  pub gd_rsv1 : ℕ
  pub gd_type : ℕ
  pub gd_s : ℕ
  pub gd_dpl : ℕ
  pub gd_p : ℕ
  pub gd_off_31_16 : ℕ

-- A store to a bit-field keeps its low bits. `off` is a 32-bit word.
unfoldable pub setgate : Gatedesc → Bool → ℕ → ℕ → ℕ → Gatedesc
setgate gate istrap sel off dpl = record gate {
  gd_off_15_0 = off % 0x10000;
  gd_ss = sel % 2 ^ 16;
  gd_args = 0;
  gd_rsv1 = 0;
  gd_type = if istrap then sts_tg32 else sts_ig32;
  gd_s = 0;
  gd_dpl = dpl % 2 ^ 2;
  gd_p = 1;
  gd_off_31_16 = off / 2 ^ 16 % 2 ^ 16;
}

unfoldable pub setcallgate : Gatedesc → ℕ → ℕ → ℕ → Gatedesc
setcallgate gate ss off dpl = record gate {
  gd_off_15_0 = off % 0x10000;
  gd_ss = ss % 2 ^ 16;
  gd_args = 0;
  gd_rsv1 = 0;
  gd_type = sts_cg32;
  gd_s = 0;
  gd_dpl = dpl % 2 ^ 2;
  gd_p = 1;
  gd_off_31_16 = off / 2 ^ 16 % 2 ^ 16;
}

-- The two 32-bit words of a gate in memory, as the order and widths of the fields lay them out.
unfoldable pub low_word : Gatedesc → ℕ
low_word g = g.gd_off_15_0 + g.gd_ss * 2 ^ 16

unfoldable pub high_word : Gatedesc → ℕ
high_word g =
    g.gd_args
    + g.gd_rsv1 * 2 ^ 5
    + g.gd_type * 2 ^ 8
    + g.gd_s * 2 ^ 12
    + g.gd_dpl * 2 ^ 13
    + g.gd_p * 2 ^ 15
    + g.gd_off_31_16 * 2 ^ 16

-- What the processor reads in the two words.
pub record Entry : Type 0 where
  pub handler : ℕ
  pub selector : ℕ
  pub kind : ℕ
  pub level : ℕ
  pub is_present : ℕ

abbrev pub entry_of : ℕ → ℕ → Entry
entry_of low high = record {
  handler = low % 2 ^ 16 + high / 2 ^ 16 * 2 ^ 16;
  selector = low / 2 ^ 16;
  kind = high / 2 ^ 8 % 2 ^ 5;
  level = high / 2 ^ 13 % 2 ^ 2;
  is_present = high / 2 ^ 15 % 2;
}

-- Whatever the gate held before, the processor reads in a gate that SETGATE or SETCALLGATE set the
-- handler's 32-bit offset, the selector, the kind of the gate and the privilege level as given, and
-- finds it present.
pub setgate_lem :
    (gate : Gatedesc) (istrap : Bool) (sel off dpl : ℕ)
    → sel < 2 ^ 16
    → off < 2 ^ 32
    → dpl < 4
    → (entry_of
          (low_word (setgate gate istrap sel off dpl))
          (high_word (setgate gate istrap sel off dpl))
        ≡ record {
          handler = off;
          selector = sel;
          kind = if istrap then sts_tg32 else sts_ig32;
          level = dpl;
          is_present = 1;
        })
      × (entry_of
            (low_word (setcallgate gate sel off dpl))
            (high_word (setcallgate gate sel off dpl))
          ≡ record { handler = off; selector = sel; kind = sts_cg32; level = dpl; is_present = 1 })
unfolding setgate setcallgate low_word high_word
setgate_lem gate true sel off dpl hs ho hd = ground arith
setgate_lem gate false sel off dpl hs ho hd = ground arith
