-- ===== src/Mmu/Flags.antt =====
-- inc/mmu.h: the flags of control registers, of EFLAGS, of page faults and of segment types.
use jos_smp.Base.{ℕ}

abbrev pub cr0_pe : ℕ
cr0_pe = 0x00000001

abbrev pub cr0_mp : ℕ
cr0_mp = 0x00000002

abbrev pub cr0_em : ℕ
cr0_em = 0x00000004

abbrev pub cr0_ts : ℕ
cr0_ts = 0x00000008

abbrev pub cr0_et : ℕ
cr0_et = 0x00000010

abbrev pub cr0_ne : ℕ
cr0_ne = 0x00000020

abbrev pub cr0_wp : ℕ
cr0_wp = 0x00010000

abbrev pub cr0_am : ℕ
cr0_am = 0x00040000

abbrev pub cr0_nw : ℕ
cr0_nw = 0x20000000

abbrev pub cr0_cd : ℕ
cr0_cd = 0x40000000

abbrev pub cr0_pg : ℕ
cr0_pg = 0x80000000

abbrev pub cr4_pce : ℕ
cr4_pce = 0x00000100

abbrev pub cr4_mce : ℕ
cr4_mce = 0x00000040

abbrev pub cr4_pse : ℕ
cr4_pse = 0x00000010

abbrev pub cr4_de : ℕ
cr4_de = 0x00000008

abbrev pub cr4_tsd : ℕ
cr4_tsd = 0x00000004

abbrev pub cr4_pvi : ℕ
cr4_pvi = 0x00000002

abbrev pub cr4_vme : ℕ
cr4_vme = 0x00000001

abbrev pub fl_cf : ℕ
fl_cf = 0x00000001

abbrev pub fl_pf : ℕ
fl_pf = 0x00000004

abbrev pub fl_af : ℕ
fl_af = 0x00000010

abbrev pub fl_zf : ℕ
fl_zf = 0x00000040

abbrev pub fl_sf : ℕ
fl_sf = 0x00000080

abbrev pub fl_tf : ℕ
fl_tf = 0x00000100

abbrev pub fl_if : ℕ
fl_if = 0x00000200

abbrev pub fl_df : ℕ
fl_df = 0x00000400

abbrev pub fl_of : ℕ
fl_of = 0x00000800

abbrev pub fl_iopl_mask : ℕ
fl_iopl_mask = 0x00003000

abbrev pub fl_iopl_0 : ℕ
fl_iopl_0 = 0x00000000

abbrev pub fl_iopl_1 : ℕ
fl_iopl_1 = 0x00001000

abbrev pub fl_iopl_2 : ℕ
fl_iopl_2 = 0x00002000

abbrev pub fl_iopl_3 : ℕ
fl_iopl_3 = 0x00003000

abbrev pub fl_nt : ℕ
fl_nt = 0x00004000

abbrev pub fl_rf : ℕ
fl_rf = 0x00010000

abbrev pub fl_vm : ℕ
fl_vm = 0x00020000

abbrev pub fl_ac : ℕ
fl_ac = 0x00040000

abbrev pub fl_vif : ℕ
fl_vif = 0x00080000

abbrev pub fl_vip : ℕ
fl_vip = 0x00100000

abbrev pub fl_id : ℕ
fl_id = 0x00200000

abbrev pub fec_pr : ℕ
fec_pr = 0x1

abbrev pub fec_wr : ℕ
fec_wr = 0x2

abbrev pub fec_u : ℕ
fec_u = 0x4

abbrev pub sta_x : ℕ
sta_x = 0x8

abbrev pub sta_e : ℕ
sta_e = 0x4

abbrev pub sta_c : ℕ
sta_c = 0x4

abbrev pub sta_w : ℕ
sta_w = 0x2

abbrev pub sta_r : ℕ
sta_r = 0x2

abbrev pub sta_a : ℕ
sta_a = 0x1

abbrev pub sts_t16a : ℕ
sts_t16a = 0x1

abbrev pub sts_ldt : ℕ
sts_ldt = 0x2

abbrev pub sts_t16b : ℕ
sts_t16b = 0x3

abbrev pub sts_cg16 : ℕ
sts_cg16 = 0x4

abbrev pub sts_tg : ℕ
sts_tg = 0x5

abbrev pub sts_ig16 : ℕ
sts_ig16 = 0x6

abbrev pub sts_tg16 : ℕ
sts_tg16 = 0x7

abbrev pub sts_t32a : ℕ
sts_t32a = 0x9

abbrev pub sts_t32b : ℕ
sts_t32b = 0xb
