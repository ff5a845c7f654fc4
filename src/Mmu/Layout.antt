-- ===== src/Mmu/Layout.antt =====
-- inc/memlayout.h: the segment selectors and the map of the virtual memory.
use jos_smp.Base.{ℕ, ◌+◌, ◌-◌, ◌*◌, ◌/◌, ◌^◌}
use jos_smp.Mmu.Paging.{pgsize, ptsize}

-- GD_KT, GD_KD, GD_UT, GD_UD, GD_TSS
abbrev pub gd_kt : ℕ
gd_kt = 0x08

abbrev pub gd_kd : ℕ
gd_kd = 0x10

abbrev pub gd_ut : ℕ
gd_ut = 0x18

abbrev pub gd_ud : ℕ
gd_ud = 0x20

abbrev pub gd_tss : ℕ
gd_tss = 0x28

abbrev pub kernbase : ℕ
kernbase = 0xf0000000

abbrev pub iophysmem : ℕ
iophysmem = 0x0a0000

abbrev pub extphysmem : ℕ
extphysmem = 0x100000

abbrev pub vpt : ℕ
vpt = kernbase - ptsize

-- entry.S gives this value to the symbol `vpd`.
abbrev pub vpd : ℕ
vpd = vpt + vpt / 2 ^ 10

abbrev pub kstacktop : ℕ
kstacktop = vpt

abbrev pub kstksize : ℕ
kstksize = 8 * pgsize

abbrev pub ulim : ℕ
ulim = kstacktop - ptsize

abbrev pub uvpt : ℕ
uvpt = ulim - ptsize

abbrev pub upages : ℕ
upages = uvpt - ptsize

abbrev pub uenvs : ℕ
uenvs = upages - ptsize

abbrev pub utop : ℕ
utop = uenvs

abbrev pub uxstacktop : ℕ
uxstacktop = utop

abbrev pub ustacktop : ℕ
ustacktop = utop - 2 * pgsize

abbrev pub utext : ℕ
utext = 2 * ptsize

abbrev pub utemp : ℕ
utemp = ptsize

abbrev pub pftemp : ℕ
pftemp = utemp + ptsize - pgsize

abbrev pub ustabdata : ℕ
ustabdata = ptsize / 2
