-- ===== src/Mmu/Paging.antt =====
-- inc/mmu.h, part 1: the parts of a linear address, and page table entries. A right shift is a
-- division and a mask of low bits a remainder; a left shift of a 32-bit word wraps.
use Prim.Native.Nat.{bit_or}
use jos_smp.Base.{ℕ, ◌+◌, ◌-◌, ◌*◌, ◌/◌, ◌%◌, ◌^◌, ◌<◌, ◌≡◌, arith}
use jos_smp.Base.BitOr.{bit_or-add}

abbrev pub ptx_shift : ℕ
ptx_shift = 12

abbrev pub pdx_shift : ℕ
pdx_shift = 22

unfoldable pub ppn : ℕ → ℕ
ppn la = la / 2 ^ ptx_shift

unfoldable pub pdx : ℕ → ℕ
pdx la = la / 2 ^ pdx_shift % 0x400

unfoldable pub ptx : ℕ → ℕ
ptx la = la / 2 ^ ptx_shift % 0x400

unfoldable pub pgoff : ℕ → ℕ
pgoff la = la % 0x1000

unfoldable pub pgaddr : ℕ → ℕ → ℕ → ℕ
pgaddr d t o = bit_or (bit_or (d * 2 ^ pdx_shift % 2 ^ 32) (t * 2 ^ ptx_shift % 2 ^ 32)) o

-- NPDENTRIES, NPTENTRIES, PGSIZE, PTSIZE
abbrev pub npdentries : ℕ
npdentries = 1024

abbrev pub nptentries : ℕ
nptentries = 1024

abbrev pub pgsize : ℕ
pgsize = 4096

abbrev pub ptsize : ℕ
ptsize = pgsize * nptentries

-- `pte & ~0xFFF`
unfoldable pub pte_addr : ℕ → ℕ
pte_addr pte = pte - pte % 0x1000

module _ (d t o : ℕ) (hd : d < npdentries) (ht : t < nptentries) (ho : o < pgsize) where
  pgaddr-add : pgaddr d t o ≡ d * 0x400000 + t * 0x1000 + o
  unfolding pgaddr
  pgaddr-add =
      let table : d * 2 ^ 22 % 2 ^ 32 ≡ d * 0x400000 = omega arith in
      let page : t * 2 ^ 12 % 2 ^ 32 ≡ t * 0x1000 = omega arith in
      rw (table, page, bit_or-add 22 (d * 0x400000) (t * 0x1000) (omega arith) (omega arith))
        (bit_or-add 12 (d * 0x400000 + t * 0x1000) o (omega arith) (omega arith))

-- A 32-bit linear address is rebuilt from its directory index, table index and offset, its page
-- number consists of the two indexes; and in-range indexes and an offset are found again in the
-- address that `pgaddr` makes of them, which is a 32-bit address.
pub pgaddr_roundtrip :
    (la d t o : ℕ)
    → la < 2 ^ 32
    → d < npdentries
    → t < nptentries
    → o < pgsize
    → (pgaddr (pdx la) (ptx la) (pgoff la) ≡ la)
      × (ppn la ≡ pdx la * nptentries + ptx la)
      × (pdx (pgaddr d t o) ≡ d)
      × (ptx (pgaddr d t o) ≡ t)
      × (pgoff (pgaddr d t o) ≡ o)
      × (pgaddr d t o < 2 ^ 32)
unfolding ppn pdx ptx pgoff
pgaddr_roundtrip la d t o hla hd ht ho = (
  rw (pgaddr-add (pdx la) (ptx la) (pgoff la) (omega arith) (omega arith) (omega arith))
      (omega arith),
  omega arith,
  rw (pgaddr-add d t o hd ht ho) (omega arith),
  rw (pgaddr-add d t o hd ht ho) (omega arith),
  rw (pgaddr-add d t o hd ht ho) (omega arith),
  rw (pgaddr-add d t o hd ht ho) (omega arith),
)

-- The entry that maps the page frame `pn` with low bits `flags` holds both.
pub pte_addr-flags :
    (pn flags : ℕ)
    → pn < 0x100000
    → flags < pgsize
    → (pte_addr (bit_or (pn * pgsize) flags) ≡ pn * pgsize)
      × (pgoff (bit_or (pn * pgsize) flags) ≡ flags)
unfolding pte_addr pgoff
pte_addr-flags pn flags hp hf =
    rw (bit_or-add 12 (pn * pgsize) flags (omega arith) (omega arith)) (omega arith, omega arith)

-- PTE_P and so on: the flags of an entry.
abbrev pub pte_p : ℕ
pte_p = 0x001

abbrev pub pte_w : ℕ
pte_w = 0x002

abbrev pub pte_u : ℕ
pte_u = 0x004

abbrev pub pte_pwt : ℕ
pte_pwt = 0x008

abbrev pub pte_pcd : ℕ
pte_pcd = 0x010

abbrev pub pte_a : ℕ
pte_a = 0x020

abbrev pub pte_d : ℕ
pte_d = 0x040

abbrev pub pte_ps : ℕ
pte_ps = 0x080

abbrev pub pte_mbz : ℕ
pte_mbz = 0x180

abbrev pub pte_avail : ℕ
pte_avail = 0xe00

abbrev pub pte_user : ℕ
pte_user = bit_or (bit_or (bit_or pte_avail pte_p) pte_w) pte_u
