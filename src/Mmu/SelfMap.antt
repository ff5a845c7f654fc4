-- ===== src/Mmu/SelfMap.antt =====
-- inc/memlayout.h: the page directory as a page table, which shows all page tables at VPT.
use jos_smp.Base.{
  ℕ, ◌+◌, ◌*◌, ◌/◌, ◌%◌, ◌^◌, ◌<◌, ◌≡◌, refl, Option, none, some, ◌==◌, if◌then◌else◌, arith,
}
use jos_smp.Mmu.Layout.{vpt, vpd}
use jos_smp.Mmu.Paging.{pdx, ptx, pgoff, pte_addr}

-- How the processor translates a linear address: `word` gives the 32-bit word at a physical address,
-- `pd` is the page directory's. Bit 0 of an entry, PTE_P, says that it is present.
abbrev pub translate : (ℕ → ℕ) → ℕ → ℕ → Option ℕ
translate word pd la =
    let pde = word (pd + 4 * pdx la) in
    let pte = word (pte_addr pde + 4 * ptx la) in
    if pde % 2 == 1 then (if pte % 2 == 1 then some (pte_addr pte + pgoff la) else none) else none

-- The physical address of the entry that maps the page with number `n`.
abbrev pub entry_at : (ℕ → ℕ) → ℕ → ℕ → ℕ
entry_at word pd n = pte_addr (word (pd + 4 * (n / 1024))) + 4 * (n % 1024)

-- Let the page directory's entry for VPT be present and hold the directory's own address. Then, for
-- each page number whose page table is present, the word at `vpt[n]` is the page table entry of that
-- page; and the word at `vpd[i]` is the page directory's entry `i`.
pub vpt_lem :
    (word : ℕ → ℕ) (pd n i : ℕ)
    → word (pd + 4 * (vpt / 2 ^ 22)) % 2 ≡ 1
    → pte_addr (word (pd + 4 * (vpt / 2 ^ 22))) ≡ pd
    → n < 2 ^ 20
    → word (pd + 4 * (n / 1024)) % 2 ≡ 1
    → i < 1024
    → (translate word pd (vpt + 4 * n) ≡ some (entry_at word pd n))
      × (translate word pd (vpd + 4 * i) ≡ some (pd + 4 * i))
unfolding pdx ptx pgoff
vpt_lem word pd n i present self hn table hi =
    let d : (vpt + 4 * n) / 2 ^ 22 % 0x400 ≡ vpt / 2 ^ 22 = omega arith in
    let t : (vpt + 4 * n) / 2 ^ 12 % 0x400 ≡ n / 1024 = omega arith in
    let o : (vpt + 4 * n) % 0x1000 ≡ 4 * (n % 1024) = omega arith in
    let d' : (vpd + 4 * i) / 2 ^ 22 % 0x400 ≡ vpt / 2 ^ 22 = omega arith in
    let t' : (vpd + 4 * i) / 2 ^ 12 % 0x400 ≡ vpt / 2 ^ 22 = omega arith in
    let o' : (vpd + 4 * i) % 0x1000 ≡ 4 * i = omega arith in
    (rw (d, t, o, self, present, table) refl, rw (d', t', o', self, present, self) refl)
