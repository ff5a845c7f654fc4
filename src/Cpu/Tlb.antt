-- ===== src/Cpu/Tlb.antt =====
-- inc/x86.h: invlpg, lcr3 and tlbflush keep the translations that the processor remembers right.
use jos_smp.Base.{
  ℕ, ◌+◌, ◌*◌, ◌/◌, ◌%◌, ◌^◌, ◌<◌, ◌≡◌, ◌≢◌, refl, sym, ap, ◌∙◌, Option, none, some, ◌==◌,
  if◌then◌else◌, arith, Bool-cases, inl, inr,
}
use jos_smp.Cpu.Registers.{Cpu, invlpg, lcr3, rcr2, rcr3, tlbflush}
use jos_smp.Mmu.Paging.{pdx, ptx, pgoff, pte_addr}
use jos_smp.Mmu.SelfMap.{translate}

-- The frame that the page tables give to a page number, by their words in memory and %cr3.
abbrev pub frame : (ℕ → ℕ) → ℕ → ℕ → Option ℕ
frame word cr3 page = translate word (pte_addr cr3) (2 ^ 12 * page)

abbrev at_offset : ℕ → Option ℕ → Option ℕ
at_offset o none = none
at_offset o (some f) = some (f + o)

-- An access to a linear address: by the frame that is remembered, or else by the page tables, whose
-- frame is then remembered. Where there is none, a page fault puts the address into %cr2.
abbrev pub filled : ℕ → Cpu → Option ℕ → Option ℕ × Cpu
filled la c none = (none, record c { cr2 = la })
filled la c (some f) = (
  some (f + la % 2 ^ 12),
  record c { tlb = λ (p : ℕ). if p == la / 2 ^ 12 then some f else c.tlb p },
)

abbrev pub served : (ℕ → ℕ) → ℕ → Cpu → Option ℕ → Option ℕ × Cpu
served word la c none = filled la c (frame word c.cr3 (la / 2 ^ 12))
served word la c (some f) = (some (f + la % 2 ^ 12), c)

unfoldable pub access : (ℕ → ℕ) → ℕ → Cpu → Option ℕ × Cpu
access word la c = served word la c (c.tlb (la / 2 ^ 12))

-- What is remembered is what the page tables say.
abbrev pub Coherent : (ℕ → ℕ) → Cpu → Type 0
Coherent word c = (p f : ℕ) → c.tlb p ≡ some f → (p < 2 ^ 20) × (frame word c.cr3 p ≡ some f)

abbrev fault_address : ℕ → ℕ → Option ℕ → ℕ
fault_address la old none = la
fault_address la old (some a) = old

-- An access goes where the page tables say; what is remembered stays right; and %cr2 is the address
-- where there is no page, or as before.
abbrev pub Right : (ℕ → ℕ) → ℕ → Cpu → Type 0
Right word la c =
    ((access word la c).0 ≡ translate word (pte_addr c.cr3) la)
    × Coherent word (access word la c).1
    × (rcr2 (access word la c).1 ≡ fault_address la (rcr2 c) (translate word (pte_addr c.cr3) la))

-- The two parts of an address.
translate-frame :
    (word : ℕ → ℕ) (cr3 la : ℕ)
    → la < 2 ^ 32
    → translate word (pte_addr cr3) la ≡ at_offset (la % 2 ^ 12) (frame word cr3 (la / 2 ^ 12))
unfolding pdx ptx pgoff
translate-frame word cr3 la h =
    let d : 2 ^ 12 * (la / 2 ^ 12) / 2 ^ 22 % 0x400 ≡ la / 2 ^ 22 % 0x400 = omega arith in
    let t : 2 ^ 12 * (la / 2 ^ 12) / 2 ^ 12 % 0x400 ≡ la / 2 ^ 12 % 0x400 = omega arith in
    let o : 2 ^ 12 * (la / 2 ^ 12) % 0x1000 ≡ 0 = omega arith in
    let pde = word (pte_addr cr3 + 4 * (la / 2 ^ 22 % 0x400)) in
    elim (Bool-cases (pde % 2 == 1)) [
      | inl y ↦ elim (Bool-cases (word (pte_addr pde + 4 * (la / 2 ^ 12 % 0x400)) % 2 == 1)) [
        | inl z ↦ rw (d, t, o, y, z) (ground arith)
        | inr z ↦ rw (d, t, o, y, z) refl
      ]
      | inr n ↦ rw (d, t, o, n) refl
    ]

filled_lem :
    (word : ℕ → ℕ) (la : ℕ) (c : Cpu) (here : Option ℕ)
    → la < 2 ^ 32
    → frame word c.cr3 (la / 2 ^ 12) ≡ here
    → Coherent word c
    → ((filled la c here).0 ≡ at_offset (la % 2 ^ 12) here)
      × Coherent word (filled la c here).1
      × (rcr2 (filled la c here).1 ≡ fault_address la (rcr2 c) (at_offset (la % 2 ^ 12) here))
unfolding rcr2
filled_lem word la c none h e all = (refl, all, refl)
filled_lem word la c (some f) h e all = (
  refl,
  λ p g known. elim (Bool-cases (p == la / 2 ^ 12)) [
    | inl y ↦
        let same : p ≡ la / 2 ^ 12 = ground arith in
        let here : some f ≡ some g = rw y at known in rw same (omega arith, e ∙ here)
    | inr n ↦ let before : c.tlb p ≡ some g = rw n at known in all p g before
  ],
  refl,
)

served_lem :
    (word : ℕ → ℕ) (la : ℕ) (c : Cpu) (found : Option ℕ)
    → c.tlb (la / 2 ^ 12) ≡ found
    → la < 2 ^ 32
    → Coherent word c
    → ((served word la c found).0 ≡ translate word (pte_addr c.cr3) la)
      × Coherent word (served word la c found).1
      × (rcr2 (served word la c found).1
          ≡ fault_address la (rcr2 c) (translate word (pte_addr c.cr3) la))
unfolding rcr2
served_lem word la c none e h all =
    let (value, kept, fault) = filled_lem word la c (frame word c.cr3 (la / 2 ^ 12)) h refl all in
    let split = translate-frame word c.cr3 la h in
    (value ∙ sym split, kept, fault ∙ ap (fault_address la c.cr2) (sym split))
served_lem word la c (some f) e h all =
    let split : translate word (pte_addr c.cr3) la ≡ some (f + la % 2 ^ 12) =
      translate-frame word c.cr3 la h ∙ ap (at_offset (la % 2 ^ 12)) (all (la / 2 ^ 12) f e).1 in
    (sym split, all, ap (fault_address la c.cr2) (sym split))

access_lem : (word : ℕ → ℕ) (la : ℕ) (c : Cpu) → la < 2 ^ 32 → Coherent word c → Right word la c
unfolding access
access_lem word la c h all = served_lem word la c (c.tlb (la / 2 ^ 12)) refl h all

-- Let what the processor remembers agree with the page tables, and the tables then be changed. If
-- the change is to the translation of one page only, invlpg of an address in that page is enough:
-- each access goes where the new tables say, and what is remembered agrees with them; a fault leaves
-- its address for rcr2. After lcr3, or after tlbflush, which keeps %cr3, that is so whatever was
-- changed and remembered.
pub access-invlpg :
    (word word' : ℕ → ℕ) (c : Cpu) (addr val la : ℕ)
    → Coherent word c
    → ((q : ℕ) → q < 2 ^ 20 → q ≢ addr / 2 ^ 12 → frame word' c.cr3 q ≡ frame word c.cr3 q)
    → la < 2 ^ 32
    → Right word' la (invlpg addr c)
      × Right word' la (lcr3 val c)
      × Right word' la (tlbflush c)
      × (rcr3 (lcr3 val c) ≡ val)
      × (rcr3 (tlbflush c) ≡ rcr3 c)
unfolding invlpg lcr3 tlbflush
access-invlpg word word' c addr val la all others h = (
  access_lem word' la (invlpg addr c) h (λ p f known. elim (Bool-cases (p == addr / 2 ^ 12)) [
    | inl y ↦ let gone : none ≡ some f = rw y at known in absurd (cc)
    | inr n ↦
        let before : c.tlb p ≡ some f = rw n at known in
        let other : p ≢ addr / 2 ^ 12 = ground arith in
        let (low, here) = all p f before in (low, others p low other ∙ here)
  ]),
  access_lem word' la (lcr3 val c) h (λ p f known. absurd (cc)),
  access_lem word' la (tlbflush c) h (λ p f known. absurd (cc)),
  refl,
  refl,
)
