-- ===== src/Cpu/Tests.antt =====
-- inc/x86.h: runs of some functions, and each theorem at an input.
use jos_smp.Base.{
  ℕ, zero, suc, ◌/◌, ◌^◌, ◌<◌, ◌≡◌, ◌≢◌, refl, none, some, List, [], ◌∷◌, ◌++◌, ◌==◌, get_or,
  if◌then◌else◌, arith, Bool-cases, inl, inr,
}
use jos_smp.Cpu.Registers.{
  Cpu, invlpg, lcr3, rcr2, rcr3, tlbflush, read_eflags, write_eflags, cpuid,
}
use jos_smp.Cpu.Strings.{Bus, insl, outsl}
use jos_smp.Cpu.Tlb.{access, frame, Coherent, Right, access-invlpg}
use jos_smp.Cpu.Transfer.{Queue, insl-outsl}
use jos_smp.Memory.Defs.{Mem}
use jos_smp.Memory.Move.{moved}
use jos_smp.Mmu.Paging.{pdx, ptx, pgoff, pte_addr}

-- A device that queues the words which are written.
abbrev first_of : List ℕ → ℕ
first_of [] = 0
first_of (v ∷ q) = v

abbrev rest_of : List ℕ → List ℕ
rest_of [] = []
rest_of (v ∷ q) = q

abbrev fifo : Bus (List ℕ)
fifo = record {
  in8 = λ p w. (0, w);
  in16 = λ p w. (0, w);
  in32 = λ p w. (first_of w, rest_of w);
  out8 = λ p v w. w;
  out16 = λ p v w. w;
  out32 = λ p v w. w ++ v ∷ [];
}

fifo-Queue : Queue fifo 0x1f0 (λ w. w)
fifo-Queue = record { queue-out32 = λ v w. refl; in32_first = λ w v q e. rw e (refl, refl) }

abbrev memory : Mem
memory a = get_or (1 ∷ 2 ∷ 3 ∷ 4 ∷ 5 ∷ 6 ∷ 7 ∷ 8 ∷ []) a 0

byte : (a : ℕ) → memory a < 256
byte zero = omega arith
byte (suc zero) = omega arith
byte (suc (suc zero)) = omega arith
byte (suc (suc (suc zero))) = omega arith
byte (suc (suc (suc (suc zero)))) = omega arith
byte (suc (suc (suc (suc (suc zero))))) = omega arith
byte (suc (suc (suc (suc (suc (suc zero)))))) = omega arith
byte (suc (suc (suc (suc (suc (suc (suc zero))))))) = omega arith
byte (suc (suc (suc (suc (suc (suc (suc (suc a)))))))) = omega arith

insl-outsl_example :
    ((a : ℕ)
      → (insl fifo 0x1f0 2 2 (memory, outsl fifo 0x1f0 0 2 memory [])).0 a ≡ moved 2 0 8 memory a)
    × ((insl fifo 0x1f0 2 2 (memory, outsl fifo 0x1f0 0 2 memory [])).1 ≡ [])
insl-outsl_example =
    insl-outsl fifo 0x1f0 (λ w. w) fifo-Queue (omega arith) 2 2 0 memory [] byte (omega arith)
      (omega arith) refl

-- A page directory at 0x1000 with one page table, at 0x2000, in which page 5 has a frame.
abbrev tables : ℕ → ℕ → ℕ
tables pte a = if a == 0x1000 then 0x2003 else if a == 0x2014 then pte else 0

abbrev cpu : Cpu
cpu = record {
  cr0 = 0x80000001;
  cr2 = 0;
  cr3 = 0x1000;
  cr4 = 0;
  eflags = 2;
  esp = 0x8000;
  ebp = 0x9000;
  idt = (0, 0);
  ldt = 0;
  tr = 0;
  tsc = 0;
  tlb = λ (p : ℕ). if p == 5 then some 0x7000 else none;
}

-- The frame is changed from 0x7000 to 0xa000, or taken away.
stale :
    ((access (tables 0xa003) 0x5123 cpu).0 ≡ some 0x7123)
    × ((access (tables 0xa003) 0x5123 (invlpg 0x5fff cpu)).0 ≡ some 0xa123)
    × (rcr2 (access (tables 0) 0x5123 (tlbflush cpu)).1 ≡ 0x5123)
unfolding access invlpg tlbflush rcr2 pdx ptx pgoff pte_addr
stale = (refl, refl, refl)

-- All flags are written: those that can be set are read back, and bit 1.
flags_run :
    ((read_eflags (write_eflags 0xffffffff (memory, cpu))).0 ≡ 0x247fd7)
    × ((read_eflags (memory, cpu)).1.1.esp ≡ 0x8000)
    × ((read_eflags (memory, cpu)).1.0 0x7ffc ≡ 2)
unfolding read_eflags write_eflags
flags_run = (refl, refl, refl)

-- Pointers that are null get nothing; of two that are the same, the later answer stays.
cpuid_run :
    (cpuid (λ i. (i, 7, 8, 9)) 1 0x100 0 0x200 0x100 memory 0x100 ≡ 9)
    × (cpuid (λ i. (i, 7, 8, 9)) 1 0x100 0 0x200 0x100 memory 0 ≡ 1)
    × (cpuid (λ i. (i, 7, 8, 9)) 1 0x100 0 0x200 0x100 memory 0x200 ≡ 8)
unfolding cpuid
cpuid_run = (refl, refl, refl)

cpu-Coherent : Coherent (tables 0x7003) cpu
unfolding pdx ptx pgoff pte_addr
cpu-Coherent p f known = elim (Bool-cases (p == 5)) [
  | inl y ↦
      let same : p ≡ 5 = ground arith in
      let here : some 0x7000 ≡ some f = rw y at known in rw same (omega arith, here)
  | inr n ↦ let gone : none ≡ some f = rw n at known in absurd (cc)
]

others :
    (q : ℕ)
    → q < 2 ^ 20
    → q ≢ 0x5fff / 2 ^ 12
    → frame (tables 0xa003) 0x1000 q ≡ frame (tables 0x7003) 0x1000 q
unfolding pdx ptx pgoff pte_addr
others q h other = ground arith

access-invlpg_example :
    Right (tables 0xa003) 0x5123 (invlpg 0x5fff cpu)
    × Right (tables 0xa003) 0x5123 (lcr3 0x1000 cpu)
    × Right (tables 0xa003) 0x5123 (tlbflush cpu)
    × (rcr3 (lcr3 0x1000 cpu) ≡ 0x1000)
    × (rcr3 (tlbflush cpu) ≡ rcr3 cpu)
access-invlpg_example =
    access-invlpg (tables 0x7003) (tables 0xa003) cpu 0x5fff 0x1000 0x5123 cpu-Coherent others
      (omega arith)
