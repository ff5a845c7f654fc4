-- ===== src/Cpu/Registers.antt =====
-- inc/x86.h: the functions that reach the processor's registers, its stack and its translation
-- lookaside buffer (TLB). What the instructions do is that of the processor's manual, at privilege
-- level 0 with paging as this kernel uses it: 4096-byte pages, none of them global.
use Prim.Native.Nat.{bit_and, bit_or}
use jos_smp.Base.{ℕ, ◌+◌, ◌-◌, ◌/◌, ◌%◌, ◌^◌, Option, none, ◌==◌, if◌then◌else◌}
use jos_smp.Base.Word.{add32, sub32}
use jos_smp.Cpu.Strings.{store32, load16, load32}
use jos_smp.Memory.Defs.{Mem}
use jos_smp.Mmu.Flags.{
  cr0_pg, cr4_pse, fl_cf, fl_pf, fl_af, fl_zf, fl_sf, fl_tf, fl_if, fl_df, fl_of, fl_iopl_mask,
  fl_nt, fl_rf, fl_vm, fl_ac, fl_id,
}

-- `idt` is the limit and base of the interrupt table, `tlb` the frame of each page number that the
-- processor remembers, `tsc` the time-stamp counter.
pub record Cpu : Type 0 where
  pub cr0 : ℕ
  pub cr2 : ℕ
  pub cr3 : ℕ
  pub cr4 : ℕ
  pub eflags : ℕ
  pub esp : ℕ
  pub ebp : ℕ
  pub idt : ℕ × ℕ
  pub ldt : ℕ
  pub tr : ℕ
  pub tsc : ℕ
  pub tlb : ℕ → Option ℕ

abbrev pub forgotten : ℕ → Option ℕ
forgotten p = none

unfoldable pub invlpg : ℕ → Cpu → Cpu
invlpg addr c = record c { tlb = λ (p : ℕ). if p == addr / 2 ^ 12 then none else c.tlb p }

-- The six bytes at the operand: the limit and the base.
unfoldable pub lidt : ℕ → Mem → Cpu → Cpu
lidt p m c = record c { idt = (load16 m p, load32 m (add32 p 2)) }

unfoldable pub lldt : ℕ → Cpu → Cpu
lldt sel c = record c { ldt = sel % 2 ^ 16 }

unfoldable pub ltr : ℕ → Cpu → Cpu
ltr sel c = record c { tr = sel % 2 ^ 16 }

-- Paging turned off, or pages of another size, empty the TLB.
unfoldable pub lcr0 : ℕ → Cpu → Cpu
lcr0 val c = record c { cr0 = val; tlb = if bit_and val cr0_pg == 0 then forgotten else c.tlb }

unfoldable pub rcr0 : Cpu → ℕ
rcr0 c = c.cr0

unfoldable pub rcr2 : Cpu → ℕ
rcr2 c = c.cr2

unfoldable pub lcr3 : ℕ → Cpu → Cpu
lcr3 val c = record c { cr3 = val; tlb = forgotten }

unfoldable pub rcr3 : Cpu → ℕ
rcr3 c = c.cr3

unfoldable pub lcr4 : ℕ → Cpu → Cpu
lcr4 val c = record c {
  cr4 = val;
  tlb = if bit_and val cr4_pse == bit_and c.cr4 cr4_pse then c.tlb else forgotten;
}

unfoldable pub rcr4 : Cpu → ℕ
rcr4 c = c.cr4

unfoldable pub tlbflush : Cpu → Cpu
unfolding lcr3 rcr3
tlbflush c = let cr3 = rcr3 c in lcr3 cr3 c

-- What pushfl stores: EFLAGS with RF and VM cleared.
abbrev pub pushed : ℕ → ℕ
pushed eflags = bit_and eflags (2 ^ 32 - 1 - fl_rf - fl_vm)

-- The flags that popfl sets; bit 1 is always set, VM stays, and RF, VIF and VIP are cleared.
abbrev pub settable : ℕ
settable =
    fl_cf + fl_pf + fl_af + fl_zf + fl_sf + fl_tf + fl_if + fl_df + fl_of + fl_iopl_mask + fl_nt
    + fl_ac + fl_id

abbrev pub popped : ℕ → ℕ → ℕ
popped val eflags = bit_or (bit_or (bit_and val settable) 2) (bit_and eflags fl_vm)

-- `pushl` and `popl`
abbrev pub push : ℕ → Mem × Cpu → Mem × Cpu
push v (m, c) = let p = sub32 c.esp 4 in (store32 p v m, record c { esp = p })

abbrev pub pop : Mem × Cpu → ℕ × (Mem × Cpu)
pop (m, c) = (load32 m c.esp, (m, record c { esp = add32 c.esp 4 }))

unfoldable pub read_eflags : Mem × Cpu → ℕ × (Mem × Cpu)
read_eflags (m, c) = pop (push (pushed c.eflags) (m, c))

unfoldable pub write_eflags : ℕ → Mem × Cpu → Mem × Cpu
write_eflags eflags s =
    let (v, (m, c)) = pop (push eflags s) in (m, record c { eflags = popped v c.eflags })

unfoldable pub read_ebp : Cpu → ℕ
read_ebp c = c.ebp

unfoldable pub read_esp : Cpu → ℕ
read_esp c = c.esp

-- kern/monitor.c: the word behind the caller's frame pointer.
unfoldable pub read_eip : Mem × Cpu → ℕ
read_eip (m, c) = load32 m (add32 c.ebp 4)

-- `if (p) *p = v;`
abbrev pub store_if : ℕ → ℕ → Mem → Mem
store_if p v m = if p == 0 then m else store32 p v m

-- What the processor answers is a parameter.
unfoldable pub cpuid : (ℕ → ℕ × ℕ × ℕ × ℕ) → ℕ → ℕ → ℕ → ℕ → ℕ → Mem → Mem
cpuid answers info eaxp ebxp ecxp edxp m =
    let (eax, ebx, ecx, edx) = answers info in
    store_if edxp edx (store_if ecxp ecx (store_if ebxp ebx (store_if eaxp eax m)))

-- 64 bits.
unfoldable pub read_tsc : Cpu → ℕ
read_tsc c = c.tsc % 2 ^ 64
