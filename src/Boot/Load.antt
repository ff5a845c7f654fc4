-- ===== src/Boot/Load.antt =====
-- boot/main.c: readseg and bootmain; inc/elf.h. A call of the kernel's entry does not return, and
-- neither does the endless loop behind `bad`: they are the outcomes of bootmain.
use jos_smp.Base.{ℕ, zero, suc, ◌+◌, ◌-◌, ◌*◌, ◌/◌, ◌%◌, ◌^◌, ◌==◌, ltb, if◌then◌else◌}
use jos_smp.Base.Word.{add32}
use jos_smp.Memory.Defs.{Mem}
use jos_smp.Printfmt.Format.{Run, done, out_of_fuel, ◌>>=◌}
use jos_smp.Boot.Disk.{Ports, readsect}

-- The members of a structure in memory, low byte first.
abbrev pub read16 : Mem → ℕ → ℕ
read16 m p = m p + 2 ^ 8 * m (add32 p 1)

abbrev pub read32 : Mem → ℕ → ℕ
read32 m p = read16 m p + 2 ^ 16 * read16 m (add32 p 2)

-- ELFHDR
abbrev pub elfhdr : ℕ
elfhdr = 0x10000

-- The members of `struct Elf` at `e`, and those of `struct Proghdr` at `ph`.
abbrev pub e_magic : Mem → ℕ → ℕ
e_magic m e = read32 m e

abbrev pub e_entry : Mem → ℕ → ℕ
e_entry m e = read32 m (add32 e 24)

abbrev pub e_phoff : Mem → ℕ → ℕ
e_phoff m e = read32 m (add32 e 28)

abbrev pub e_phnum : Mem → ℕ → ℕ
e_phnum m e = read16 m (add32 e 44)

abbrev pub p_offset : Mem → ℕ → ℕ
p_offset m ph = read32 m (add32 ph 4)

abbrev pub p_va : Mem → ℕ → ℕ
p_va m ph = read32 m (add32 ph 8)

abbrev pub p_memsz : Mem → ℕ → ℕ
p_memsz m ph = read32 m (add32 ph 20)

pub data BootEnd : Type 0 where
  enters : ℕ → BootEnd
  spins : BootEnd

-- `polls` is the fuel of each wait for the disk.
module _ {W : Type 0} (dev : Ports W) (polls : ℕ) where
  -- `while (va < end_va)` on fuel.
  unfoldable pub load_sectors : ℕ → ℕ → ℕ → ℕ → Mem × W → Run (Mem × W)
  load_sectors zero va end_va offset s = out_of_fuel
  load_sectors (suc fuel) va end_va offset s =
      let more =
        readsect dev polls va offset s
        >>= (λ (s' : Mem × W). load_sectors fuel (add32 va 512) end_va (add32 offset 1) s') in
      if ltb va end_va then more else done s

  unfoldable pub readseg : ℕ → ℕ → ℕ → Mem × W → Run (Mem × W)
  readseg va count offset s =
      let start = va % 2 ^ 24 in
      load_sectors (count / 512 + 3) (start - start % 512) (add32 start count) (offset / 512 + 1) s

  -- `for (; ph < eph; ph++)` on fuel.
  unfoldable pub load_segments : ℕ → ℕ → ℕ → Mem × W → Run (Mem × W)
  load_segments zero ph eph s = out_of_fuel
  load_segments (suc fuel) ph eph s =
      let more =
        readseg (p_va s.0 ph) (p_memsz s.0 ph) (p_offset s.0 ph) s
        >>= (λ (s' : Mem × W). load_segments fuel (add32 ph 32) eph s') in
      if ltb ph eph then more else done s

  -- The segments, and the call of the entry point.
  unfoldable pub load_kernel : Mem × W → Run (BootEnd × (Mem × W))
  load_kernel s =
      let ph = add32 elfhdr (e_phoff s.0 elfhdr) in
      let eph = add32 ph (32 * e_phnum s.0 elfhdr) in
      load_segments (e_phnum s.0 elfhdr + 1) ph eph s
      >>= (λ (s' : Mem × W). done (enters (e_entry s'.0 elfhdr % 2 ^ 24), s'))

  unfoldable pub bootmain : Mem × W → Run (BootEnd × (Mem × W))
  bootmain s = readseg elfhdr 4096 0 s >>= (λ (s' : Mem × W).
      let bad = done (spins, (s'.0, dev.outw 0x8a00 0x8e00 (dev.outw 0x8a00 0x8a00 s'.1))) in
      if e_magic s'.0 elfhdr == 0x464c457f then load_kernel s' else bad)
