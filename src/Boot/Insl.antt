-- ===== src/Boot/Insl.antt =====
-- boot/main.c over inc/x86.h: the ports of the boot loader as the processor's port instructions.
use jos_smp.Base.{ℕ, zero, suc, ◌/◌, ◌%◌, ◌≡◌, refl, ◌∙◌, List, [], ◌∷◌, ◌++◌, arith, ap, sym}
use jos_smp.Base.Word.{add32}
use jos_smp.Boot.Disk.{Ports, store_bytes}
use jos_smp.Cpu.Strings.{Bus, inb, inl, insl, outb, outw, store32}
use jos_smp.Memory.Defs.{Mem}

abbrev bytes_of : ℕ → List ℕ
bytes_of v = v % 256 ∷ v / 256 % 256 ∷ v / 65536 % 256 ∷ v / 16777216 % 256 ∷ []

module _ {W : Type 0} (bus : Bus W) where
  -- The bytes of `n` words read from a port, and the devices behind.
  unfoldable pub words_in : ℕ → ℕ → W → List ℕ × W
  words_in port zero w = ([], w)
  words_in port (suc n) w =
      let (v, w1) = inl bus port w in
      let (bytes, w2) = words_in port n w1 in (bytes_of v ++ bytes, w2)

  -- What the boot loader uses of the ports, by the instructions of inc/x86.h.
  abbrev pub ports_of : Ports W
  ports_of = record {
    io = record { inb = inb bus; outb = outb bus };
    insl = words_in;
    outw = outw bus;
  }

  store_word :
      (dst v : ℕ) (bs : List ℕ) (m : Mem)
      → store_bytes dst (bytes_of v ++ bs) m ≡ store_bytes (add32 dst 4) bs (store32 dst v m)
  unfolding store_bytes
  store_word dst v bs m =
      let a2 : add32 (add32 dst 1) 1 ≡ add32 dst 2 = omega arith in
      let a3 : add32 (add32 dst 2) 1 ≡ add32 dst 3 = omega arith in
      let a4 : add32 (add32 dst 3) 1 ≡ add32 dst 4 = omega arith in rw (a2, a3, a4) refl

  insl-store_bytes :
      (port n dst : ℕ) (m : Mem) (w : W)
      → insl bus port dst n (m, w)
        ≡ (store_bytes dst (words_in port n w).0 m, (words_in port n w).1)
  unfolding insl words_in store_bytes
  insl-store_bytes port zero dst m w = refl
  insl-store_bytes port (suc n) dst m w =
      insl-store_bytes port n (add32 dst 4) (store32 dst (inl bus port w).0 m) (inl bus port w).1
      ∙ ap (λ m'. (m', (words_in port n (inl bus port w).1).1))
          (sym (store_word dst (inl bus port w).0 (words_in port n (inl bus port w).1).0 m))
