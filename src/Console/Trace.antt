-- ===== src/Console/Trace.antt =====
-- kern/console.c: what serial_putc and lpt_putc write to the ports.
use jos_smp.Base.{
  ℕ, zero, suc, ◌%◌, ◌≡◌, ◌∙◌, List, [], ◌∷◌, ◌++◌, Bool-cases, inl, inr, append_assoc,
}
use jos_smp.Console.Io.{Io, Log, bit}
use jos_smp.Console.Output.{delay, wait_bit, serial_putc, lpt_putc}

module _ {W : Type 0} (io : Io W) (log : W → List (ℕ × ℕ)) (laws : Log io log) where
  open laws use {log-inb, log-outb}

  log-delay : (w : W) → log (delay io w) ≡ log w
  unfolding delay
  log-delay w = log-inb _ _ ∙ log-inb _ _ ∙ log-inb _ _ ∙ log-inb _ w

  log-wait_bit : (port k n : ℕ) (w : W) → log (wait_bit io port k n w) ≡ log w
  unfolding wait_bit
  log-wait_bit port k zero w = log-inb port w
  log-wait_bit port k (suc n) w = elim (Bool-cases (bit (io.inb port w).0 k)) [
    | inl y ↦ rw y (log-inb port w)
    | inr n' ↦
        rw n' (log-wait_bit port k n (delay io (io.inb port w).1) ∙ log-delay _ ∙ log-inb port w)
  ]

  -- For every character and every state of the devices, `serial_putc` then `lpt_putc` end, and
  -- their only writes are the character's low byte to the serial port and to the parallel port,
  -- each once, with the strobe sequence on the parallel control port behind it.
  pub log-putc :
      (c : ℕ) (w : W)
      → log (lpt_putc io c (serial_putc io c w))
        ≡ log w ++ ((0x3f8, c % 256) ∷ (0x378, c % 256) ∷ (0x37a, 0x0d) ∷ (0x37a, 0x08) ∷ [])
  unfolding serial_putc lpt_putc
  log-putc c w = rw (
    log-outb, log-outb, log-outb, log-wait_bit, log-outb, log-wait_bit, append_assoc, append_assoc,
    append_assoc,
  )
