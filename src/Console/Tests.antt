-- ===== src/Console/Tests.antt =====
-- kern/console.c, kern/printf.c: a device that records what is written, and each theorem at an input.
use jos_smp.Base.{
  ℕ, ◌≡◌, ◌<◌, refl, arith, Option, none, some, List, [], ◌∷◌, ◌++◌, replicate, length-replicate,
  codes,
}
use jos_smp.Console.Io.{Io, Log}
use jos_smp.Console.Output.{Screen, serial_putc, lpt_putc, put_all, wait_bit}
use jos_smp.Console.Screen
use jos_smp.Console.Input.{Cons, cons_intr, stash}
use jos_smp.Console.Ring
use jos_smp.Console.Ring.{
  contents, pop, kept, finished, character, Delivers, cons_intr-contents, take_char-contents,
}

-- Every read returns 0xff, and the writes are kept.
abbrev recorder : Io (List (ℕ × ℕ))
recorder = record { inb = λ p w. (0xff, w); outb = λ p v w. w ++ ((p, v) ∷ []) }

recorder-Log : Log recorder (λ w. w)
recorder-Log = record { log-inb = λ p w. refl; log-outb = λ p v w. refl }

abbrev screen : Screen (List (ℕ × ℕ))
screen = record { crt_buf = replicate 2000 0x0720; crt_pos = 1999; addr_6845 = 0x3d4; world = [] }

screen-IsValid : Screen.IsValid screen
screen-IsValid = record { size = length-replicate {A = ℕ} 2000 0x0720; cursor = omega arith }

put_all-IsValid_example : Screen.IsValid (put_all recorder (codes "a\tb\n\n") screen)
put_all-IsValid_example = Screen.put_all-IsValid recorder (codes "a\tb\n\n") screen screen-IsValid

ports_run :
    lpt_putc recorder 0x741 (serial_putc recorder 0x741 [])
    ≡ (0x3f8, 0x41) ∷ (0x378, 0x41) ∷ (0x37a, 0x0d) ∷ (0x37a, 0x08) ∷ []
unfolding lpt_putc serial_putc wait_bit
ports_run = refl

-- A device that hands over the list's characters, then -1.
abbrev hand_over : List ℕ → Option ℕ × List ℕ
hand_over [] = (none, [])
hand_over (c ∷ cs) = (some c, cs)

abbrev ring : ℕ → ℕ → Cons
ring rpos wpos = record { buf = replicate 512 b'x'; rpos = rpos; wpos = wpos }

ring-IsValid : (rpos wpos : ℕ) → rpos < 512 → wpos < 512 → Ring.IsValid (ring rpos wpos)
ring-IsValid rpos wpos h k = record {
  size = length-replicate {A = ℕ} 512 b'x';
  read_in = h;
  write_in = k;
}

-- Two wait, three come, one of them zero: the buffer wraps.
cons_intr-contents_example :
    (s' : Cons) × (cons_intr 4 hand_over (ring 509 511) (b'a' ∷ 0 ∷ b'b' ∷ []) ≡ some (s', []))
    × Ring.IsValid s'
    × (contents s' ≡ contents (ring 509 511) ++ (b'a' ∷ b'b' ∷ []))
cons_intr-contents_example =
    cons_intr-contents hand_over 4 (ring 509 511)
      (character b'a' refl (character 0 refl (character b'b' refl (finished refl)))) (omega arith)
      (ring-IsValid 509 511 (omega arith) (omega arith)) (omega arith)

-- The 512th waiting character makes the buffer look empty.
overrun_run : contents (stash b'a' (ring 4 3)) ≡ []
unfolding stash
overrun_run = refl
