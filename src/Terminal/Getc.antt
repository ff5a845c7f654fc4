-- ===== src/Terminal/Getc.antt =====
-- kern/console.c: cons_getc gathers what the devices have and returns the oldest character.
use jos_smp.Base.{
  ℕ, ◌+◌, ◌<◌, ◌≡◌, refl, sym, ap, ◌∙◌, Bool, true, false, List, [], ◌++◌, some, length, arith,
  append-nil, length-append,
}
use jos_smp.Console.Io.{Io}
use jos_smp.Console.Input.{Cons, serial_proc_data, serial_intr, take_char}
use jos_smp.Console.Output.{Screen}
use jos_smp.Console.Ring.{
  IsValid, waiting, contents, kept, pop, Delivers, cons_intr-contents, take_char-contents,
  length-window,
}
use jos_smp.Keyboard.Decode.{kbd_proc_data, kbd_intr}
use jos_smp.Printfmt.Format.{done}
use jos_smp.Terminal.Devices.{Terminal, cons_getc}

-- The serial port hands over the characters `cs`; there are none where it does not exist.
abbrev pub Sends : {W : Type 0} → Io W → Bool → W → List ℕ → W → Type 0
Sends io true w cs w' = Delivers (serial_proc_data io) w cs w'
Sends io false w cs w' = (cs ≡ []) × (w ≡ w')

module _ {W : Type 0} (io : Io W) where
  serial_intr-contents :
      (fuel : ℕ) (exists : Bool) (s : Cons) (w w' : W) (cs : List ℕ)
      → Sends io exists w cs w'
      → length cs < fuel
      → IsValid s
      → waiting s + length (kept cs) < 512
      → (s' : Cons) × (serial_intr fuel io exists s w ≡ some (s', w'))
        × IsValid s'
        × (contents s' ≡ contents s ++ kept cs)
  unfolding serial_intr
  serial_intr-contents fuel true s w w' cs sends enough v room =
      cons_intr-contents (serial_proc_data io) fuel s sends enough v room
  serial_intr-contents fuel false s w w' cs (none, same) enough v room =
      (s, ap (λ w. some (s, w)) same, v, rw none (sym (append-nil _)))

  -- Where the serial port hands over the characters `cs` and then the keyboard `ks`, all within the
  -- fuel and with room in the buffer, `cons_getc` returns; it gives the oldest of the characters
  -- that waited, those from the serial port and those from the keyboard, zeros left out, and leaves
  -- the others waiting in that order; or it gives 0 where there is none.
  pub cons_getc-pop :
      (fuel : ℕ) (t : Terminal W) (w : W) (shift : ℕ) (screen : Screen W) (cs ks : List ℕ)
      → Sends io t.serial_exists t.screen.world cs w
      → Delivers (kbd_proc_data io) (t.shift, record t.screen { world = w }) ks (shift, screen)
      → length cs < fuel
      → length ks < fuel
      → IsValid t.cons
      → waiting t.cons + length (kept cs) + length (kept ks) < 512
      → (c : ℕ) × (cons : Cons) × (cons_getc io fuel t
          ≡ done (c, record t { cons = cons; shift = shift; screen = screen }))
        × IsValid cons
        × ((c, contents cons) ≡ pop (contents t.cons ++ kept cs ++ kept ks))
  unfolding cons_getc kbd_intr
  cons_getc-pop fuel t w shift screen cs ks sends types few_cs few_ks v room =
      let (s1, run1, v1, c1) =
        serial_intr-contents fuel t.serial_exists t.cons t.screen.world w cs sends few_cs v
          (omega arith) in
      let counted : waiting s1 ≡ waiting t.cons + length (kept cs) =
        sym (length-window s1.buf (waiting s1) s1.rpos)
        ∙ ap length c1
        ∙ length-append (contents t.cons) (kept cs)
        ∙ ap (λ n. n + length (kept cs)) (length-window t.cons.buf (waiting t.cons) t.cons.rpos) in
      let (s2, run2, v2, c2) =
        cons_intr-contents (kbd_proc_data io) fuel s1 types few_ks v1 (omega arith) in
      let (v3, c3) = take_char-contents s2 v2 in
      let queue : contents s2 ≡ contents t.cons ++ kept cs ++ kept ks =
        c2 ∙ ap (λ l. l ++ kept ks) c1 in
      ((take_char s2).0, (take_char s2).1, rw (run1, run2) refl, v3, c3 ∙ ap pop queue)
