-- ===== src/Terminal/Getchar.antt =====
-- kern/console.c: getchar returns when a character arrives, after however many polls.
use jos_smp.Base.{
  ℕ, zero, suc, ◌+◌, ◌<◌, ◌≡◌, ◌≢◌, refl, ap, ◌∙◌, Bool, false, List, [], ◌∷◌, ◌++◌, length, arith,
  ◌==◌,
}
use jos_smp.Base.Int.{pos}
use jos_smp.Console.Io.{Io}
use jos_smp.Console.Input.{Cons}
use jos_smp.Console.Output.{Screen}
use jos_smp.Console.Ring.{IsValid, waiting, contents, kept, pop, Delivers, length-window}
use jos_smp.Keyboard.Decode.{kbd_proc_data}
use jos_smp.Printfmt.Format.{done}
use jos_smp.Terminal.Devices.{Terminal, cons_getc, getchar}
use jos_smp.Terminal.Getc.{Sends, cons_getc-pop}

module _ {W : Type 0} (io : Io W) (fuel : ℕ) where
  -- What one poll finds: the serial port hands over `cs` and then the keyboard `ks`, within the
  -- fuel, and the devices go from one state to another.
  pub record Poll (exists : Bool) (d : ℕ × Screen W) (cs ks : List ℕ) (d' : ℕ × Screen W)
      : Type 0 where
    pub world : W
    pub sends : Sends io exists d.1.world cs world
    pub types : Delivers (kbd_proc_data io) (d.0, record d.1 { world = world }) ks d'
    pub few_cs : length cs < fuel
    pub few_ks : length ks < fuel

  -- With `q` waiting, a character `c` arrives in the poll number `n`, from 0, and `l` with it; the
  -- polls before find nothing but zeros.
  pub data Arrives (exists : Bool)
      : ℕ → List ℕ → ℕ × Screen W → ℕ → List ℕ → ℕ × Screen W → Type 0 where
    arrived :
        {q cs ks l : List ℕ} {c : ℕ} {d d' : ℕ × Screen W}
        → Poll exists d cs ks d'
        → q ++ kept cs ++ kept ks ≡ c ∷ l
        → c ≢ 0
        → length q + length (kept cs) + length (kept ks) < 512
        → Arrives exists 0 q d c l d'
    quiet :
        {n : ℕ} {cs ks l : List ℕ} {c : ℕ} {d d' e : ℕ × Screen W}
        → Poll exists d cs ks d'
        → kept cs ≡ []
        → kept ks ≡ []
        → Arrives exists n [] d' c l e
        → Arrives exists (suc n) [] d c l e

  getchar_quiet :
      (polls : ℕ) (t t' : Terminal W)
      → cons_getc io fuel t ≡ done (0, t')
      → getchar io (suc polls) fuel t ≡ getchar io polls fuel t'
  unfolding getchar
  getchar_quiet polls t t' e = rw e refl

  getchar_got :
      (polls c : ℕ) (t t' : Terminal W)
      → cons_getc io fuel t ≡ done (c, t')
      → c ≢ 0
      → getchar io (suc polls) fuel t ≡ done (pos c, t')
  unfolding getchar
  getchar_got polls c t t' e n = let z : (c == 0) ≡ false = ground arith in rw (e, z) refl

  -- One poll of a valid buffer with room.
  poll_lem :
      (t : Terminal W) (cs ks : List ℕ) (d' : ℕ × Screen W)
      → Poll t.serial_exists (t.shift, t.screen) cs ks d'
      → IsValid t.cons
      → length (contents t.cons) + length (kept cs) + length (kept ks) < 512
      → (c : ℕ) × (cons : Cons) × (cons_getc io fuel t
          ≡ done (c, record t { cons = cons; shift = d'.0; screen = d'.1 }))
        × IsValid cons
        × ((c, contents cons) ≡ pop (contents t.cons ++ kept cs ++ kept ks))
  poll_lem t cs ks d' p v room =
      cons_getc-pop io fuel t p.world d'.0 d'.1 cs ks p.sends p.types p.few_cs p.few_ks v
        (omega (arith, length-window t.cons.buf (waiting t.cons) t.cons.rpos))

  -- By the polls, for whatever waits.
  loop :
      (polls : ℕ) {n c : ℕ} (t : Terminal W) {q l : List ℕ} {d : ℕ × Screen W}
      → Arrives t.serial_exists n q (t.shift, t.screen) c l d
      → contents t.cons ≡ q
      → n < polls
      → IsValid t.cons
      → (cons : Cons) × (getchar io polls fuel t
          ≡ done (pos c, record t { cons = cons; shift = d.0; screen = d.1 }))
        × IsValid cons
        × (contents cons ≡ l)
  loop zero t a e h v = absurd (omega arith)
  loop (suc polls) t (arrived {q = q} {cs = cs} {ks = ks} {l = l} {c = c} {d' = d'} p split n room)
        e h v =
      let (c1, cons, run, v1, out) = poll_lem t cs ks d' p v (rw e room) in
      let same : (c1, contents cons) ≡ (c, l) = out ∙ rw (e, split) refl in
      (cons, getchar_got polls c t _ (run ∙ rw (ap (λ r. r.0) same) refl) n, v1, ap (λ r. r.1) same)
  loop (suc polls) t (quiet {cs = cs} {ks = ks} {d' = d'} p none_cs none_ks a) e h v =
      let (c1, cons, run, v1, out) =
        poll_lem t cs ks d' p v (rw (e, none_cs, none_ks) (omega arith)) in
      let same : (c1, contents cons) ≡ (0, []) = out ∙ rw (e, none_cs, none_ks) refl in
      let t' = record t { cons = cons; shift = d'.0; screen = d'.1 } in
      let (last, again, v2, left) = loop polls t' a (ap (λ r. r.1) same) (omega arith) v1 in
      (last, getchar_quiet polls t t' (run ∙ rw (ap (λ r. r.0) same) refl) ∙ again, v2, left)

  -- From a valid buffer, where a character arrives after `n` polls that find nothing, with room in the
  -- buffer for those that arrive with it and fuel for each poll and for more than `n` polls, `getchar`
  -- returns that character, and the others are left waiting, in a buffer that is valid again.
  pub getchar-arrived :
      (polls n c : ℕ) (t : Terminal W) (l : List ℕ) (d : ℕ × Screen W)
      → Arrives t.serial_exists n (contents t.cons) (t.shift, t.screen) c l d
      → n < polls
      → IsValid t.cons
      → (cons : Cons) × (getchar io polls fuel t
          ≡ done (pos c, record t { cons = cons; shift = d.0; screen = d.1 }))
        × IsValid cons
        × (contents cons ≡ l)
  getchar-arrived polls n c t l d a h v = loop polls t a refl h v
