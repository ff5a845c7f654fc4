-- ===== src/Readline/Echo.antt =====
-- lib/readline.c: what the line editor returns, and how it leaves the console.
use jos_smp.Base.{
  ℕ, zero, suc, ◌+◌, ◌-◌, ◌%◌, ◌<◌, ◌≡◌, ◌≢◌, ◌⊎◌, refl, Bool, true, false, ◌&&◌, ◌||◌, none, List,
  [], ◌∷◌, ◌++◌, ◌==◌, sym, leb, ltb, set, take, length, length-append, length-take, arith,
  Bool-cases, inl, inr, ap, ◌∙◌, append-nil,
}
use jos_smp.Base.Int.{pos}
use jos_smp.Printfmt.Format.{Run, done}
use jos_smp.Tty.{Tty}
use jos_smp.Readline.{Line, Key, key_of, readline_loop, readline}
use jos_smp.Readline.Edit.{
  edited, echoed, IsInLine, Holds, Holds-insert, Holds-erase, Holds-finish, Returned,
}

-- The two tests of a character.
abbrev erases : ℕ → List ℕ → Bool
erases c line = ((c == 8) || (c == 0x7f)) && ltb 0 (length line)

abbrev inserts : ℕ → List ℕ → Bool
inserts c line = leb b' ' c && ltb (length line) 1023

-- How a key changes the line, and what it echoes.
edited-erase :
    (c : ℕ) (line cs : List ℕ)
    → erases c line ≡ true
    → (edited line (c ∷ cs) ≡ edited (take (length line - 1) line) cs)
      × (echoed line (c ∷ cs) ≡ 8 ∷ echoed (take (length line - 1) line) cs)
unfolding edited echoed
edited-erase c line cs y = (rw y, rw y)

edited-insert :
    (c : ℕ) (line cs : List ℕ)
    → erases c line ≡ false
    → inserts c line ≡ true
    → (edited line (c ∷ cs) ≡ edited (line ++ (c % 256) ∷ []) cs)
      × (echoed line (c ∷ cs) ≡ c ∷ echoed (line ++ (c % 256) ∷ []) cs)
unfolding edited echoed
edited-insert c line cs n y = (rw (n, y), rw (n, y))

edited-ignore :
    (c : ℕ) (line cs : List ℕ)
    → erases c line ≡ false
    → inserts c line ≡ false
    → (edited line (c ∷ cs) ≡ edited line cs) × (echoed line (c ∷ cs) ≡ echoed line cs)
unfolding edited echoed
edited-ignore c line cs n m = (rw (n, m), rw (n, m))

-- What a key does.
key_erase : (c : ℕ) (line : List ℕ) → erases c line ≡ true → key_of c (length line) ≡ Key.erase
unfolding key_of
key_erase c line y = rw y

key_insert :
    (c : ℕ) (line : List ℕ)
    → erases c line ≡ false
    → inserts c line ≡ true
    → key_of c (length line) ≡ Key.insert
unfolding key_of
key_insert c line n y = rw (n, y)

key_ignore :
    (c : ℕ) (line : List ℕ)
    → erases c line ≡ false
    → inserts c line ≡ false
    → c ≢ 10
    → c ≢ 13
    → key_of c (length line) ≡ Key.ignore
unfolding key_of
key_ignore c line n m n10 n13 =
    let no_end : ((c == b'\n') || (c == b'\r')) ≡ false = ground arith in rw (n, m, no_end)

key_finish : (c : ℕ) (line : List ℕ) → (c ≡ 10) ⊎ (c ≡ 13) → key_of c (length line) ≡ Key.finish
unfolding key_of
key_finish c line end = ground arith

module _ {S : Type 0} (tty : Tty S) where
  module _ (fuel c : ℕ) (line buf : List ℕ) (s s' : S)
      (read : tty.getchar s ≡ done (pos c, s')) where
    loop_erase :
        erases c line ≡ true
        → readline_loop tty (suc fuel) true (length line) buf s
          ≡ readline_loop tty fuel true (length line - 1) buf (tty.cputchar 8 s')
    unfolding readline_loop
    loop_erase y = rw (read, key_erase c line y, readline_loop)

    loop_insert :
        erases c line ≡ false
        → inserts c line ≡ true
        → readline_loop tty (suc fuel) true (length line) buf s
          ≡ readline_loop tty fuel true
              (length line + 1)
              (set buf (length line) (c % 256))
              (tty.cputchar c s')
    unfolding readline_loop
    loop_insert n y = rw (read, key_insert c line n y, readline_loop)

    loop_ignore :
        erases c line ≡ false
        → inserts c line ≡ false
        → c ≢ 10
        → c ≢ 13
        → readline_loop tty (suc fuel) true (length line) buf s
          ≡ readline_loop tty fuel true (length line) buf s'
    unfolding readline_loop
    loop_ignore n m n10 n13 = rw (read, key_ignore c line n m n10 n13, readline_loop)

    loop_finish :
        (c ≡ 10) ⊎ (c ≡ 13)
        → readline_loop tty (suc fuel) true (length line) buf s
          ≡ done (record {
            is_read = true;
            buf = set buf (length line) 0;
            console = tty.cputchar b'\n' s';
          })
    unfolding readline_loop
    loop_finish end = rw (read, key_finish c line end, readline_loop)

module _ {S : Type 0} (tty : Tty S) where
  abbrev pub put : List ℕ → S → S
  put [] s = s
  put (c ∷ cs) s = put cs (tty.cputchar c s)

  -- From `s` on getchar returns the characters `cs` one after another, up to `s'`, where each is
  -- echoed as a line editor with `line` in it does before the next one is asked for.
  unfoldable pub Typed : List ℕ → List ℕ → S → S → Type 0
  Typed line [] s s' = s' ≡ s
  Typed line (c ∷ cs) s s' =
      (t : S) × (tty.getchar s ≡ done (pos c, t))
      × Typed (edited line (c ∷ [])) cs (put (echoed line (c ∷ [])) t) s'

  -- A read ends with this line in the buffer and this console.
  abbrev pub Ends : List ℕ → S → Run (Line S) → Type 0
  Ends line console run =
      (r : Line S) × (run ≡ done r)
      × (r.is_read ≡ true)
      × Returned line r.buf
      × (r.console ≡ console)

  at_end :
      (fuel c : ℕ) (line buf : List ℕ) (s t : S)
      → (c ≡ 10) ⊎ (c ≡ 13)
      → Holds buf line
      → tty.getchar s ≡ done (pos c, t)
      → Ends line (tty.cputchar 10 t) (readline_loop tty (suc fuel) true (length line) buf s)
  at_end fuel c line buf s t end h read = rw (loop_finish tty fuel c line buf s t read end) (
    record { is_read = true; buf = set buf (length line) 0; console = tty.cputchar 10 t },
    refl,
    refl,
    Holds-finish buf line h,
    refl,
  )

  moved :
      (line line' shown shown' cs : List ℕ) (t s' : S)
      → (line ≡ edited line' []) × (shown ≡ shown' ++ echoed line' [])
      → Typed line cs (put shown t) s'
      → Typed line' cs (put shown' t) s'
  unfolding edited echoed
  moved line line' shown shown' cs t s' (e, f) typed = rw (sym e, sym (f ∙ append-nil shown')) typed

  at_key :
      (fuel c : ℕ) (line cs buf : List ℕ) (s s' t console : S)
      → c ≢ 10
      → c ≢ 13
      → Holds buf line
      → tty.getchar s ≡ done (pos c, t)
      → Typed (edited line (c ∷ [])) cs (put (echoed line (c ∷ [])) t) s'
      → ((line' buf' : List ℕ) (s1 : S)
          → Typed line' cs s1 s'
          → Holds buf' line'
          → Ends (edited line' cs) console (readline_loop tty fuel true (length line') buf' s1))
      → Ends (edited line (c ∷ cs)) console (readline_loop tty (suc fuel) true (length line) buf s)
  at_key fuel c line cs buf s s' t console n10 n13 h read typed more =
      elim (Bool-cases (erases c line)) [
        | inl y ↦
            let i : length line - 1 ≡ length (take (length line - 1) line) =
              omega (arith, length-take (length line - 1) line) in
            rw (loop_erase tty fuel c line buf s t read y, i, (edited-erase c line cs y).0)
              (more (take (length line - 1) line) buf (tty.cputchar 8 t)
                (moved _ (take (length line - 1) line) _ (8 ∷ []) cs t s' (edited-erase c line [] y)
                  typed)
                (Holds-erase buf line h))
        | inr n ↦ elim (Bool-cases (inserts c line)) [
          | inl y ↦
              let i : length line + 1 ≡ length (line ++ (c % 256) ∷ []) =
                omega (arith, length-append line ((c % 256) ∷ [])) in
              rw (loop_insert tty fuel c line buf s t read n y, i, (edited-insert c line cs n y).0)
                (more (line ++ (c % 256) ∷ []) (set buf (length line) (c % 256)) (tty.cputchar c t)
                  (moved _ (line ++ (c % 256) ∷ []) _ (c ∷ []) cs t s' (edited-insert c line [] n y)
                    typed)
                  (Holds-insert buf line (c % 256) h (ground arith)))
          | inr m ↦
              rw
                (
                  loop_ignore tty fuel c line buf s t read n m n10 n13,
                  (edited-ignore c line cs n m).0,
                )
                (more line buf t (moved _ line _ [] cs t s' (edited-ignore c line [] n m) typed) h)
        ]
      ]

  readline_loop-edited :
      (fuel c : ℕ) (line cs buf : List ℕ) (s s' t : S)
      → Typed line cs s s'
      → tty.getchar s' ≡ done (pos c, t)
      → (c ≡ 10) ⊎ (c ≡ 13)
      → IsInLine cs
      → length cs < fuel
      → Holds buf line
      → Ends (edited line cs) (tty.cputchar 10 t) (readline_loop tty fuel true (length line) buf s)
  unfolding edited Typed
  readline_loop-edited zero c line cs buf s s' t typed read end is lt h = absurd (omega arith)
  readline_loop-edited (suc fuel) c line [] buf s s' t typed read end is lt h =
      at_end fuel c line buf s t end h (ap tty.getchar (sym typed) ∙ read)
  readline_loop-edited (suc fuel) c line (k ∷ cs) buf s s' t (t1, e, typed) read end (n10, n13, is)
        lt h =
      at_key fuel k line cs buf s s' t1 (tty.cputchar 10 t) n10 n13 h e typed
        (λ line' buf' s1 typed' h'.
          readline_loop-edited fuel c line' cs buf' s1 s' t typed' read end is (omega arith) h')

  -- Let getchar return the characters `cs`, no end of line among them, from `s` on, where each is
  -- echoed before the next is asked for: a backspace where a character is taken back, the character
  -- where it is put into the line, nothing where it is dropped. Let it then return an end of line and
  -- leave the console `t`. readline with no prompt ends, within fuel for one round more than there
  -- are characters before the line end. It returns the edited line with its terminator, in the
  -- buffer's 1024 bytes, and the console on which the line end is echoed behind `t`.
  pub readline-edited :
      (fuel c : ℕ) (cs buf : List ℕ) (s s' t : S)
      → Typed [] cs s s'
      → tty.getchar s' ≡ done (pos c, t)
      → (c ≡ 10) ⊎ (c ≡ 13)
      → IsInLine cs
      → length cs < fuel
      → length buf ≡ 1024
      → Ends (edited [] cs) (tty.cputchar 10 t) (readline tty fuel none buf s)
  unfolding readline
  readline-edited fuel c cs buf s s' t typed read end is lt size =
      readline_loop-edited fuel c [] cs buf s s' t typed read end is lt
        (record { size = size; room = omega arith; text = refl })
