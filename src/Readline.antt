-- ===== src/Readline.antt =====
-- lib/readline.c: the line editor. `buf` is its static buffer.
pub mod Edit
pub mod Echo
mod Tests
use jos_smp.Base.{
  ℕ, zero, suc, ◌+◌, ◌-◌, ◌%◌, ◌^◌, Bool, true, false, ◌&&◌, ◌||◌, Option, none, some, List, [],
  ◌∷◌, ◌==◌, leb, ltb, set, if◌then◌else◌,
}
use jos_smp.Base.Int.{ℤ, pos, negsuc}
use jos_smp.CString.Defs.{Bytes}
use jos_smp.Printfmt.Format.{Run, done, out_of_fuel, ◌>>=◌, int, str}
use jos_smp.Printfmt.Print.{literal}
use jos_smp.Tty.{Tty}

-- BUFLEN
abbrev pub buflen : ℕ
buflen = 1024

-- The result: whether a line was read (and not NULL returned), the buffer, and the console.
pub record Line (S : Type 0) : Type 0 where
  pub is_read : Bool
  pub buf : List ℕ
  pub console : S

-- What a nonnegative character does.
pub data Key : Type 0 where
  erase : Key
  insert : Key
  finish : Key
  ignore : Key

unfoldable pub key_of : ℕ → ℕ → Key
key_of c i =
    if ((c == 8) || (c == 0x7f)) && ltb 0 i
    then erase
    else if leb b' ' c && ltb i (buflen - 1)
    then insert
    else if (c == b'\n') || (c == b'\r')
    then finish
    else ignore

abbrev pub on_key : {A : Type 0} → Key → A → A → A → A → A
on_key erase a b c d = a
on_key insert a b c d = b
on_key finish a b c d = c
on_key ignore a b c d = d

module _ {S : Type 0} (tty : Tty S) where
  abbrev echo : Bool → ℕ → S → S
  echo echoing c s = if echoing then tty.cputchar c s else s

  -- The loop, one unit of fuel for each character.
  unfoldable pub readline_loop : ℕ → Bool → ℕ → List ℕ → S → Run (Line S)
  readline_loop zero echoing i buf s = out_of_fuel
  readline_loop (suc fuel) echoing i buf s = tty.getchar s >>= (λ (r : ℤ × S). elim (r.0) [
    | negsuc n ↦
        tty.cprintf (literal "read error: %e\n") (int (2 ^ 32 - 1 - n) ∷ []) r.1
        >>= (λ (o : ℕ × S). done (record { is_read = false; buf = buf; console = o.1 }))
    | pos c ↦
        let erased = readline_loop fuel echoing (i - 1) buf (echo echoing 8 r.1) in
        let inserted =
          readline_loop fuel echoing (i + 1) (set buf i (c % 256)) (echo echoing c r.1) in
        let ignored = readline_loop fuel echoing i buf r.1 in
        on_key (key_of c i) erased inserted
          (done (record { is_read = true; buf = set buf i 0; console = echo echoing b'\n' r.1 }))
          ignored
  ])

  -- iscons of kern/console.c returns 1.
  unfoldable pub iscons : Bool
  iscons = true

  unfoldable pub readline : ℕ → Option Bytes → List ℕ → S → Run (Line S)
  unfolding readline_loop iscons
  readline fuel prompt buf s =
      (elim prompt as (λ _. Run (ℕ × S)) [
        | none ↦ done (0, s)
        | some p ↦ tty.cprintf (literal "%s") (str (some p) ∷ []) s
      ])
      >>= (λ (r : ℕ × S). readline_loop fuel iscons 0 buf r.1)
