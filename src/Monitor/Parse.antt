-- ===== src/Monitor/Parse.antt =====
-- kern/monitor.c: how runcmd parses its buffer. The parser goes through the buffer once, so its state
-- is the position, and the bytes from there on; a pointer into `buf` is its distance.
use jos_smp.Base.{
  ℕ, zero, suc, ◌+◌, ◌-◌, ◌&&◌, Bool, true, false, not, some, List, [], ◌∷◌, ◌++◌, ◌==◌, length,
  replicate, if◌then◌else◌,
}
use jos_smp.CString.Defs.{Bytes, strchr}
use jos_smp.Printfmt.Format.{Run, done, fault, out_of_fuel, ◌>>=◌}

-- WHITESPACE, "\t\r\n "
abbrev pub whitespace : Bytes
whitespace = 9 ∷ 13 ∷ 10 ∷ b' ' ∷ 0 ∷ []

-- MAXARGS
abbrev pub maxargs : ℕ
maxargs = 16

-- `*buf && strchr(WHITESPACE, *buf)`, and with `!strchr`.
unfoldable pub is_space : ℕ → Bool
unfolding strchr
is_space c = not (c == 0) && elim (strchr whitespace c) [ some (some i) ↦ true | _ ↦ false ]

unfoldable pub is_word : ℕ → Bool
unfolding strchr
is_word c = not (c == 0) && elim (strchr whitespace c) [ some (some i) ↦ false | _ ↦ true ]

-- `while (...) *buf++ = 0;`: the bytes set to zero, and those from `buf` on.
unfoldable pub gobble : Bytes → Run (ℕ × Bytes)
unfolding is_space
gobble [] = fault
gobble (c ∷ s) =
    let rest = gobble s >>= (λ (r : ℕ × Bytes). done (r.0 + 1, r.1)) in
    if is_space c then rest else done (0, c ∷ s)

-- `while (...) buf++;`: the bytes passed, and those from `buf` on.
unfoldable pub scan_word : Bytes → Run (Bytes × Bytes)
unfolding is_word
scan_word [] = fault
scan_word (c ∷ s) =
    let rest = scan_word s >>= (λ (r : Bytes × Bytes). done (c ∷ r.0, r.1)) in
    if is_word c then rest else done ([], c ∷ s)

-- Whether there were too many arguments, the pointers stored in `argv`, and the buffer.
pub record Parsed : Type 0 where
  pub too_many : Bool
  pub argv : List ℕ
  pub buf : Bytes

-- What the round did to the buffer and `argv` stands before what the later ones do.
abbrev pub behind : ℕ → ℕ → Bytes → Parsed → Parsed
behind arg gap word p = record p { argv = arg ∷ p.argv; buf = replicate gap 0 ++ (word ++ p.buf) }

-- The rounds of the loop, one unit of fuel each: `argc` arguments are stored, `at` is `buf`.
unfoldable pub parse : ℕ → ℕ → ℕ → Bytes → Run Parsed
parse zero argc at s = out_of_fuel
parse (suc fuel) argc at s = gobble s >>= (λ (g : ℕ × Bytes). elim (g.1) [
  | [] ↦ fault
  | c ∷ t ↦
      let more = scan_word (c ∷ t) >>= (λ (w : Bytes × Bytes).
        parse fuel (argc + 1) (at + g.0 + length w.0) w.1
        >>= (λ p. done (behind (at + g.0) g.0 w.0 p))) in
      let buf = replicate g.0 0 ++ c ∷ t in
      if c == 0
      then done (record { too_many = false; argv = []; buf = buf })
      else if argc == maxargs - 1
      then done (record { too_many = true; argv = []; buf = buf })
      else more
])
