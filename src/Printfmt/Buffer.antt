-- ===== src/Printfmt/Buffer.antt =====
-- lib/printfmt.c: sprintputch, vsnprintf and snprintf, which print into a buffer in memory.
use jos_smp.Base.{
  ℕ, zero, suc, ◌+◌, ◌-◌, ◌%◌, ◌<◌, ◌≤◌, ◌≡◌, ◌≢◌, refl, true, false, List, [], ◌∷◌, arith, length,
  leb, ltb, lt→ltb, dec_lt, ap, ◌∙◌, subst, sym, ◌==◌, if◌then◌else◌, min, get_or, ◌&&◌,
}
use jos_smp.Base.Int.{ℤ, pos, negsuc}
use jos_smp.CString.Defs.{Bytes}
use jos_smp.Memory.Defs.{Mem, write}
use jos_smp.Printfmt.Format.{Args, Run, done, ◌>>=◌}
use jos_smp.Printfmt.Print.{vprintfmt}

-- `struct sprintbuf`, beside the memory that it points into.
pub record SprintBuf : Type 0 where
  pub buf : ℕ
  pub ebuf : ℕ
  pub cnt : ℕ
  pub mem : Mem

-- `*b->buf++ = ch` stores the low byte.
unfoldable pub sprintputch : ℕ → SprintBuf → SprintBuf
sprintputch ch b =
    let b' = record b { cnt = b.cnt + 1 } in
    if ltb b.buf b.ebuf
    then record b' { mem = write b.mem b.buf (ch % 256); buf = b.buf + 1 }
    else b'

-- The calls of `putch` in order.
unfoldable pub sprint_all : List ℕ → SprintBuf → SprintBuf
sprint_all [] b = b
sprint_all (ch ∷ o) b = sprint_all o (sprintputch ch b)

-- -E_INVAL
abbrev pub e_inval : ℤ
e_inval = negsuc 2

-- The result and the memory.
unfoldable pub vsnprintf : ℕ → ℕ → ℤ → Bytes → Args → Mem → Run (ℤ × Mem)
vsnprintf fuel buf (negsuc n) fmt ap m = done (e_inval, m)
vsnprintf fuel buf (pos zero) fmt ap m = done (e_inval, m)
vsnprintf fuel buf (pos (suc n)) fmt ap m =
    if buf == 0
    then done (e_inval, m)
    else vprintfmt fuel fmt ap >>= (λ o.
      let b = sprint_all o (record { buf = buf; ebuf = buf + n; cnt = 0; mem = m }) in
      done (pos b.cnt, write b.mem b.buf 0))

-- `va_start` passes the arguments on.
unfoldable pub snprintf : ℕ → ℕ → ℤ → Bytes → Args → Mem → Run (ℤ × Mem)
snprintf fuel buf n fmt ap m = vsnprintf fuel buf n fmt ap m

-- The first `k` characters of `o` as bytes from `p`, in memory `m`, read at `a`.
abbrev pub printed : ℕ → ℕ → List ℕ → Mem → Mem
printed p k o m a = if leb p a && ltb a (p + k) then get_or o (a - p) 0 % 256 else m a

get_or_suc : (ch i : ℕ) (o : List ℕ) → 0 < i → get_or (ch ∷ o) i 0 ≡ get_or o (i - 1) 0
get_or_suc ch zero o h = absurd (omega arith)
get_or_suc ch (suc i) o h = let e : suc i - 1 ≡ i = omega arith in rw e

-- The two cases of `sprintputch`.
put_full :
    (ch : ℕ) (b : SprintBuf) → b.ebuf ≤ b.buf → sprintputch ch b ≡ record b { cnt = b.cnt + 1 }
unfolding sprintputch
put_full ch b h = let z : ltb b.buf b.ebuf ≡ false = ground arith in rw z

abbrev stored : ℕ → SprintBuf → SprintBuf
stored ch b = record b { cnt = b.cnt + 1; mem = write b.mem b.buf (ch % 256); buf = b.buf + 1 }

put_room : (ch : ℕ) (b : SprintBuf) → b.buf < b.ebuf → sprintputch ch b ≡ stored ch b
unfolding sprintputch
put_room ch b h = let z : ltb b.buf b.ebuf ≡ true = lt→ltb b.buf b.ebuf h in rw z

sprint_all-full :
    (o : List ℕ) (b : SprintBuf)
    → b.ebuf ≤ b.buf
    → sprint_all o b ≡ record b { cnt = b.cnt + length o }
unfolding sprint_all
sprint_all-full [] b h = let e : b.cnt ≡ b.cnt + 0 = omega arith in ap (λ c. record b { cnt = c }) e
sprint_all-full (ch ∷ o) b h =
    ap (sprint_all o) (put_full ch b h)
    ∙ sprint_all-full o (record b { cnt = b.cnt + 1 }) h
    ∙ ap (λ c. record b { cnt = c }) (omega arith)

abbrev Printed : List ℕ → SprintBuf → ℕ → SprintBuf → Type 0
Printed o b a s =
    (s.mem a ≡ printed b.buf (min (length o) (b.ebuf - b.buf)) o b.mem a)
    × (s.buf ≡ b.buf + min (length o) (b.ebuf - b.buf))
    × (s.cnt ≡ b.cnt + length o)

Printed-full :
    (o : List ℕ) (b : SprintBuf) (a : ℕ)
    → b.ebuf ≤ b.buf
    → Printed o b a (record b { cnt = b.cnt + length o })
Printed-full o b a h = (ground arith, omega arith, refl)

Printed-cons :
    (ch : ℕ) (o : List ℕ) (b s : SprintBuf) (a : ℕ)
    → b.buf < b.ebuf
    → Printed o (stored ch b) a s
    → Printed (ch ∷ o) b a s
Printed-cons ch o b s a h p =
    (ground (arith, p.0, get_or_suc ch (a - b.buf) o), omega (arith, p.1), omega (arith, p.2))

sprint_all-Printed :
    (o : List ℕ) (b : SprintBuf) (a : ℕ) → b.buf ≤ b.ebuf → Printed o b a (sprint_all o b)
unfolding sprint_all
sprint_all-Printed [] b a h = (ground arith, omega arith, omega arith)
sprint_all-Printed (ch ∷ o) b a h = elim (dec_lt b.buf b.ebuf) [
  | yes l ↦ Printed-cons ch o b (sprint_all o (sprintputch ch b)) a l (
      subst (λ s. Printed o (stored ch b) a (sprint_all o s)) (sym (put_room ch b l))
        (sprint_all-Printed o (stored ch b) a (omega arith)))
  | no l ↦
      subst (Printed (ch ∷ o) b a) (sym (sprint_all-full (ch ∷ o) b (omega arith)))
        (Printed-full (ch ∷ o) b a (omega arith))
]

-- Into a buffer of `n + 1` bytes, `vsnprintf` writes the first `n` characters of the formatted
-- output at most, then one zero byte, and nothing else; it returns the length of the whole output.
pub vsnprintf-printed :
    (fuel buf n : ℕ) (fmt : Bytes) (args : Args) (m : Mem) (o : List ℕ) (a : ℕ)
    → buf ≢ 0
    → vprintfmt fuel fmt args ≡ done o
    → (m' : Mem) × (vsnprintf fuel buf (pos (suc n)) fmt args m ≡ done (pos (length o), m'))
      × (m' a ≡ write (printed buf (min (length o) n) o m) (buf + min (length o) n) 0 a)
unfolding vsnprintf
vsnprintf-printed fuel buf n fmt args m o a nz e = (
  write s.mem s.buf 0,
  rw (z, e) (ap (λ c. done (pos c, write s.mem s.buf 0)) (omega (arith, p.2))),
  final s p,
)
  where
    b : SprintBuf
    b = record { buf = buf; ebuf = buf + n; cnt = 0; mem = m }

    s : SprintBuf
    s = sprint_all o b

    z : (buf == 0) ≡ false
    z = ground arith

    p : Printed o b a s
    p = sprint_all-Printed o b a (omega arith)

    room : min (length o) (buf + n - buf) ≡ min (length o) n
    room = omega arith

    final :
        (t : SprintBuf)
        → Printed o b a t
        → write t.mem t.buf 0 a
          ≡ write (printed buf (min (length o) n) o m) (buf + min (length o) n) 0 a
    final t q =
        rw (q.1, room)
          (ap (λ v. if a == buf + min (length o) n then 0 else v)
            (q.0 ∙ ap (λ k. printed buf k o m a) room))
