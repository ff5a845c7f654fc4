-- ===== src/Memory/Move.antt =====
-- lib/string.c: memmove copies the block as it was before the call, also where the blocks overlap.
use jos_smp.Base.{
  ℕ, zero, suc, ◌+◌, ◌-◌, ◌*◌, ◌/◌, ◌^◌, ◌≡◌, ◌<◌, ◌≤◌, ◌⊎◌, fun_ext, ◌&&◌, arith, ltb, leb,
  if◌then◌else◌, Bool-cases, inl, inr,
}
use jos_smp.Base.Word.{add32, sub32}
use jos_smp.Memory.Defs.{
  move_up, move_down, Mem, write, move32, aligned, movsb_up, movsb_down, movsl_up, movsl_down,
  memmove,
}

-- Memory `m` after the `n` bytes at `src` were copied to `dst` all at once, read at `a`.
abbrev pub moved : ℕ → ℕ → ℕ → Mem → Mem
moved dst src n m a = if leb dst a && ltb a (dst + n) then m (src + (a - dst)) else m a

pub movsb_up-moved :
    (n d s : ℕ) (m : Mem) (a : ℕ)
    → d + n < 2 ^ 32
    → s + n < 2 ^ 32
    → (d ≤ s) ⊎ (s + n ≤ d)
    → movsb_up n d s m a ≡ moved d s n m a
unfolding movsb_up
movsb_up-moved zero d s m a p q h = ground arith
movsb_up-moved (suc n) d s m a p q h =
    rw
      (movsb_up-moved n (add32 d 1) (add32 s 1) (write m d (m s)) a (omega arith) (omega arith)
        (omega arith))
      (ground arith)

-- The downward loop is entered at the last byte of each block.
pub movsb_down-moved :
    (n d s : ℕ) (m : Mem) (a : ℕ)
    → d + n < 2 ^ 32
    → s + n < 2 ^ 32
    → s ≤ d
    → movsb_down n (sub32 (d + n) 1) (sub32 (s + n) 1) m a ≡ moved d s n m a
unfolding movsb_down
movsb_down-moved zero d s m a p q h = ground arith
movsb_down-moved (suc n) d s m a p q h =
    let e : sub32 (d + suc n) 1 ≡ d + n = omega arith in
    let f : sub32 (s + suc n) 1 ≡ s + n = omega arith in
    rw (e, f, movsb_down-moved n d s (write m (d + n) (m (s + n))) a (omega arith) (omega arith) h)
      (ground arith)

move32-moved :
    (d s : ℕ) (m : Mem) (a : ℕ) → d + 4 < 2 ^ 32 → s + 4 < 2 ^ 32 → move32 m d s a ≡ moved d s 4 m a
move32-moved d s m a p q = ground arith

-- One block copied after another that lies just below it, and just above it.
moved-moved_up :
    (d s n k : ℕ) (m : Mem) (a : ℕ)
    → (d ≤ s) ⊎ (s + (k + n) ≤ d)
    → moved (d + k) (s + k) n (moved d s k m) a ≡ moved d s (k + n) m a
moved-moved_up d s n k m a h = ground arith

moved-moved_down :
    (d s n k : ℕ) (m : Mem) (a : ℕ)
    → s ≤ d
    → moved d s n (moved (d + n) (s + n) k m) a ≡ moved d s (k + n) m a
moved-moved_down d s n k m a h = ground arith

movsl_up-moved :
    (n d s : ℕ) (m : Mem) (a : ℕ)
    → d + 4 * n < 2 ^ 32
    → s + 4 * n < 2 ^ 32
    → (d ≤ s) ⊎ (s + 4 * n ≤ d)
    → movsl_up n d s m a ≡ moved d s (4 * n) m a
unfolding movsl_up
movsl_up-moved zero d s m a p q h = ground arith
movsl_up-moved (suc n) d s m a p q h =
    let e : add32 d 4 ≡ d + 4 = omega arith in
    let f : add32 s 4 ≡ s + 4 = omega arith in
    let g : 4 * suc n ≡ 4 + 4 * n = omega arith in
    rw
      (
        e,
        f,
        g,
        fun_ext (λ x. move32-moved d s m x (omega arith) (omega arith)),
        movsl_up-moved n (d + 4) (s + 4) (moved d s 4 m) a (omega arith) (omega arith)
            (omega arith),
      )
      (moved-moved_up d s (4 * n) 4 m a (omega arith))

movsl_down-moved :
    (n d s : ℕ) (m : Mem) (a : ℕ)
    → d + 4 * n < 2 ^ 32
    → s + 4 * n < 2 ^ 32
    → s ≤ d
    → movsl_down n (sub32 (d + 4 * n) 4) (sub32 (s + 4 * n) 4) m a ≡ moved d s (4 * n) m a
unfolding movsl_down
movsl_down-moved zero d s m a p q h = ground arith
movsl_down-moved (suc n) d s m a p q h =
    let e : sub32 (d + 4 * suc n) 4 ≡ d + 4 * n = omega arith in
    let f : sub32 (s + 4 * suc n) 4 ≡ s + 4 * n = omega arith in
    let g : 4 * suc n ≡ 4 + 4 * n = omega arith in
    rw
      (
        e,
        f,
        g,
        fun_ext (λ x. move32-moved (d + 4 * n) (s + 4 * n) m x (omega arith) (omega arith)),
        movsl_down-moved n d s (moved (d + 4 * n) (s + 4 * n) 4 m) a (omega arith) (omega arith) h,
      )
      (moved-moved_down d s (4 * n) 4 m a h)

move_up-moved :
    (d s n : ℕ) (m : Mem) (a : ℕ)
    → d + n < 2 ^ 32
    → s + n < 2 ^ 32
    → (d ≤ s) ⊎ (s + n ≤ d)
    → move_up d s n m a ≡ moved d s n m a
unfolding move_up
move_up-moved d s n m a p q h = elim (Bool-cases (aligned s d n)) [
  | inl y ↦
      let g : 4 * (n / 4) ≡ n = ground arith in
      rw (y, movsl_up-moved (n / 4) d s m a (omega arith) (omega arith) (omega arith), g)
  | inr y ↦ rw (y, movsb_up-moved n d s m a p q h)
]

move_down-moved :
    (d s n : ℕ) (m : Mem) (a : ℕ)
    → d + n < 2 ^ 32
    → s + n < 2 ^ 32
    → s ≤ d
    → move_down (add32 d n) (add32 s n) n m a ≡ moved d s n m a
unfolding move_down
move_down-moved d s n m a p q h = elim (Bool-cases (aligned (add32 s n) (add32 d n) n)) [
  | inl y ↦
      let g : 4 * (n / 4) ≡ n = ground arith in
      let e : add32 d n ≡ d + 4 * (n / 4) = omega arith in
      let f : add32 s n ≡ s + 4 * (n / 4) = omega arith in
      rw (y, e, f, movsl_down-moved (n / 4) d s m a (omega arith) (omega arith) h, g)
  | inr y ↦
      let e : add32 d n ≡ d + n = omega arith in
      let f : add32 s n ≡ s + n = omega arith in rw (y, e, f, movsb_down-moved n d s m a p q h)
]

-- For blocks that do not reach the end of the address space, `memmove` leaves at the destination
-- the `n` bytes that stood at the source before the call, and every other byte as it was. The
-- blocks may overlap either way, and be aligned or not.
pub memmove-moved :
    (dst src n : ℕ) (m : Mem) (a : ℕ)
    → dst + n < 2 ^ 32
    → src + n < 2 ^ 32
    → memmove dst src n m a ≡ moved dst src n m a
unfolding memmove
memmove-moved dst src n m a p q = elim (Bool-cases (ltb src dst && ltb dst (add32 src n))) [
  | inl y ↦ rw (y, move_down-moved dst src n m a p q (ground arith))
  | inr y ↦ rw (y, move_up-moved dst src n m a p q (ground arith))
]
