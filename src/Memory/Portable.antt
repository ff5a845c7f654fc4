-- ===== src/Memory/Portable.antt =====
-- lib/string.c: memset and memmove as they are written for compilers without `asm`, in the other
-- branch of `#if ASM`, and why it does not matter which of the two a kernel is built with.
use jos_smp.Base.{
  ℕ, zero, suc, ◌+◌, ◌%◌, ◌^◌, ◌≡◌, ◌<◌, ◌≤◌, ◌∙◌, refl, sym, ◌&&◌, arith, ltb, if◌then◌else◌,
  Bool-cases, inl, inr, fun_ext,
}
use jos_smp.Base.Int.{pos_part}
use jos_smp.Base.Word.{add32, sub32, signed32}
use jos_smp.Memory.Defs
use jos_smp.Memory.Defs.{Mem, write, rep_stosb, movsb_up, movsb_down}
use jos_smp.Memory.Move
use jos_smp.Memory.Move.{moved, movsb_up-moved, movsb_down-moved}
use jos_smp.Memory.Set
use jos_smp.Memory.Set.{filled, rep_stosb-filled}

-- `*p++ = c;`, `n` times.
unfoldable pub set_up : ℕ → ℕ → ℕ → Mem → Mem
set_up zero p c m = m
set_up (suc n) p c m = set_up n (add32 p 1) c (write m p (c % 256))

-- `while (--m >= 0)` makes `m` rounds for an `int` from 0 on, and none for a negative one.
unfoldable pub memset : ℕ → ℕ → ℕ → Mem → Mem
unfolding set_up
memset v c n m = set_up (pos_part (signed32 n)) v c m

-- `*d++ = *s++;` and `*--d = *--s;`, `n` times.
unfoldable pub copy_up : ℕ → ℕ → ℕ → Mem → Mem
copy_up zero d s m = m
copy_up (suc n) d s m = copy_up n (add32 d 1) (add32 s 1) (write m d (m s))

unfoldable pub copy_down : ℕ → ℕ → ℕ → Mem → Mem
copy_down zero d s m = m
copy_down (suc n) d s m =
    let d' = sub32 d 1 in let s' = sub32 s 1 in copy_down n d' s' (write m d' (m s'))

unfoldable pub memmove : ℕ → ℕ → ℕ → Mem → Mem
unfolding copy_up copy_down
memmove dst src n m =
    if ltb src dst && ltb dst (add32 src n)
    then copy_down n (add32 dst n) (add32 src n) m
    else copy_up n dst src m

set_up-rep_stosb : (n p c : ℕ) (m : Mem) → set_up n p c m ≡ rep_stosb n p c m
unfolding set_up rep_stosb
set_up-rep_stosb zero p c m = refl
set_up-rep_stosb (suc n) p c m = set_up-rep_stosb n (add32 p 1) c (write m p (c % 256))

copy_up-movsb_up : (n d s : ℕ) (m : Mem) → copy_up n d s m ≡ movsb_up n d s m
unfolding copy_up movsb_up
copy_up-movsb_up zero d s m = refl
copy_up-movsb_up (suc n) d s m = copy_up-movsb_up n (add32 d 1) (add32 s 1) (write m d (m s))

-- The downward loop decrements before it copies, `std; rep movsb` behind.
copy_down-movsb_down :
    (n d s : ℕ) (m : Mem) → copy_down n d s m ≡ movsb_down n (sub32 d 1) (sub32 s 1) m
unfolding copy_down movsb_down
copy_down-movsb_down zero d s m = refl
copy_down-movsb_down (suc n) d s m =
    copy_down-movsb_down n (sub32 d 1) (sub32 s 1) (write m (sub32 d 1) (m (sub32 s 1)))

memmove-copies :
    (dst src n : ℕ) (m : Mem) (a : ℕ)
    → dst + n < 2 ^ 32
    → src + n < 2 ^ 32
    → memmove dst src n m a ≡ moved dst src n m a
unfolding memmove
memmove-copies dst src n m a p q = elim (Bool-cases (ltb src dst && ltb dst (add32 src n))) [
  | inl y ↦
      let e : add32 dst n ≡ dst + n = omega arith in
      let f : add32 src n ≡ src + n = omega arith in
      rw (y, e, f, copy_down-movsb_down n (dst + n) (src + n) m)
        (movsb_down-moved n dst src m a p q (ground arith))
  | inr y ↦ rw (y, copy_up-movsb_up n dst src m) (movsb_up-moved n dst src m a p q (ground arith))
]

memset-fills :
    (v c n : ℕ) (m : Mem) (a : ℕ)
    → n < 2 ^ 31
    → v + n < 2 ^ 32
    → memset v c n m a ≡ filled v (c % 256) n m a
unfolding memset
memset-fills v c n m a h p =
    let e : pos_part (signed32 n) ≡ n = ground arith in
    rw (e, set_up-rep_stosb n v c m) (rep_stosb-filled n v c m a p)

-- Of 2^31 bytes or more the `int` is negative, and nothing is written.
memset_large : (v c n : ℕ) (m : Mem) → 2 ^ 31 ≤ n → n < 2 ^ 32 → memset v c n m ≡ m
unfolding memset set_up
memset_large v c n m h k = let e : pos_part (signed32 n) ≡ 0 = ground arith in rw e refl

-- For blocks of less than 2^31 bytes that do not reach the end of the address space, the memory that
-- memmove and memset leave is the same in both branches of `#if ASM`: the string instructions, by
-- words where the blocks are aligned, do what the loops over bytes do, also where blocks overlap.
-- What memset leaves is the low byte of its argument in the whole block, and all else as it was.
pub memmove-memset :
    (dst src c n : ℕ) (m : Mem)
    → dst + n < 2 ^ 32
    → src + n < 2 ^ 32
    → n < 2 ^ 31
    → (Defs.memmove dst src n m ≡ memmove dst src n m)
      × (Defs.memset dst c n m ≡ memset dst c n m)
      × (memset dst c n m ≡ filled dst (c % 256) n m)
memmove-memset dst src c n m p q h = (
  fun_ext (λ a. Move.memmove-moved dst src n m a p q ∙ sym (memmove-copies dst src n m a p q)),
  fun_ext (λ a. Set.memset-filled dst c n m a p ∙ sym (memset-fills dst c n m a h p)),
  fun_ext (λ a. memset-fills dst c n m a h p),
)
