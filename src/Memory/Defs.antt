-- ===== src/Memory/Defs.antt =====
-- lib/string.c: memset, memmove, memcpy, strcpy, strncpy and strlcpy. Memory is a function from
-- addresses to bytes; pointer arithmetic wraps at 2^32. The `rep` string instructions of the asm
-- statements are loops over the count, with the direction flag as a choice of function.

use jos_smp.Base.{
  ℕ, zero, suc, ◌+◌, ◌*◌, ◌/◌, ◌%◌, Bool, ◌&&◌, Option, none, some, ◌==◌, ltb, if◌then◌else◌,
}
use jos_smp.Base.Word.{add32, sub32}

abbrev pub Mem : Type 0
Mem = ℕ → ℕ

-- `*p = v`
abbrev pub write : Mem → ℕ → ℕ → Mem
write m p v a = if a == p then v else m a

-- The four bytes of a 32-bit store, low byte first.
abbrev pub write32 : Mem → ℕ → ℕ → ℕ → ℕ → ℕ → Mem
write32 m p b0 b1 b2 b3 =
    write (write (write (write m p b0) (add32 p 1) b1) (add32 p 2) b2) (add32 p 3) b3

-- `cld; rep stosb`: the low byte of `c`, `n` times from `d` up.
unfoldable pub rep_stosb : ℕ → ℕ → ℕ → Mem → Mem
rep_stosb zero d c m = m
rep_stosb (suc n) d c m = rep_stosb n (add32 d 1) c (write m d (c % 256))

-- `cld; rep stosl`: the four bytes of `c`, `n` times from `d` up.
unfoldable pub rep_stosl : ℕ → ℕ → ℕ → Mem → Mem
rep_stosl zero d c m = m
rep_stosl (suc n) d c m =
    rep_stosl n (add32 d 4) c
      (write32 m d (c % 256) (c / 256 % 256) (c / 65536 % 256) (c / 16777216 % 256))

-- `c &= 0xFF; c = (c<<24)|(c<<16)|(c<<8)|c;` the shifted copies do not overlap, so `|` adds them.
unfoldable pub spread : ℕ → ℕ
spread c = let b = c % 256 in b * 16777216 + b * 65536 + b * 256 + b

unfoldable pub memset : ℕ → ℕ → ℕ → Mem → Mem
memset v c n m =
    if n == 0
    then m
    else if (v % 4 == 0) && (n % 4 == 0)
    then rep_stosl (n / 4) v (spread c) m
    else rep_stosb n v c m

-- `cld; rep movsb` and `std; rep movsb`
unfoldable pub movsb_up : ℕ → ℕ → ℕ → Mem → Mem
movsb_up zero d s m = m
movsb_up (suc n) d s m = movsb_up n (add32 d 1) (add32 s 1) (write m d (m s))

unfoldable pub movsb_down : ℕ → ℕ → ℕ → Mem → Mem
movsb_down zero d s m = m
movsb_down (suc n) d s m = movsb_down n (sub32 d 1) (sub32 s 1) (write m d (m s))

-- A 32-bit move reads its four bytes before it writes them.
abbrev pub move32 : Mem → ℕ → ℕ → Mem
move32 m d s = write32 m d (m s) (m (add32 s 1)) (m (add32 s 2)) (m (add32 s 3))

-- `cld; rep movsl` and `std; rep movsl`
unfoldable pub movsl_up : ℕ → ℕ → ℕ → Mem → Mem
movsl_up zero d s m = m
movsl_up (suc n) d s m = movsl_up n (add32 d 4) (add32 s 4) (move32 m d s)

unfoldable pub movsl_down : ℕ → ℕ → ℕ → Mem → Mem
movsl_down zero d s m = m
movsl_down (suc n) d s m = movsl_down n (sub32 d 4) (sub32 s 4) (move32 m d s)

abbrev pub aligned : ℕ → ℕ → ℕ → Bool
aligned s d n = (s % 4 == 0) && (d % 4 == 0) && (n % 4 == 0)

-- The two branches of memmove: with the direction flag set, from the ends down, and clear.
unfoldable pub move_down : ℕ → ℕ → ℕ → Mem → Mem
move_down d s n m =
    if aligned s d n
    then movsl_down (n / 4) (sub32 d 4) (sub32 s 4) m
    else movsb_down n (sub32 d 1) (sub32 s 1) m

unfoldable pub move_up : ℕ → ℕ → ℕ → Mem → Mem
move_up d s n m = if aligned s d n then movsl_up (n / 4) d s m else movsb_up n d s m

unfoldable pub memmove : ℕ → ℕ → ℕ → Mem → Mem
unfolding move_down move_up
memmove dst src n m =
    if ltb src dst && ltb dst (add32 src n)
    then move_down (add32 dst n) (add32 src n) n m
    else move_up dst src n m

unfoldable pub memcpy : ℕ → ℕ → ℕ → Mem → Mem
memcpy dst src n m = memmove dst src n m

-- `while ((*dst++ = *src++) != '\0');` on fuel; the byte is copied before it is tested.
unfoldable pub strcpy : ℕ → ℕ → ℕ → Mem → Option Mem
strcpy zero dst src m = none
strcpy (suc fuel) dst src m =
    let rest = strcpy fuel (add32 dst 1) (add32 src 1) (write m dst (m src)) in
    if m src == 0 then some (write m dst (m src)) else rest

-- One round for each `i < size`; `src` stays on the terminator.
unfoldable pub strncpy : ℕ → ℕ → ℕ → Mem → Mem
strncpy zero dst src m = m
strncpy (suc size) dst src m =
    let m' = write m dst (m src) in
    strncpy size (add32 dst 1) (if m' src == 0 then src else add32 src 1) m'

-- The loop `while (--size > 0 && *src != '\0')` entered with `size - 1` characters of room, then
-- the terminator; the second part is the final `dst`.
unfoldable pub strlcpy_loop : ℕ → ℕ → ℕ → Mem → Mem × ℕ
strlcpy_loop zero dst src m = (write m dst 0, dst)
strlcpy_loop (suc room) dst src m =
    let rest = strlcpy_loop room (add32 dst 1) (add32 src 1) (write m dst (m src)) in
    if m src == 0 then (write m dst 0, dst) else rest

unfoldable pub strlcpy : ℕ → ℕ → ℕ → Mem → Mem × ℕ
unfolding strlcpy_loop
strlcpy zero dst src m = (m, 0)
strlcpy (suc room) dst src m = let (m', end) = strlcpy_loop room dst src m in (m', sub32 end dst)
