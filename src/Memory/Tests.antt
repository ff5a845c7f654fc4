-- ===== src/Memory/Tests.antt =====
-- lib/string.c: the theorems on the writing routines at an input.
use jos_smp.Base.{ℕ, zero, suc, ◌+◌, ◌<◌, ◌≡◌, ◌≢◌, refl, arith, inr, some, [], ◌∷◌, get_or}
use jos_smp.Memory.Defs.{Mem, memset, memmove, movsb_down, movsl_down, strcpy, strlcpy}
use jos_smp.Memory.Move.{moved, memmove-moved}
use jos_smp.Memory.Set.{filled}
use jos_smp.Memory.Portable
use jos_smp.Memory.Portable.{memmove-memset}
use jos_smp.Memory.Copy.{IsStringAt, strcpy-moved, strlcpy-moved}

-- "abcdefgh" from address 0, then zeros.
abbrev memory : Mem
memory a = get_or (b'a' ∷ b'b' ∷ b'c' ∷ b'd' ∷ b'e' ∷ b'f' ∷ b'g' ∷ b'h' ∷ []) a 0

-- Eight bytes four up, by words from the end down; and one address further, by bytes.
move_runs : (memmove 4 0 8 memory 11 ≡ b'h') × (memmove 5 0 8 memory 6 ≡ b'b')
unfolding memmove movsb_down movsl_down
move_runs = (refl, refl)

memory-IsStringAt : IsStringAt memory 5 3
memory-IsStringAt = record { chars = λ i h. nonzero i h; terminator = refl; inside = omega arith }
  where
    nonzero : (i : ℕ) → i < 3 → memory (5 + i) ≢ 0
    nonzero zero h = omega arith
    nonzero (suc zero) h = omega arith
    nonzero (suc (suc zero)) h = omega arith
    nonzero (suc (suc (suc i))) h = absurd (omega arith)

memmove-moved_example : memmove 4 0 8 memory 11 ≡ b'h'
memmove-moved_example = memmove-moved 4 0 8 memory 11 (omega arith) (omega arith)

strcpy-moved_example :
    (m' : Mem) × (strcpy 4 100 5 memory ≡ some m')
    × IsStringAt m' 100 3
    × ((a : ℕ) → m' a ≡ moved 100 5 4 memory a)
strcpy-moved_example =
    strcpy-moved 4 3 100 5 memory (omega arith) memory-IsStringAt (omega arith) (inr (omega arith))

strlcpy-moved_example : let (m', count) = strlcpy 3 100 5 memory in (m' 102 ≡ 0) × (count ≡ 2)
strlcpy-moved_example =
    strlcpy-moved 2 3 100 5 memory 102 memory-IsStringAt (omega arith) (inr (omega arith))

memmove-memset_example :
    (memmove 4 0 8 memory ≡ Portable.memmove 4 0 8 memory)
    × (memset 4 0x1ff 8 memory ≡ Portable.memset 4 0x1ff 8 memory)
    × (Portable.memset 4 0x1ff 8 memory ≡ filled 4 0xff 8 memory)
memmove-memset_example = memmove-memset 4 0 0x1ff 8 memory (omega arith) (omega arith) (omega arith)
