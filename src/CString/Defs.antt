-- ===== src/CString/Defs.antt =====
-- lib/string.c: strlen, strnlen, strcmp, strncmp, strchr, strfind, memcmp, memfind.
-- The list is the bytes from the pointer to the end of its object; `none` is a read past that end.
-- Objects are shorter than 2^31 bytes, so the `int` counters do not overflow.
use jos_smp.Base.{
  ℕ, zero, suc, ◌+◌, ◌%◌, ◌||◌, not, Option, none, some, List, [], ◌∷◌, ◌==◌, if◌then◌else◌,
}
use jos_smp.Base.Int.{ℤ, pos, sub_ℕ}

abbrev pub Bytes : Type 0
Bytes = List ℕ

-- `for (n = 0; *s != '\0'; s++) n++;`
unfoldable pub strlen_loop : Bytes → ℕ → Option ℕ
strlen_loop [] n = none
strlen_loop (c ∷ s) n = let rest = strlen_loop s (n + 1) in if c == 0 then some n else rest

unfoldable pub strlen : Bytes → Option ℕ
unfolding strlen_loop
strlen s = strlen_loop s 0

-- `for (n = 0; size > 0 && *s != '\0'; s++, size--) n++;`
unfoldable pub strnlen_loop : Bytes → ℕ → ℕ → Option ℕ
strnlen_loop s zero n = some n
strnlen_loop [] (suc size) n = none
strnlen_loop (c ∷ s) (suc size) n =
    let rest = strnlen_loop s size (n + 1) in if c == 0 then some n else rest

unfoldable pub strnlen : Bytes → ℕ → Option ℕ
unfolding strnlen_loop
strnlen s size = strnlen_loop s size 0

-- The loop stops at the first pair where `*p` is zero or differs from `*q`.
unfoldable pub strcmp : Bytes → Bytes → Option ℤ
strcmp [] q = none
strcmp (a ∷ p) [] = none
strcmp (a ∷ p) (b ∷ q) =
    let rest = strcmp p q in if a == 0 || not (a == b) then some (sub_ℕ a b) else rest

unfoldable pub strncmp : Bytes → Bytes → ℕ → Option ℤ
strncmp p q zero = some (pos 0)
strncmp [] q (suc n) = none
strncmp (a ∷ p) [] (suc n) = none
strncmp (a ∷ p) (b ∷ q) (suc n) =
    let rest = strncmp p q n in if a == 0 || not (a == b) then some (sub_ℕ a b) else rest

-- The inner option is the returned pointer: `none` is the null pointer.
unfoldable pub strchr_loop : Bytes → ℕ → ℕ → Option (Option ℕ)
strchr_loop [] c i = none
strchr_loop (x ∷ s) c i =
    let rest = strchr_loop s c (i + 1) in
    if x == 0 then some none else if x == c then some (some i) else rest

unfoldable pub strchr : Bytes → ℕ → Option (Option ℕ)
unfolding strchr_loop
strchr s c = strchr_loop s c 0

unfoldable pub strfind_loop : Bytes → ℕ → ℕ → Option ℕ
strfind_loop [] c i = none
strfind_loop (x ∷ s) c i =
    let rest = strfind_loop s c (i + 1) in
    if x == 0 then some i else if x == c then some i else rest

unfoldable pub strfind : Bytes → ℕ → Option ℕ
unfolding strfind_loop
strfind s c = strfind_loop s c 0

unfoldable pub memcmp : Bytes → Bytes → ℕ → Option ℤ
memcmp s1 s2 zero = some (pos 0)
memcmp [] s2 (suc n) = none
memcmp (a ∷ s1) [] (suc n) = none
memcmp (a ∷ s1) (b ∷ s2) (suc n) =
    let rest = memcmp s1 s2 n in if not (a == b) then some (sub_ℕ a b) else rest

-- The result is the distance of the byte found, or `n`. `c` is cast to `unsigned char`.
unfoldable pub memfind_loop : Bytes → ℕ → ℕ → ℕ → Option ℕ
memfind_loop s c zero i = some i
memfind_loop [] c (suc n) i = none
memfind_loop (x ∷ s) c (suc n) i =
    let rest = memfind_loop s c n (i + 1) in if x == c % 256 then some i else rest

unfoldable pub memfind : Bytes → ℕ → ℕ → Option ℕ
unfolding memfind_loop
memfind s c n = memfind_loop s c n 0
