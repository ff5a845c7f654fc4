-- ===== src/Printfmt/Caller.antt =====
-- inc/stdarg.h: the arguments that va_arg reads from the caller's stack are those of the list.
use jos_smp.Base.{
  ℕ, ◌+◌, ◌-◌, ◌*◌, ◌^◌, ◌<◌, ◌≡◌, ◌≢◌, refl, Option, none, some, List, [], ◌∷◌, leb, ltb,
  if◌then◌else◌, arith, Bool-cases, inl, inr, subst,
}
use jos_smp.Base.Word.{add32, sub32}
use jos_smp.CString.Defs.{Bytes}
use jos_smp.Cpu.Strings.{load32}
use jos_smp.Memory.Defs.{Mem}
use jos_smp.Printfmt.Format
use jos_smp.Printfmt.Format.{
  Args, Run, done, fault, out_of_fuel, ◌>>=◌, int, quad, str, get_int, get_str,
}
use jos_smp.Printfmt.Runs.{done-same, >>=-done}
use jos_smp.Printfmt.Varargs.{
  va_arg32, va_arg64, getuint, getint, Take, unsigned_number, signed_number, an_int, a_string,
  Taken, number, text, take, take_at, take_all, take_all_at,
}

-- The bytes at an address.
abbrev pub Spells : Mem → ℕ → Bytes → Type 0
Spells m p [] = Unit
Spells m p (c ∷ s) = (m p ≡ c) × Spells m (add32 p 1) s

-- A pointer: null, or to the bytes of a string.
abbrev pub Points : Mem → ℕ → Option Bytes → Type 0
Points m p none = p ≡ 0
Points m p (some s) = (p ≢ 0) × Spells m p s

-- The caller has pushed these arguments, the first at `list`: in 32 bits, a `long long` in 64.
abbrev pub Pushed : Mem → ℕ → Args → Type 0
Pushed m list [] = Unit
Pushed m list (int w ∷ args) = (load32 m list ≡ w) × Pushed m (add32 list 4) args
Pushed m list (quad v ∷ args) =
    (load32 m list + 2 ^ 32 * load32 m (add32 list 4) ≡ v) × Pushed m (add32 list 8) args
Pushed m list (str s ∷ args) = Points m (load32 m list) s × Pushed m (add32 list 4) args

-- A pattern in memory stands for what was taken.
abbrev pub Stands : Mem → ℕ → Taken → Type 0
Stands m v (number n) = v ≡ n
Stands m v (text s) = Points m v s

abbrev pub AllStand : Mem → List ℕ → List Taken → Type 0
AllStand m [] [] = Unit
AllStand m [] (t ∷ ts) = ⊥
AllStand m (v ∷ vs) [] = ⊥
AllStand m (v ∷ vs) (t ∷ ts) = Stands m v t × AllStand m vs ts

va_arg32_lem :
    (m : Mem) (list : ℕ) → list < 2 ^ 32 → va_arg32 m list ≡ (load32 m list, add32 list 4)
unfolding va_arg32
va_arg32_lem m list h = let e : sub32 (add32 list 4) 4 ≡ list = omega arith in rw e refl

va_arg64_lem :
    (m : Mem) (list : ℕ)
    → list < 2 ^ 32
    → va_arg64 m list ≡ (load32 m list + 2 ^ 32 * load32 m (add32 list 4), add32 list 8)
unfolding va_arg64
va_arg64_lem m list h = let e : sub32 (add32 list 8) 8 ≡ list = omega arith in rw e refl

agree :
    (m : Mem) (p list : ℕ) (v v' : Taken) (args rest : Args)
    → list < 2 ^ 32
    → ◌≡◌ {A = Run (Taken × Args)} (done (v', args)) (done (v, rest))
    → Stands m p v'
    → Pushed m list args
    → Stands m p v × Pushed m list rest × (list < 2 ^ 32)
agree m p list v v' args rest h e stands pushed =
    subst (λ (r : Taken × Args). Stands m p r.0 × Pushed m list r.1 × (list < 2 ^ 32))
      (done-same {A = Taken × Args} (v', args) (v, rest) e) (stands, pushed, h)

module _ (m : Mem) (list : ℕ) (low : list < 2 ^ 32) (rest : Args) (v : Taken) where
  -- An argument was read so.
  abbrev Reads : ℕ × ℕ → Type 0
  Reads r = Stands m r.0 v × Pushed m r.1 rest × (r.1 < 2 ^ 32)

  unsigned_read :
      (lflag : ℕ) (args : Args)
      → Pushed m list args
      → take (unsigned_number lflag) args ≡ done (v, rest)
      → Reads (getuint lflag m list)
  unfolding take getuint Format.getuint
  unsigned_read lflag [] pushed e = absurd (cc)
  unsigned_read lflag (str s ∷ args) pushed e = absurd (cc)
  unsigned_read lflag (int w ∷ args) (at, pushed) e = elim (Bool-cases (leb 2 lflag)) [
    | inl y ↦ absurd (cc (rw y at e))
    | inr n ↦
        rw (n, va_arg32_lem m list low)
          (agree m _ _ v (number w) args rest (omega arith) (rw n at e) at pushed)
  ]
  unsigned_read lflag (quad w ∷ args) (at, pushed) e = elim (Bool-cases (leb 2 lflag)) [
    | inl y ↦
        rw (y, va_arg64_lem m list low)
          (agree m _ _ v (number w) args rest (omega arith) (rw y at e) at pushed)
    | inr n ↦ absurd (cc (rw n at e))
  ]

  signed_read :
      (lflag : ℕ) (args : Args)
      → Pushed m list args
      → take (signed_number lflag) args ≡ done (v, rest)
      → Reads (getint lflag m list)
  unfolding take getint Format.getint
  signed_read lflag [] pushed e = absurd (cc)
  signed_read lflag (str s ∷ args) pushed e = absurd (cc)
  signed_read lflag (int w ∷ args) (at, pushed) e = elim (Bool-cases (leb 2 lflag)) [
    | inl y ↦ absurd (cc (rw y at e))
    | inr n ↦
        rw (n, va_arg32_lem m list low, at)
          (agree m _ _ v (number (if ltb w (2 ^ 31) then w else w + (2 ^ 64 - 2 ^ 32))) args rest
            (omega arith) (rw n at e) refl pushed)
  ]
  signed_read lflag (quad w ∷ args) (at, pushed) e = elim (Bool-cases (leb 2 lflag)) [
    | inl y ↦
        rw (y, va_arg64_lem m list low)
          (agree m _ _ v (number w) args rest (omega arith) (rw y at e) at pushed)
    | inr n ↦ absurd (cc (rw n at e))
  ]

  int_read :
      (args : Args)
      → Pushed m list args
      → take an_int args ≡ done (v, rest)
      → Reads (va_arg32 m list)
  unfolding take get_int
  int_read [] pushed e = absurd (cc)
  int_read (int w ∷ args) (at, pushed) e =
      rw (va_arg32_lem m list low) (agree m _ _ v (number w) args rest (omega arith) e at pushed)
  int_read (quad w ∷ args) pushed e = absurd (cc)
  int_read (str s ∷ args) pushed e = absurd (cc)

  string_read :
      (args : Args)
      → Pushed m list args
      → take a_string args ≡ done (v, rest)
      → Reads (va_arg32 m list)
  unfolding take get_str
  string_read [] pushed e = absurd (cc)
  string_read (int w ∷ args) pushed e = absurd (cc)
  string_read (quad w ∷ args) pushed e = absurd (cc)
  string_read (str s ∷ args) (at, pushed) e =
      rw (va_arg32_lem m list low) (agree m _ _ v (text s) args rest (omega arith) e at pushed)

  take-take_at :
      (t : Take) (args : Args)
      → Pushed m list args
      → take t args ≡ done (v, rest)
      → Reads (take_at t m list)
  unfolding take_at
  take-take_at (unsigned_number lflag) args pushed e = unsigned_read lflag args pushed e
  take-take_at (signed_number lflag) args pushed e = signed_read lflag args pushed e
  take-take_at an_int args pushed e = int_read args pushed e
  take-take_at a_string args pushed e = string_read args pushed e

-- The same, for what a sequence took.
all_agree :
    (m : Mem) (ps : List ℕ) (list : ℕ) (vs vs' : List Taken) (args rest : Args)
    → ◌≡◌ {A = Run (List Taken × Args)} (done (vs', args)) (done (vs, rest))
    → AllStand m ps vs'
    → Pushed m list args
    → AllStand m ps vs × Pushed m list rest
all_agree m ps list vs vs' args rest e all pushed =
    subst (λ (r : List Taken × Args). AllStand m ps r.0 × Pushed m list r.1)
      (done-same {A = List Taken × Args} (vs', args) (vs, rest) e) (all, pushed)

-- Whatever sequence of arguments vprintfmt takes from its list without a fault, `va_arg` takes from
-- the caller's stack: each word or double word that it reads stands for what was taken, a pointer for
-- its string, and the va_list then points at the arguments that are left.
pub take_all-take_all_at :
    (ts : List Take) (m : Mem) (list : ℕ) (args rest : Args) (vs : List Taken)
    → list < 2 ^ 32
    → Pushed m list args
    → take_all ts args ≡ done (vs, rest)
    → AllStand m (take_all_at ts m list).0 vs × Pushed m (take_all_at ts m list).1 rest
unfolding take_all take_all_at
take_all-take_all_at [] m list args rest vs low pushed e =
    all_agree m [] list vs [] args rest e tt pushed
take_all-take_all_at (t ∷ ts) m list args rest vs low pushed e =
    let (r, e1, e2) = >>=-done (take t args) _ (vs, rest) e in
    let (s, e3, e4) = >>=-done (take_all ts r.1) _ (vs, rest) e2 in
    let (stands, pushed', low') = take-take_at m list low r.1 r.0 t args pushed e1 in
    let (all, left) = take_all-take_all_at ts m (take_at t m list).1 r.1 s.1 s.0 low' pushed' e3 in
    all_agree m (take_all_at (t ∷ ts) m list).0 (take_all_at (t ∷ ts) m list).1 vs (r.0 ∷ s.0) s.1
      rest e4 (stands, all) left
