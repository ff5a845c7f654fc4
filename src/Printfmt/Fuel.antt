-- ===== src/Printfmt/Fuel.antt =====
-- lib/printfmt.c: the main loop ends. Fuel bounds, and independence of the fuel.
use jos_smp.Base.{
  ℕ, zero, suc, ◌-◌, ◌^◌, ◌<◌, ◌≤◌, Bool, Option, none, some, List, [], ◌∷◌, arith, leb, ◌==◌,
  Bool-cases, inl, inr, ap, ◌&&◌, not,
}
use jos_smp.Base.Int.{ℤ, pos, ltb_ℤ}
use jos_smp.CString.Defs.{Bytes, strnlen}
use jos_smp.Printfmt.Digits.{printnum-field}
use jos_smp.Printfmt.Format.{
  Args, Run, done, fault, out_of_fuel, ◌>>=◌, of_option, Flags, int, quad, str, getuint, getint,
  get_int, get_str,
}
use jos_smp.Printfmt.Print.{
  print_string, print_signed, print_number, left_pad, string_loop, size_of,
}

-- Each argument is a pattern of its width.
abbrev pub AllWords : Args → Type 0
AllWords [] = Unit
AllWords (int w ∷ ap) = (w < 2 ^ 32) × AllWords ap
AllWords (quad v ∷ ap) = (v < 2 ^ 64) × AllWords ap
AllWords (str s ∷ ap) = AllWords ap

-- A run that does not end for want of fuel, and whose result satisfies `P`.
abbrev pub Ends : {A : Type 0} → (A → Type 0) → Run A → Type 0
Ends P (done a) = P a
Ends P fault = Unit
Ends P out_of_fuel = ⊥

pub Ends-bind :
    {A B : Type 0} (P : A → Type 0) (Q : B → Type 0) (m : Run A) (f : A → Run B)
    → Ends P m
    → ((a : A) → P a → Ends Q (f a))
    → Ends Q (m >>= f)
Ends-bind P Q (done a) f h k = k a h
Ends-bind P Q fault f h k = tt
Ends-bind P Q out_of_fuel f h k = h

pub Ends-mono :
    {A : Type 0} (P Q : A → Type 0) (m : Run A) → ((a : A) → P a → Q a) → Ends P m → Ends Q m
Ends-mono P Q (done a) k h = k a h
Ends-mono P Q fault k h = tt
Ends-mono P Q out_of_fuel k h = h

abbrev pub AnyOut : List ℕ → Type 0
AnyOut o = Unit

Ends-of_option : {A : Type 0} (o : Option A) → Ends (λ a. Unit) (of_option o)
Ends-of_option none = tt
Ends-of_option (some a) = tt

string_loop-Ends :
    (alt : Bool) (s : Bytes) (limit : Option ℕ) → Ends AnyOut (string_loop alt s limit)
unfolding string_loop
string_loop-Ends alt [] limit = tt
string_loop-Ends alt (c ∷ s) none = elim (Bool-cases (c == 0)) [
  | inl y ↦ rw y tt
  | inr y ↦
      rw y (
        Ends-bind AnyOut AnyOut (string_loop alt s none) _ (string_loop-Ends alt s none)
          (λ a h. tt))
]
string_loop-Ends alt (c ∷ s) (some zero) = tt
string_loop-Ends alt (c ∷ s) (some (suc k)) = elim (Bool-cases (c == 0)) [
  | inl y ↦ rw y tt
  | inr y ↦ rw y (
      Ends-bind AnyOut AnyOut (string_loop alt s (some k)) _ (string_loop-Ends alt s (some k))
        (λ a h. tt))
]

left_pad-Ends : (fl : Flags) (p : Bytes) → Ends (λ a. Unit) (left_pad fl p)
unfolding left_pad
left_pad-Ends fl p = elim (Bool-cases (ltb_ℤ (pos 0) fl.width && not (fl.padc == b'-'))) [
  | inl y ↦ rw y (
      Ends-bind (λ (a : ℕ). Unit) (λ (a : List ℕ × ℤ). Unit)
        (of_option (strnlen p (size_of fl.precision))) _ (Ends-of_option _) (λ a h. tt))
  | inr y ↦ rw y tt
]

pub print_string-Ends : (fl : Flags) (p : Bytes) → Ends AnyOut (print_string fl p)
unfolding print_string
print_string-Ends fl p =
    Ends-bind (λ (a : List ℕ × ℤ). Unit) AnyOut (left_pad fl p) _ (left_pad-Ends fl p)
      (λ a h.
        Ends-bind AnyOut AnyOut (string_loop fl.altflag p _) _ (string_loop-Ends fl.altflag p _)
          (λ b k. tt))

pub print_number-Ends :
    (fl : Flags) (num base : ℕ)
    → (2 ≤ base) × (base ≤ 16)
    → num < 2 ^ 64
    → Ends AnyOut (print_number fl num base)
unfolding print_number
print_number-Ends fl num base b h =
    let (ds, e, i) = printnum-field num base fl.width fl.padc b.0 b.1 h in rw (e, Ends) tt

pub print_signed-Ends : (fl : Flags) (num : ℕ) → num < 2 ^ 64 → Ends AnyOut (print_signed fl num)
unfolding print_signed
print_signed-Ends fl num h = elim (Bool-cases (leb (2 ^ 63) num)) [
  | inl y ↦ rw y (
      Ends-bind AnyOut AnyOut (print_number fl (2 ^ 64 - num) 10) _
        (print_number-Ends fl (2 ^ 64 - num) 10 (omega arith) (ground arith)) (λ a k. tt))
  | inr y ↦ rw y (print_number-Ends fl num 10 (omega arith) h)
]

abbrev pub Read64 : ℕ × Args → Type 0
Read64 r = (r.0 < 2 ^ 64) × AllWords r.1

pub getuint-Ends : (l : ℕ) (ap : Args) → AllWords ap → Ends Read64 (getuint l ap)
unfolding getuint
getuint-Ends l [] h = tt
getuint-Ends l (int w ∷ ap) h = elim (Bool-cases (leb 2 l)) [
  | inl y ↦ rw y tt
  | inr y ↦ rw y (omega arith, h.1)
]
getuint-Ends l (quad v ∷ ap) h = elim (Bool-cases (leb 2 l)) [ inl y ↦ rw y h | inr y ↦ rw y tt ]
getuint-Ends l (str s ∷ ap) h = tt

pub getint-Ends : (l : ℕ) (ap : Args) → AllWords ap → Ends Read64 (getint l ap)
unfolding getint
getint-Ends l [] h = tt
getint-Ends l (int w ∷ ap) h = elim (Bool-cases (leb 2 l)) [
  | inl y ↦ rw y tt
  | inr y ↦ rw y (ground arith, h.1)
]
getint-Ends l (quad v ∷ ap) h = elim (Bool-cases (leb 2 l)) [ inl y ↦ rw y h | inr y ↦ rw y tt ]
getint-Ends l (str s ∷ ap) h = tt

abbrev pub Read32 : ℕ × Args → Type 0
Read32 r = (r.0 < 2 ^ 32) × AllWords r.1

pub get_int-Ends : (ap : Args) → AllWords ap → Ends Read32 (get_int ap)
unfolding get_int
get_int-Ends [] h = tt
get_int-Ends (int w ∷ ap) h = h
get_int-Ends (quad v ∷ ap) h = tt
get_int-Ends (str s ∷ ap) h = tt

pub get_str-Ends :
    (ap : Args) → AllWords ap → Ends (λ (r : Option Bytes × Args). AllWords r.1) (get_str ap)
unfolding get_str
get_str-Ends [] h = tt
get_str-Ends (int w ∷ ap) h = tt
get_str-Ends (quad v ∷ ap) h = tt
get_str-Ends (str s ∷ ap) h = h
