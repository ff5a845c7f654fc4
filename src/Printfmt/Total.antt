-- ===== src/Printfmt/Total.antt =====
-- lib/printfmt.c: vprintfmt ends within fuel linear in the format's length.
use Prim.Native.String.{String}
use jos_smp.Base.{
  ℕ, zero, suc, ◌+◌, ◌-◌, ◌^◌, ◌<◌, ◌≤◌, ◌≡◌, ◌≢◌, ◌⊎◌, refl, Option, none, some, List, [], ◌∷◌,
  ◌++◌, arith, length, ltb, ◌==◌, if◌then◌else◌, Bool-cases, inl, inr, ap, ◌&&◌, get_or,
}
use jos_smp.CString.Defs.{Bytes}
use jos_smp.Printfmt.Format.{
  Args, Run, done, fault, out_of_fuel, ◌>>=◌, Flags, no_flags, int, quad, str, getuint, getint,
  get_int, get_str, scan, Step, reswitch, stop, flag_step, process_precision, accumulate, is_digit,
}
use jos_smp.Printfmt.Print.{
  literal, vprintfmt, after, convert, convert_error, print_string, print_signed, print_number,
  Conversion, out, nested, literally, error_string, max_error,
}
use jos_smp.Printfmt.Fuel.{
  AllWords, Ends, Ends-bind, Ends-mono, AnyOut, Read64, Read32, print_string-Ends,
  print_number-Ends, print_signed-Ends, getuint-Ends, getint-Ends, get_int-Ends, get_str-Ends,
}

abbrev Stepped : Step → Type 0
Stepped (reswitch fl ap) = AllWords ap
Stepped stop = Unit

flag_step-Ends : (ch : ℕ) (fl : Flags) (ap : Args) → AllWords ap → Ends Stepped (flag_step ch fl ap)
unfolding flag_step get_int
flag_step-Ends ch fl [] h = ground arith
flag_step-Ends ch fl (int w ∷ ap) h = ground arith
flag_step-Ends ch fl (quad v ∷ ap) h = ground arith
flag_step-Ends ch fl (str s ∷ ap) h = ground arith

abbrev Scanned : Bytes → ℕ × Bytes × Flags × Args → Type 0
Scanned s r = AllWords r.3 × (length r.1 < length s)

scan-Ends : (s : Bytes) (fl : Flags) (ap : Args) → AllWords ap → Ends (Scanned s) (scan s fl ap)
unfolding scan
scan-Ends [] fl ap h = tt
scan-Ends (ch ∷ s) fl ap h = elim (Bool-cases (fl.number && is_digit ch)) [
  | inl y ↦ rw y (
      Ends-mono (Scanned s) (Scanned (ch ∷ s)) (scan s (accumulate fl ch) ap)
        (λ a k. (k.0, omega (arith, k.1))) (scan-Ends s (accumulate fl ch) ap h))
  | inr y ↦
      let fl' = if fl.number then process_precision fl else fl in
      rw y (
        Ends-bind Stepped (Scanned (ch ∷ s)) (flag_step ch fl' ap) _ (flag_step-Ends ch fl' ap h)
          (elim [
            | reswitch fl'' ap' ↦ λ k.
                Ends-mono (Scanned s) (Scanned (ch ∷ s)) (scan s fl'' ap')
                  (λ a k. (k.0, omega (arith, k.1))) (scan-Ends s fl'' ap' k)
            | stop ↦ λ k. (h, omega arith)
          ]))
]

-- What a conversion asks of the main loop.
abbrev Converted : Conversion → Type 0
Converted (out o ap) = AllWords ap
Converted (nested fmt args ap) =
    ((((w : ℕ) × (fmt ≡ literal "error %d") × (args ≡ int w ∷ []) × (w < 2 ^ 32)))
      ⊎ ((p : Bytes) × (fmt ≡ literal "%s") × (args ≡ str (some p) ∷ [])))
    × AllWords ap
Converted (literally ap) = AllWords ap

convert_error-Ends :
    (w : ℕ) (ap : Args) → w < 2 ^ 32 → AllWords ap → Ends Converted (convert_error w ap)
unfolding convert_error
convert_error-Ends w ap h k = elim (Bool-cases (e == 2 ^ 31)) [
  | inl y ↦ rw y tt
  | inr y ↦ rw y (elim (Bool-cases (ltb max_error e)) [
    | inl z ↦ rw z (inl (e, refl, refl, small), k)
    | inr z ↦ rw z (choose (get_or error_string e none))
  ])
]
  where
    e : ℕ
    e = if ltb (2 ^ 31) w then 2 ^ 32 - w else w

    small : e < 2 ^ 32
    small = ground arith

    choose :
        (o : Option String)
        → Converted (elim o [
          | none ↦ nested (literal "error %d") (int e ∷ []) ap
          | some s ↦ nested (literal "%s") (str (some (literal s)) ∷ []) ap
        ])
    choose none = (inl (e, refl, refl, small), k)
    choose (some s) = (inr (literal s, refl, refl), k)

-- A conversion that reads an argument and prints it.
prints :
    {A : Type 0} (P : A × Args → Type 0) (m : Run (A × Args)) (f : A → Run (List ℕ))
    → Ends P m
    → ((r : A × Args) → P r → Ends AnyOut (f r.0) × AllWords r.1)
    → Ends Converted (m >>= (λ r. f r.0 >>= (λ o. done (out o r.1))))
prints P m f h k =
    Ends-bind P Converted m _ h
      (λ r p. Ends-bind AnyOut Converted (f r.0) _ (k r p).0 (λ o q. (k r p).1))

convert-Ends : (ch : ℕ) (fl : Flags) (ap : Args) → AllWords ap → Ends Converted (convert ch fl ap)
unfolding convert
convert-Ends ch fl ap h = elim (Bool-cases (ch == b'c')) [
  | inl y ↦ rw y (Ends-bind Read32 Converted (get_int ap) _ (get_int-Ends ap h) (λ r p. p.1))
  | inr n ↦ rw n (elim (Bool-cases (ch == b'e')) [
    | inl y ↦ rw y (
        Ends-bind Read32 Converted (get_int ap) _ (get_int-Ends ap h)
          (λ r p. convert_error-Ends r.0 r.1 p.0 p.1))
    | inr n ↦ rw n (elim (Bool-cases (ch == b's')) [
      | inl y ↦ rw y (
          Ends-bind (λ (r : Option Bytes × Args). AllWords r.1) Converted (get_str ap) _
            (get_str-Ends ap h)
            (λ r p.
              Ends-bind AnyOut Converted (print_string fl _) _ (print_string-Ends fl _) (λ o q. p)))
      | inr n ↦ rw n (elim (Bool-cases (ch == b'd')) [
        | inl y ↦ rw y (
            prints Read64 (getint fl.lflag ap) (print_signed fl) (getint-Ends fl.lflag ap h)
              (λ r p. (print_signed-Ends fl r.0 p.0, p.1)))
        | inr n ↦ rw n (elim (Bool-cases (ch == b'u')) [
          | inl y ↦ rw y (number 10 (omega arith))
          | inr n ↦ rw n (elim (Bool-cases (ch == b'o')) [
            | inl y ↦ rw y (number 8 (omega arith))
            | inr n ↦ rw n (elim (Bool-cases (ch == b'p')) [
              | inl y ↦ rw y pointer
              | inr n ↦ rw n (elim (Bool-cases (ch == b'x')) [
                | inl y ↦ rw y (number 16 (omega arith))
                | inr n ↦ rw n (elim (Bool-cases (ch == b'%')) [ inl y ↦ rw y h | inr n ↦ rw n h ])
              ])
            ])
          ])
        ])
      ])
    ])
  ])
]
  where
    number :
        (base : ℕ)
        → (2 ≤ base) × (base ≤ 16)
        → Ends Converted
            (getuint fl.lflag ap >>= (λ r. print_number fl r.0 base >>= (λ o. done (out o r.1))))
    number base b =
        prints Read64 (getuint fl.lflag ap) (λ n. print_number fl n base)
          (getuint-Ends fl.lflag ap h) (λ r p. (print_number-Ends fl r.0 base b p.0, p.1))

    pointer :
        Ends Converted
          (get_int ap >>= (λ r. print_number fl r.0 16 >>= (λ o. done (out (b'0' ∷ b'x' ∷ o) r.1))))
    pointer = Ends-bind Read32 Converted (get_int ap) _ (get_int-Ends ap h) (λ r p.
        Ends-bind AnyOut Converted (print_number fl r.0 16) _
          (print_number-Ends fl r.0 16 (omega arith) (omega (arith, p.0))) (λ o q. p.1))

Ends-cases :
    {A : Type 0} (P : A → Type 0) (m : Run A)
    → Ends P m
    → (m ≡ fault) ⊎ ((a : A) × (m ≡ done a) × P a)
Ends-cases P (done a) h = inr (a, refl, h)
Ends-cases P fault h = inl refl
Ends-cases P out_of_fuel h = absurd h

abbrev nine_more : ℕ → ℕ
nine_more n = suc (suc (suc (suc (suc (suc (suc (suc (suc n))))))))

nested_error :
    (fuel w : ℕ)
    → w < 2 ^ 32
    → Ends AnyOut (vprintfmt (nine_more fuel) (literal "error %d") (int w ∷ []))
unfolding vprintfmt after scan flag_step convert getint
nested_error fuel w h =
    elim (Ends-cases AnyOut (print_signed no_flags num)
      (print_signed-Ends no_flags num (ground arith))) [ inl e ↦ rw e tt | inr (o, e, u) ↦ rw e tt ]
  where
    num : ℕ
    num = if ltb w (2 ^ 31) then w else w + (2 ^ 64 - 2 ^ 32)

nested_string :
    (fuel : ℕ) (p : Bytes)
    → Ends AnyOut (vprintfmt (nine_more fuel) (literal "%s") (str (some p) ∷ []))
unfolding vprintfmt after scan flag_step convert get_str
nested_string fuel p = go (print_string no_flags p) (print_string-Ends no_flags p)
  where
    go :
        (m : Run (List ℕ))
        → Ends AnyOut m
        → Ends AnyOut (
            m
            >>= (λ o. done (out o []))
            >>= after
                (vprintfmt (suc (suc (suc (suc (suc (suc (suc (suc fuel)))))))))
                (0 ∷ [])
                (b's' ∷ 0 ∷ []))
    go (done o) u = tt
    go fault u = tt
    go out_of_fuel u = u

nine_more-sub : (fuel : ℕ) → 9 ≤ fuel → fuel ≡ nine_more (fuel - 9)
nine_more-sub fuel h = omega arith

vprintfmt-Ends :
    (fuel : ℕ) (fmt : Bytes) (ap : Args)
    → length fmt + 9 ≤ fuel
    → AllWords ap
    → Ends AnyOut (vprintfmt fuel fmt ap)
unfolding vprintfmt after
vprintfmt-Ends zero fmt ap h k = absurd (omega arith)
vprintfmt-Ends (suc fuel) [] ap h k = tt
vprintfmt-Ends (suc fuel) (c ∷ s) ap h k = elim (Bool-cases (c == b'%')) [
  | inl y ↦ rw y (
      Ends-bind (Scanned s) AnyOut (scan s no_flags ap) _ (scan-Ends s no_flags ap k) (λ r p.
        Ends-bind Converted AnyOut (convert r.0 r.2 r.3) _ (convert-Ends r.0 r.2 r.3 p.0) (elim [
          | out o ap' ↦ λ q.
              prepend o (vprintfmt fuel r.1 ap')
                (vprintfmt-Ends fuel r.1 ap' (omega (arith, p.1)) q)
          | nested fmt' args ap' ↦ λ q.
              Ends-bind AnyOut AnyOut (vprintfmt fuel fmt' args) _ (inner fmt' args q.0) (λ o u.
                prepend o (vprintfmt fuel r.1 ap')
                  (vprintfmt-Ends fuel r.1 ap' (omega (arith, p.1)) q.1))
          | literally ap' ↦ λ q.
              prepend (b'%' ∷ []) (vprintfmt fuel s ap') (vprintfmt-Ends fuel s ap' (omega arith) q)
        ])))
  | inr n ↦ rw n (elim (Bool-cases (c == 0)) [
    | inl z ↦ rw z tt
    | inr z ↦
        rw z (prepend (c ∷ []) (vprintfmt fuel s ap) (vprintfmt-Ends fuel s ap (omega arith) k))
  ])
]
  where
    prepend :
        (o : List ℕ) (m : Run (List ℕ)) → Ends AnyOut m → Ends AnyOut (m >>= (λ o'. done (o ++ o')))
    prepend o m q = Ends-bind AnyOut AnyOut m _ q (λ o' u. tt)

    inner :
        (fmt' : Bytes) (args : Args)
        → ((((w : ℕ) × (fmt' ≡ literal "error %d") × (args ≡ int w ∷ []) × (w < 2 ^ 32)))
            ⊎ ((p : Bytes) × (fmt' ≡ literal "%s") × (args ≡ str (some p) ∷ [])))
        → Ends AnyOut (vprintfmt fuel fmt' args)
    inner fmt' args (inl (w, e, f, l)) =
        rw (e, f, nine_more-sub fuel (omega arith)) (nested_error (fuel - 9) w l)
    inner fmt' args (inr (p, e, f)) =
        rw (e, f, nine_more-sub fuel (omega arith)) (nested_string (fuel - 9) p)

-- With fuel for each byte of the format's object and nine more, `vprintfmt` does not run out of
-- fuel, whatever the format and the arguments are, if the arguments are patterns of their width.
pub vprintfmt-ne-out_of_fuel :
    (fuel : ℕ) (fmt : Bytes) (ap : Args)
    → length fmt + 9 ≤ fuel
    → AllWords ap
    → vprintfmt fuel fmt ap ≢ out_of_fuel
vprintfmt-ne-out_of_fuel fuel fmt ap h k e = rw e at (vprintfmt-Ends fuel fmt ap h k)
