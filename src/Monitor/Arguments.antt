-- ===== src/Monitor/Arguments.antt =====
-- kern/monitor.c: the pointers that the parser stores point at the words, each terminated.
use jos_smp.Base.{
  ℕ, zero, suc, ◌+◌, ◌-◌, ◌≤◌, ◌<◌, ◌≡◌, refl, true, false, List, [], ◌∷◌, ◌++◌, ◌==◌, ltb, length,
  drop, replicate, append_assoc, length-append, length-replicate, arith, Bool-cases, inl, inr, ap,
  sym, ◌∙◌, subst,
}
use jos_smp.CString.Defs.{Bytes}
use jos_smp.CString.Scan.{IsText}
use jos_smp.Printfmt.Format.{Run, done}
use jos_smp.Monitor.Parse.{gobble, parse, Parsed, behind}
use jos_smp.Monitor.Words.{
  words_from, words_from-nil, Stops, Gobbled, gobble-text, Scanned, scan_word-text,
}

-- From the pointer `a` on, the buffer that starts at `at` holds the word and a terminator.
abbrev pub PointsAt : ℕ → Bytes → ℕ → Bytes → Type 0
PointsAt at buf a w = (at ≤ a) × ((rest : Bytes) × (drop (a - at) buf ≡ w ++ 0 ∷ rest))

abbrev pub Arguments : ℕ → Bytes → List ℕ → List Bytes → Type 0
Arguments at buf [] [] = Unit
Arguments at buf [] (w ∷ ws) = ⊥
Arguments at buf (a ∷ argv) [] = ⊥
Arguments at buf (a ∷ argv) (w ∷ ws) = PointsAt at buf a w × Arguments at buf argv ws

drop-add : (n m : ℕ) (pre s : Bytes) → length pre ≡ n → drop (n + m) (pre ++ s) ≡ drop m s
drop-add n m [] s e = let z : n + m ≡ m = omega arith in rw z
drop-add n m (c ∷ pre) s e =
    let z : n + m ≡ suc (n - 1 + m) = omega arith in rw z (drop-add (n - 1) m pre s (omega arith))

-- Bytes put before the buffer move the pointers into it.
Arguments-behind :
    (at n : ℕ) (pre buf : Bytes) (argv : List ℕ) (ws : List Bytes)
    → length pre ≡ n
    → Arguments (at + n) buf argv ws
    → Arguments at (pre ++ buf) argv ws
Arguments-behind at n pre buf [] [] e h = tt
Arguments-behind at n pre buf [] (w ∷ ws) e h = h
Arguments-behind at n pre buf (a ∷ argv) [] e h = h
Arguments-behind at n pre buf (a ∷ argv) (w ∷ ws) e ((le, (rest, d)), h) =
    let split : a - at ≡ n + (a - (at + n)) = omega arith in
    (
      (omega arith, (rest, rw split (drop-add n (a - (at + n)) pre buf e ∙ d))),
      Arguments-behind at n pre buf argv ws e h,
    )

-- How a parse of the text ends.
abbrev pub ParsesTo : ℕ → ℕ → Bytes → Run Parsed → Type 0
ParsesTo argc at t run =
    (p : Parsed) × (run ≡ done p)
    × (p.too_many ≡ ltb 15 (argc + length (words_from [] t)))
    × (p.too_many ≡ false → Arguments at p.buf p.argv (words_from [] t))
    × (p.too_many ≡ false → Stops t → (rest : Bytes) × (p.buf ≡ 0 ∷ rest))

zero_first : (n : ℕ) (s : Bytes) → (rest : Bytes) × (replicate n 0 ++ 0 ∷ s ≡ 0 ∷ rest)
zero_first zero s = (s, refl)
zero_first (suc n) s = (replicate n 0 ++ 0 ∷ s, refl)

module _ (fuel argc at : ℕ) (t r : Bytes) (small : argc ≤ 15) where
  parse-end :
      (n : ℕ) → Gobbled t r n [] → ParsesTo argc at t (parse (suc fuel) argc at (t ++ 0 ∷ r))
  unfolding parse
  parse-end n (e, is, start, ws, len, same) =
      let none_left = ws ∙ words_from-nil [] in
      rw (e, none_left)
        (
          record { too_many = false; argv = []; buf = replicate n 0 ++ 0 ∷ r },
          refl,
          ground arith,
          λ _. tt,
          λ _ _. zero_first n r,
        )

  parse-full :
      (n c : ℕ) (t' : Bytes)
      → argc ≡ 15
      → Gobbled t r n (c ∷ t')
      → (ws : List Bytes) × (w : Bytes) × (words_from [] (c ∷ t') ≡ w ∷ ws)
      → ParsesTo argc at t (parse (suc fuel) argc at (t ++ 0 ∷ r))
  unfolding parse
  parse-full n c t' full (e, is, start, ws, len, same) (rest, w, split) =
      let nonzero : (c == 0) ≡ false = ground (arith, is.0) in
      let at_max : (argc == 15) ≡ true = ground arith in
      let counted : true ≡ ltb 15 (argc + suc (length rest)) = ground arith in
      rw (e, nonzero, at_max, ws, split)
        (
          record { too_many = true; argv = []; buf = replicate n 0 ++ c ∷ (t' ++ 0 ∷ r) },
          refl,
          counted,
          λ z. cc,
          λ z _. cc,
        )

  parse-more :
      (n c d : ℕ) (t' w t3 : Bytes)
      → argc < 15
      → Gobbled t r n (c ∷ t')
      → Scanned (c ∷ t') r (d ∷ w) t3
      → ParsesTo
          (argc + 1)
          (at + n + length (d ∷ w))
          t3
          (parse fuel (argc + 1) (at + n + length (d ∷ w)) (t3 ++ 0 ∷ r))
      → ParsesTo argc at t (parse (suc fuel) argc at (t ++ 0 ∷ r))
  unfolding parse
  parse-more n c d t' w t3 more (e, is, start, ws, len, same) (e', is', stop, parts, split)
        (p, run, many, args, zero_next) =
      let nonzero : (c == 0) ≡ false = ground (arith, is.0) in
      let room : (argc == 15) ≡ false = ground arith in
      let now : words_from [] t ≡ (d ∷ w) ∷ words_from [] t3 = ws ∙ split [] in
      rw (e, nonzero, room, e', run, now)
        (
          behind (at + n) n (d ∷ w) p,
          refl,
          many ∙ ap (λ k. ltb 15 k) (omega arith),
          λ few. (
            head few (zero_next few stop),
            subst (λ b. Arguments at b p.argv (words_from [] t3))
                (append_assoc (replicate n 0) (d ∷ w) p.buf)
                (Arguments-behind at (n + length (d ∷ w)) (replicate n 0 ++ d ∷ w) p.buf p.argv
                  (words_from [] t3)
                  (length-append (replicate n 0) (d ∷ w)
                    ∙ omega (arith, length-replicate {A = ℕ} n 0))
                  (subst (λ k. Arguments k p.buf p.argv (words_from [] t3)) (omega arith)
                    (args few))),
          ),
          λ few begins. stopped n t e same begins,
        )
    where
      head :
          p.too_many ≡ false
          → (rest : Bytes) × (p.buf ≡ 0 ∷ rest)
          → PointsAt at (replicate n 0 ++ (d ∷ w ++ p.buf)) (at + n) (d ∷ w)
      head few (rest, z) =
          let split : at + n - at ≡ n + 0 = omega arith in
          (
            omega arith,
            (
              rest,
              rw split (
                  drop-add n 0 (replicate n 0) (d ∷ w ++ p.buf) (length-replicate {A = ℕ} n 0)
                  ∙ ap (λ b. d ∷ w ++ b) z),
            ),
          )

      stopped :
          (n : ℕ) (t : Bytes)
          → gobble (t ++ 0 ∷ r) ≡ done (n, c ∷ (t' ++ 0 ∷ r))
          → (n ≡ 0 → t ≡ c ∷ t')
          → Stops t
          → (rest : Bytes) × (replicate n 0 ++ (d ∷ w ++ p.buf) ≡ 0 ∷ rest)
      stopped zero t e same begins =
          let stop : Stops (c ∷ t') = subst Stops (same refl) begins in
          absurd (ground (arith, stop, start))
      stopped (suc n) t e same begins = (replicate n 0 ++ (d ∷ w ++ p.buf), refl)

  -- The case of a word, by what is behind it.
  parse-word :
      (n c : ℕ) (t' : Bytes)
      → Gobbled t r n (c ∷ t')
      → ((at' : ℕ) (t3 : Bytes)
          → IsText t3
          → length t3 < length t
          → argc + 1 ≤ 15
          → ParsesTo (argc + 1) at' t3 (parse fuel (argc + 1) at' (t3 ++ 0 ∷ r)))
      → (w : Bytes) × (t3 : Bytes) × Scanned (c ∷ t') r w t3
      → ParsesTo argc at t (parse (suc fuel) argc at (t ++ 0 ∷ r))
  parse-word n c t' gobbled more ([], t3, (e, is, stop, parts, split)) =
      let stop' : Stops (c ∷ t') = subst Stops (sym parts) stop in
      absurd (ground (arith, stop', gobbled.2))
  parse-word n c t' gobbled more (d ∷ w, t3, scanned) =
      let len = ap (λ (s : Bytes). length s) scanned.3 in
      elim (Bool-cases (argc == 15)) [
        | inl y ↦ parse-full n c t' (ground arith) gobbled (words_from [] t3, d ∷ w, scanned.4 [])
        | inr m ↦
            let room : argc < 15 = ground arith in
            parse-more n c d t' w t3 room gobbled scanned (
              more (at + n + length (d ∷ w)) t3 scanned.1
                (omega (arith, gobbled.4, length-append (d ∷ w) t3)) (omega arith))
      ]

pub parse-ParsesTo :
    (fuel argc at : ℕ) (t r : Bytes)
    → IsText t
    → length t < fuel
    → argc ≤ 15
    → ParsesTo argc at t (parse fuel argc at (t ++ 0 ∷ r))
parse-ParsesTo zero argc at t r is lt small = absurd (omega arith)
parse-ParsesTo (suc fuel) argc at t r is lt small =
    step (λ at' t3 is' lt' small'. parse-ParsesTo fuel (argc + 1) at' t3 r is' (omega arith) small')
      (gobble-text t r is)
  where
    step :
        ((at' : ℕ) (t3 : Bytes)
          → IsText t3
          → length t3 < length t
          → argc + 1 ≤ 15
          → ParsesTo (argc + 1) at' t3 (parse fuel (argc + 1) at' (t3 ++ 0 ∷ r)))
        → (n : ℕ) × (t' : Bytes) × Gobbled t r n t'
        → ParsesTo argc at t (parse (suc fuel) argc at (t ++ 0 ∷ r))
    step more (n, [], gobbled) = parse-end fuel argc at t r small n gobbled
    step more (n, c ∷ t', gobbled) =
        parse-word fuel argc at t r small n c t' gobbled more (scan_word-text (c ∷ t') r gobbled.1)
