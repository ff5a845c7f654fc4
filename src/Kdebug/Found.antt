-- ===== src/Kdebug/Found.antt =====
-- kern/kdebug.c: stab_binsearch ends and brackets the address.
use jos_smp.Base.{
  ℕ, suc, ◌+◌, ◌-◌, ◌*◌, ◌<◌, ◌≤◌, ◌≡◌, ◌≢◌, refl, List, Option, none, some, arith, length, min,
  Bool-cases, inl, inr, true, false, ltb,
}
use jos_smp.Printfmt.Format.{done, ◌>>=◌}
use jos_smp.Kdebug.Search.{
  Stab, Search, Region, true_m, search_step, search_loop, rightmost, stab_binsearch, scan_back,
  close,
}
use jos_smp.Kdebug.Invariant.{
  type_at, value_at, Scanned, scan_back-Scanned, measure-bound, search_loop-ends,
}
use jos_smp.Kdebug.Bracket
use jos_smp.Kdebug.Bracket.{IsOrdered}

module _ (stabs : List Stab) (type first end : ℕ) where
  abbrev Matches : ℕ → Type 0
  Matches = Bracket.Matches stabs type first end

  module _ (addr : ℕ) (o : IsOrdered stabs type first end addr) where
    abbrev Inv : Search → Type 0
    Inv = Bracket.Inv stabs type first end addr o

    abbrev Brackets : ℕ → Region → Type 0
    Brackets = Bracket.Brackets stabs type first end

    Ended : Search → ℕ → Type 0
    Ended s left = Brackets addr (record { left = left; right = s.right })

    rightmost-none :
        (s : Search)
        → Inv s
        → s.r ≤ s.l
        → s.any_matches ≡ true
        → ((i : ℕ) → s.left ≤ i → i < s.left + (s.right - s.left) → type_at stabs i ≢ type)
        → Ended s (min s.left s.right)
    unfolding Ended
    rightmost-none s v h any gap =
        let same = v.same in
        let inside : (i : ℕ) → Matches i → value_at stabs i ≤ addr → i < s.right = λ i m le.
          elim (Bool-cases (ltb i s.r)) [
            | inl y ↦ ground arith
            | inr n ↦ absurd (omega (arith, v.behind i m (ground arith)))
          ] in
        let below : (i : ℕ) → Matches i → value_at stabs i ≤ addr → i < s.left = λ i m le.
          elim (Bool-cases (ltb i s.left)) [
            | inl y ↦ ground arith
            | inr n ↦ let lt = inside i m le in absurd (gap i (ground arith) (ground arith) m.2)
          ] in
        record {
          before = λ i m lt. v.before i m (omega arith);
          behind = λ i m le. v.behind i m (omega arith);
          contains = λ i m le.
              let lt = inside i m le in
              let lt' = below i m le in
              elim v.left [
                | inl e ↦
                    let e' : i ≡ first = omega (arith, m.0) in
                    (i, omega arith, m, omega arith, lt, le)
                | inr (k, e, mk, lek) ↦
                    let ltk = inside k mk lek in (k, omega arith, mk, omega arith, ltk, lek)
              ];
          next = λ i m. rw same v.tight;
          no_match = λ none_at. let (k, mk) = v.heard any in absurd (none_at k mk);
        }

    rightmost-some :
        (s : Search) (m : ℕ)
        → Inv s
        → s.r ≤ s.l
        → s.any_matches ≡ true
        → s.left ≤ m
        → m < s.left + (s.right - s.left)
        → type_at stabs m ≡ type
        → ((i : ℕ) → m < i → i < s.left + (s.right - s.left) → type_at stabs i ≢ type)
        → Ended s (m + 1)
    unfolding Ended
    rightmost-some s m v h any lo hi t gap =
        let same = v.same in
        let above : suc first ≤ s.left = elim v.left [
          | inl e ↦ omega arith
          | inr (k, e, mk, lek) ↦ omega (arith, mk.0)
        ] in
        let mm : Matches m = (omega arith, omega (arith, v.hi), t) in
        let le = v.before m mm (omega arith) in
        record {
          before = λ i mi lt. v.before i mi (omega arith);
          behind = λ i mi ge. v.behind i mi (omega arith);
          contains = λ i mi lei. (
            m,
            omega arith,
            mm,
            elim (Bool-cases (ltb m i)) [
              | inr n ↦ ground arith
              | inl y ↦ elim (Bool-cases (ltb i s.r)) [
                | inl in_range ↦ absurd (gap i (ground arith) (ground arith) mi.2)
                | inr out ↦ absurd (omega (arith, v.behind i mi (ground arith)))
              ]
            ],
            omega arith,
            le,
          );
          next = λ i m. rw same v.tight;
          no_match = λ none_at. absurd (none_at m mm);
        }

    rightmost-Ended :
        (s : Search)
        → Inv s
        → s.r ≤ s.l
        → s.any_matches ≡ true
        → (left : ℕ) × (rightmost stabs type s.left s.right ≡ done left) × Ended s left
    unfolding rightmost
    rightmost-Ended s v h any =
        let (k, mk) = v.heard any in
        let inside = o.inside in
        let same = v.same in
        let hi = v.hi in
        let small : s.left + (s.right - s.left) ≤ length stabs = elim v.left [
          | inl e ↦ omega (arith, mk.0, mk.1)
          | inr (j, e, mj, lej) ↦ omega (arith, mj.1)
        ] in
        finish (scan_back-Scanned stabs type s.left (s.right - s.left) small)
      where
        finish :
            (hit : Option (ℕ × Stab)) × (scan_back stabs type s.left (s.right - s.left) ≡ done hit)
              × Scanned stabs type s.left (s.right - s.left) hit
            → (left : ℕ) × (rightmost stabs type s.left s.right ≡ done left) × Ended s left
        finish (none, e, gap) = rw e (min s.left s.right, refl, rightmost-none s v h any gap)
        finish (some (m, w), e, (lo, hi, e', t, gap)) =
            rw e (m + 1, refl, rightmost-some s m v h any lo hi t gap)

    finish-Brackets :
        (s : Search)
        → Inv s
        → s.r ≤ s.l
        → s.any_matches ≡ false
        → Brackets addr (record { left = s.left; right = s.left - 1 })
    finish-Brackets s v h any =
        let (e, el, later) = v.quiet any in
        let empty : (i : ℕ) → Matches i → ⊥ = λ i m. omega (arith, later i m, m.1) in
        record {
          before = λ i m lt. absurd (empty i m);
          behind = λ i m le. absurd (empty i m);
          contains = λ i m le. absurd (empty i m);
          next = λ i m. absurd (empty i m);
          no_match = λ none_at. (omega arith, omega arith);
        }

    Inv-start : Inv (record {
      l = first;
      r = end;
      addr = addr;
      any_matches = false;
      left = suc first;
      right = end;
    })
    Inv-start = record {
      lo = omega arith;
      hi = omega arith;
      key = omega arith;
      same = refl;
      before = λ i m lt. absurd (omega (arith, m.0));
      behind = λ i m le. absurd (omega (arith, m.1));
      left = inl refl;
      tight = inl refl;
      quiet = λ q. (refl, refl, λ i m. m.0);
      heard = λ q. cc;
    }

    Inv-search_step :
        (s : Search) (hit : Option (ℕ × Stab))
        → Inv s
        → s.l < s.r
        → Scanned stabs type s.l (true_m s + 1 - s.l) hit
        → Inv (search_step s hit)
    Inv-search_step s none v h found = Bracket.Inv-none stabs type first end addr o s v h found
    Inv-search_step s (some (m, w)) v h found =
        Bracket.Inv-some stabs type first end addr o s m w v h found

    conclude :
        (start : Search)
        → (s : Search) × (search_loop stabs type (2 * (end - first) + 2) start ≡ done s)
          × Inv s
          × (s.r ≤ s.l)
        → (b : Region) × ((search_loop stabs type (2 * (end - first) + 2) start
              >>= close stabs type)
            ≡ done b)
          × Brackets addr b
    unfolding Ended close
    conclude start (s, e, v, h) = rw e (elim (Bool-cases s.any_matches) [
      | inl y ↦ rw y (bracketed (rightmost-Ended s v h y))
      | inr n ↦ rw n (record { left = s.left; right = s.left - 1 }, refl, finish-Brackets s v h n)
    ])
      where
        bracketed :
            (left : ℕ) × (rightmost stabs type s.left s.right ≡ done left) × Ended s left
            → (b : Region) × ((rightmost stabs type s.left s.right
                  >>= (λ left. done (record { left = left; right = s.right })))
                ≡ done b)
              × Brackets addr b
        bracketed (left, e', b) = rw e' (record { left = left; right = s.right }, refl, b)

    -- From index `first` to below `end`, where the stabs of the type are in increasing order and none
    -- lies exactly one byte behind `addr`, stab_binsearch ends, reads only inside of the table, and
    -- brackets the address: the stabs of the type before the returned right end lie at or before
    -- `addr` and the others behind it, and it is at one of these or at `end`; if some lie at or before `addr`, the returned left end is the
    -- last of these; and if there is no stab of the type the returned region is empty.
    pub stab_binsearch-Brackets :
        (b : Region) × (stab_binsearch stabs (record { left = suc first; right = end }) type addr
          ≡ done b)
        × Brackets addr b
    unfolding stab_binsearch
    stab_binsearch-Brackets =
        let start : Search = record {
          l = first;
          r = end;
          addr = addr;
          any_matches = false;
          left = suc first;
          right = end;
        } in
        let origin : suc first - 1 ≡ first = omega arith in
        rw origin (
          conclude start (
            search_loop-ends stabs type Inv
              (λ s v.
                let inside = o.inside in
                let small = o.small in let key = v.key in (omega (arith, v.hi), omega arith))
              Inv-search_step (2 * (end - first) + 2) start
              (omega (arith, measure-bound stabs type start)) Inv-start))
