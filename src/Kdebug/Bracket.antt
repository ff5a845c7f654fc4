-- ===== src/Kdebug/Bracket.antt =====
-- kern/kdebug.c: what stab_binsearch finds.
use jos_smp.Base.{
  ℕ, suc, ◌+◌, ◌-◌, ◌^◌, ◌<◌, ◌≤◌, ◌≡◌, ◌≢◌, ◌⊎◌, refl, List, none, some, arith, length, Bool-cases,
  inl, inr, true, false, ltb, ◌==◌,
}
use jos_smp.Kdebug.Search.{Stab, Search, Region, true_m, search_step}
use jos_smp.Kdebug.Invariant.{type_at, value_at, Scanned}

module _ (stabs : List Stab) (type first end : ℕ) where
  -- A stab of the type, with its index from `first` on and below `end`.
  abbrev pub Matches : ℕ → Type 0
  Matches i = (first ≤ i) × (i < end) × (type_at stabs i ≡ type)

  -- The stabs of the type are in increasing order of address, and none lies just behind `addr`.
  pub record IsOrdered (addr : ℕ) : Type 0 where
    pub inside : end ≤ length stabs
    pub small : addr + 1 < 2 ^ 32
    pub increasing : (i j : ℕ) → Matches i → Matches j → i < j → value_at stabs i ≤ value_at stabs j
    pub apart : (i : ℕ) → Matches i → value_at stabs i ≢ addr + 1

  -- The region bounds: `right` parts the stabs up to `addr` from those behind it, `left` is the last
  -- of the former, if there is one. `right` is at a stab of the type or at the end.
  pub record Brackets (addr : ℕ) (b : Region) : Type 0 where
    pub before : (i : ℕ) → Matches i → i < b.right → value_at stabs i ≤ addr
    pub behind : (i : ℕ) → Matches i → b.right ≤ i → addr < value_at stabs i
    pub contains :
        (i : ℕ)
        → Matches i
        → value_at stabs i ≤ addr
        → (k : ℕ) × (b.left ≡ suc k)
          × Matches k
          × (i ≤ k)
          × (k < b.right)
          × (value_at stabs k ≤ addr)
    pub next : (i : ℕ) → Matches i → (b.right ≡ end) ⊎ Matches b.right
    pub no_match : ((i : ℕ) → ¬ Matches i) → (b.left ≡ first + 1) × (b.right ≡ first)

  module _ (addr : ℕ) (o : IsOrdered addr) where
    pub record Inv (s : Search) : Type 0 where
      pub lo : first ≤ s.l
      pub hi : s.r ≤ end
      pub key : (addr ≤ s.addr) × (s.addr ≤ addr + 1)
      pub same : s.right ≡ s.r
      pub before : (i : ℕ) → Matches i → i < s.l → value_at stabs i ≤ addr
      pub behind : (i : ℕ) → Matches i → s.r ≤ i → addr < value_at stabs i
      pub left :
          (s.left ≡ suc first)
          ⊎ ((k : ℕ) × (s.left ≡ suc k) × Matches k × (value_at stabs k ≤ addr))
      pub tight : (s.r ≡ end) ⊎ Matches s.r
      pub quiet :
          s.any_matches ≡ false
          → (s.r ≡ end) × (s.left ≡ suc first) × ((i : ℕ) → Matches i → s.l ≤ i)
      pub heard : s.any_matches ≡ true → (k : ℕ) × Matches k

    pub Inv-none :
        (s : Search)
        → Inv s
        → s.l < s.r
        → Scanned stabs type s.l (true_m s + 1 - s.l) none
        → Inv (search_step s none)
    unfolding search_step
    Inv-none s v h gap = record {
      lo = omega (arith, v.lo);
      hi = v.hi;
      key = v.key;
      same = v.same;
      before = λ i m lt. v.before i m (not_in i m lt);
      behind = v.behind;
      left = v.left;
      tight = v.tight;
      quiet = λ q. (
        (v.quiet q).0,
        (v.quiet q).1,
        λ i m. elim (Bool-cases (ltb i (true_m s + 1))) [
          | inl y ↦ absurd (gap i ((v.quiet q).2 i m) (ground arith) m.2)
          | inr n ↦ ground arith
        ],
      );
      heard = v.heard;
    }
      where
        not_in : (i : ℕ) → Matches i → i < true_m s + 1 → i < s.l
        not_in i m lt = elim (Bool-cases (ltb i s.l)) [
          | inl y ↦ ground arith
          | inr n ↦ absurd (gap i (ground arith) (ground arith) m.2)
        ]

    upto :
        (m top : ℕ)
        → Matches m
        → value_at stabs m ≤ addr
        → ((i : ℕ) → m < i → i < top → type_at stabs i ≢ type)
        → (i : ℕ) → Matches i
        → i < top
        → value_at stabs i ≤ addr
    upto m top mm h gap i mi lt = elim (Bool-cases (ltb i m)) [
      | inl y ↦ omega (arith, o.increasing i m mi mm (ground arith))
      | inr n ↦ elim (Bool-cases (i == m)) [
        | inl same ↦ let e : i ≡ m = ground arith in rw e h
        | inr other ↦ absurd (gap i (ground arith) lt mi.2)
      ]
    ]

    from :
        (m : ℕ)
        → Matches m
        → addr < value_at stabs m
        → (i : ℕ) → Matches i
        → m ≤ i
        → addr < value_at stabs i
    from m mm h i mi le = elim (Bool-cases (i == m)) [
      | inl same ↦ let e : i ≡ m = ground arith in rw e h
      | inr other ↦ omega (arith, o.increasing m i mm mi (ground arith))
    ]

    pub Inv-some :
        (s : Search) (m : ℕ) (v : Stab)
        → Inv s
        → s.l < s.r
        → Scanned stabs type s.l (true_m s + 1 - s.l) (some (m, v))
        → Inv (search_step s (some (m, v)))
    unfolding search_step
    Inv-some s m v inv h (lo, hi, e, t, gap) =
        let mm : Matches m = (omega (arith, inv.lo), omega (arith, inv.hi), t) in
        let gap' : (i : ℕ) → m < i → i < true_m s + 1 → type_at stabs i ≢ type =
          λ i a b. gap i a (omega arith) in
        let apart = o.apart m mm in
        let key = inv.key in
        rw e (elim (Bool-cases (ltb (value_at stabs m) s.addr)) [
          | inl y ↦
              let le : value_at stabs m ≤ addr = ground arith in
              rw y (record {
                lo = omega (arith, inv.lo);
                hi = inv.hi;
                key = key;
                same = inv.same;
                before = upto m (true_m s + 1) mm le gap';
                behind = inv.behind;
                left = inr (m, omega arith, mm, le);
                tight = inv.tight;
                quiet = λ q. cc;
                heard = λ q. (m, mm);
              })
          | inr n ↦ rw n (elim (Bool-cases (ltb s.addr (value_at stabs m))) [
            | inl y ↦
                let lt : addr < value_at stabs m = ground arith in
                rw y (record {
                  lo = inv.lo;
                  hi = omega (arith, inv.hi);
                  key = key;
                  same = refl;
                  before = inv.before;
                  behind = from m mm lt;
                  left = inv.left;
                  tight = inr mm;
                  quiet = λ q. cc;
                  heard = λ q. (m, mm);
                })
            | inr n' ↦
                let le : value_at stabs m ≤ addr = ground arith in
                let same : s.addr ≡ addr = ground arith in
                let small = o.small in
                rw n' (record {
                  lo = omega (arith, inv.lo);
                  hi = inv.hi;
                  key = omega arith;
                  same = inv.same;
                  before = λ i mi lt. upto m (true_m s + 1) mm le gap' i mi (omega arith);
                  behind = inv.behind;
                  left = inr (m, omega arith, mm, le);
                  tight = inv.tight;
                  quiet = λ q. cc;
                  heard = λ q. (m, mm);
                })
          ])
        ])
