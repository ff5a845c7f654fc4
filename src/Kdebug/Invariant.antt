-- ===== src/Kdebug/Invariant.antt =====
-- kern/kdebug.c: what a scan finds, and the rule for the main loop of stab_binsearch.
use jos_smp.Base.{
  ℕ, zero, suc, ◌+◌, ◌-◌, ◌*◌, ◌^◌, ◌<◌, ◌≤◌, ◌≡◌, ◌≢◌, refl, List, [], ◌∷◌, Option, none, some,
  ◌==◌, ltb, arith, length, get_elem?, get_or, if◌then◌else◌, Bool-cases, inl, inr,
}
use jos_smp.Printfmt.Format.{done}
use jos_smp.Kdebug.Search.{Stab, scan_back, Search, true_m, search_step, search_loop}

abbrev no_stab : Stab
no_stab = record { n_strx = 0; n_type = 0; n_other = 0; n_desc = 0; n_value = 0 }

abbrev pub stab_at : List Stab → ℕ → Stab
stab_at stabs i = get_or stabs i no_stab

abbrev pub type_at : List Stab → ℕ → ℕ
type_at stabs i = (stab_at stabs i).n_type

abbrev pub value_at : List Stab → ℕ → ℕ
value_at stabs i = (stab_at stabs i).n_value

pub get_elem?-stab_at :
    (stabs : List Stab) (i : ℕ) → i < length stabs → get_elem? stabs i ≡ some (stab_at stabs i)
get_elem?-stab_at [] i h = elim h [ ]
get_elem?-stab_at (s ∷ stabs) zero h = refl
get_elem?-stab_at (s ∷ stabs) (suc i) h = get_elem?-stab_at stabs i (omega arith)

module _ (stabs : List Stab) (type : ℕ) where
  -- What a scan of the `k` stabs from `l` on reports.
  abbrev pub Scanned : ℕ → ℕ → Option (ℕ × Stab) → Type 0
  Scanned l k none = (i : ℕ) → l ≤ i → i < l + k → type_at stabs i ≢ type
  Scanned l k (some (m, v)) =
      (l ≤ m)
      × (m < l + k)
      × (v ≡ stab_at stabs m)
      × (type_at stabs m ≡ type)
      × ((i : ℕ) → m < i → i < l + k → type_at stabs i ≢ type)

  Scanned-suc :
      (l k : ℕ) (hit : Option (ℕ × Stab))
      → type_at stabs (l + k) ≢ type
      → Scanned l k hit
      → Scanned l (suc k) hit
  Scanned-suc l k none ne h = λ i lo hi. elim (Bool-cases (i == l + k)) [
    | inl y ↦ let e : i ≡ l + k = ground arith in rw e ne
    | inr n ↦ h i lo (ground arith)
  ]
  Scanned-suc l k (some (m, v)) ne (lo, hi, e, t, gap) = (
    lo,
    omega arith,
    e,
    t,
    λ i above below. elim (Bool-cases (i == l + k)) [
      | inl y ↦ let e : i ≡ l + k = ground arith in rw e ne
      | inr n ↦ gap i above (ground arith)
    ],
  )

  pub scan_back-Scanned :
      (l k : ℕ)
      → l + k ≤ length stabs
      → (hit : Option (ℕ × Stab)) × (scan_back stabs type l k ≡ done hit) × Scanned l k hit
  unfolding scan_back
  scan_back-Scanned l zero h = (none, refl, λ i lo hi. absurd (omega arith))
  scan_back-Scanned l (suc k) h =
      let (hit, e, found) = scan_back-Scanned l k (omega arith) in
      rw (get_elem?-stab_at stabs (l + k) (omega arith), scan_back)
        (elim (Bool-cases (type_at stabs (l + k) == type)) [
          | inl y ↦ rw y (
            some (l + k, stab_at stabs (l + k)),
            refl,
            (omega arith, omega arith, refl, ground arith, λ i above below. absurd (omega arith)),
          )
          | inr n ↦ rw n (hit, e, Scanned-suc l k hit (ground arith) found)
        ])

  -- Each round makes this smaller: an exact match at `l` moves neither end, but the address.
  pub measure : Search → ℕ
  measure s = 2 * (s.r - s.l) + (if value_at stabs s.l == s.addr then 1 else 0)

  pub measure-bound : (s : Search) → measure s ≤ 2 * (s.r - s.l) + 1
  unfolding measure
  measure-bound s = ground arith

  pub measure-search_step :
      (s : Search) (hit : Option (ℕ × Stab))
      → s.l < s.r
      → s.addr < 2 ^ 32
      → Scanned s.l (true_m s + 1 - s.l) hit
      → measure (search_step s hit) < measure s
  unfolding measure search_step
  measure-search_step s none h ha found = ground arith
  measure-search_step s (some (m, v)) h ha (lo, hi, e, t, gap) =
      rw e (elim (Bool-cases (s.l == m)) [
        | inl y ↦ let e' : m ≡ s.l = ground arith in rw e' (ground arith)
        | inr n ↦ ground arith
      ])

  -- A property that the rounds keep holds when the loop ends, which it does where the table has all
  -- stabs up to `r` and the fuel exceeds the measure.
  pub search_loop-ends :
      (P : Search → Type 0)
      → ((s : Search) → P s → (s.r ≤ length stabs) × (s.addr < 2 ^ 32))
      → ((s : Search) (hit : Option (ℕ × Stab))
          → P s
          → s.l < s.r
          → Scanned s.l (true_m s + 1 - s.l) hit
          → P (search_step s hit))
      → (fuel : ℕ) (s : Search) → measure s < fuel
      → P s
      → (t : Search) × (search_loop stabs type fuel s ≡ done t) × P t × (t.r ≤ t.l)
  unfolding search_loop
  search_loop-ends P inside keep zero s m p = absurd (omega arith)
  search_loop-ends P inside keep (suc fuel) s m p = elim (Bool-cases (ltb s.l s.r)) [
    | inl y ↦
        let lt : s.l < s.r = ground arith in
        let (small, word) = inside s p in
        let (hit, e, found) = scan_back-Scanned s.l (true_m s + 1 - s.l) (omega arith) in
        let less = measure-search_step s hit lt word found in
        rw (y, e)
          (search_loop-ends P inside keep fuel (search_step s hit) (omega arith)
            (keep s hit p lt found))
    | inr n ↦ rw n (s, refl, p, ground arith)
  ]
