-- ===== src/Kdebug/Ends.antt =====
-- kern/kdebug.c: stab_binsearch ends on every table.
use jos_smp.Base.{
  ℕ, suc, ◌+◌, ◌-◌, ◌*◌, ◌^◌, ◌<◌, ◌≤◌, ◌≡◌, refl, List, Option, none, some, arith, length,
  Bool-cases, inl, inr, false, ltb, min,
}
use jos_smp.Kdebug.Search.{
  Stab, Search, Region, true_m, search_step, rightmost, close, stab_binsearch, scan_back,
}
use jos_smp.Kdebug.Invariant.{Scanned, scan_back-Scanned, search_loop-ends, measure-bound}
use jos_smp.Printfmt.Format.{done}

module _ (stabs : List Stab) (type end : ℕ) (inside : end ≤ length stabs) where
  -- The indexes stay in the table.
  abbrev Within : Search → Type 0
  Within s = (s.r ≤ end) × (s.addr < 2 ^ 32) × (s.right ≤ end) × (s.left ≤ suc end)

  Within-search_step :
      (s : Search) (hit : Option (ℕ × Stab))
      → Within s
      → s.l < s.r
      → Scanned stabs type s.l (true_m s + 1 - s.l) hit
      → Within (search_step s hit)
  unfolding search_step
  Within-search_step s none w h found = ground arith
  Within-search_step s (some (m, v)) w h found = ground arith

  scan_back-none : (l : ℕ) → scan_back stabs type l 0 ≡ done none
  unfolding scan_back
  scan_back-none l = refl

  rightmost_hit :
      (left right : ℕ) (hit : Option (ℕ × Stab))
      → left ≤ right
      → scan_back stabs type left (right - left) ≡ done hit
      → Scanned stabs type left (right - left) hit
      → (n : ℕ) × (rightmost stabs type left right ≡ done n) × (n ≤ suc right)
  unfolding rightmost
  rightmost_hit left right none le e found = (min left right, rw e refl, omega arith)
  rightmost_hit left right (some (m, v)) le e found = (m + 1, rw e refl, ground arith)

  rightmost-ends :
      (left right : ℕ)
      → right ≤ end
      → (n : ℕ) × (rightmost stabs type left right ≡ done n) × (n ≤ suc right)
  unfolding rightmost
  rightmost-ends left right h = elim (Bool-cases (ltb right left)) [
    | inl y ↦
        let none_left : right - left ≡ 0 = ground arith in
        (min left right, rw (none_left, scan_back-none left) refl, omega arith)
    | inr n ↦
        let le : left ≤ right = ground arith in
        let (hit, e, found) = scan_back-Scanned stabs type left (right - left) (omega arith) in
        rightmost_hit left right hit le e found
  ]

  -- What follows the main loop ends too.
  close-ends :
      (s : Search)
      → Within s
      → (b : Region) × (close stabs type s ≡ done b) × (b.right ≤ end) × (b.left ≤ suc end)
  unfolding close
  close-ends s w = elim (Bool-cases s.any_matches) [
    | inl y ↦
        let (n, e, le) = rightmost-ends s.left s.right w.2 in
        (record { left = n; right = s.right }, rw (y, e) refl, w.2, omega arith)
    | inr n ↦ (record { left = s.left; right = s.left - 1 }, rw n refl, omega arith, w.3)
  ]

  -- On every table, whatever the order of its stabs, for every type and 32-bit address and every
  -- region inside of the table, stab_binsearch ends, reads only inside of the table, and returns a
  -- region. In the numbers of the code, its right end is from -1 to `end` - 1, and its left end from -1
  -- to `end`; neither need be a stab of the table, and -1 is the code's own result before all matches.
  pub stab_binsearch-ends :
      (first addr : ℕ)
      → first ≤ end
      → addr < 2 ^ 32
      → (b : Region) × (stab_binsearch stabs (record { left = suc first; right = end }) type addr
          ≡ done b)
        × (b.right ≤ end)
        × (b.left ≤ suc end)
  unfolding stab_binsearch
  stab_binsearch-ends first addr h k =
      let start : Search = record {
        l = first;
        r = end;
        addr = addr;
        any_matches = false;
        left = suc first;
        right = end;
      } in
      let origin : suc first - 1 ≡ first = omega arith in
      let (t, e, w, over) =
        search_loop-ends stabs type Within (λ s w. (omega (arith, inside), w.1)) Within-search_step
          (2 * (end - first) + 2) start (omega (arith, measure-bound stabs type start))
          (omega arith, k, omega arith, omega arith) in
      rw (origin, e) (close-ends t w)
