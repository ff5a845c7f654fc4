-- ===== src/Kdebug/Search.antt =====
-- kern/kdebug.c: stab_binsearch, and inc/stab.h. The table is a list; a read outside of it is a fault.
-- The indexes `*region_left`, `*region_right` and `r` may be -1: `left`, `right` and `r` here are one
-- higher than the code's. Tables have less than 2^30 entries, so `l + r` does not overflow.
use jos_smp.Base.{
  ℕ, zero, suc, ◌+◌, ◌-◌, ◌*◌, ◌/◌, ◌%◌, ◌^◌, Bool, true, false, List, Option, none, some, ◌==◌,
  ltb, min, get_elem?, if◌then◌else◌,
}
use jos_smp.Printfmt.Format.{Run, done, fault, out_of_fuel, ◌>>=◌}

pub record Stab : Type 0 where
  pub n_strx : ℕ
  pub n_type : ℕ
  pub n_other : ℕ
  pub n_desc : ℕ
  pub n_value : ℕ

-- `while (m >= l && stabs[m].n_type != type) m--;` from `m = l + k - 1`, on the rounds left: the stab
-- where it stops with its index, or `none` if that is below `l`.
unfoldable pub scan_back : List Stab → ℕ → ℕ → ℕ → Run (Option (ℕ × Stab))
scan_back stabs type l zero = done none
scan_back stabs type l (suc k) =
    let rest = scan_back stabs type l k in
    elim (get_elem? stabs (l + k)) [
      | none ↦ fault
      | some s ↦ if s.n_type == type then done (some (l + k, s)) else rest
    ]

-- The variables of the main loop.
pub record Search : Type 0 where
  pub l : ℕ
  pub r : ℕ
  pub addr : ℕ
  pub any_matches : Bool
  pub left : ℕ
  pub right : ℕ

-- `(l + r) / 2`, where `l <= r`
abbrev pub true_m : Search → ℕ
true_m s = (s.l + s.r - 1) / 2

-- The rest of the body, once the scan has found the stab `(m, v)` or none.
unfoldable pub search_step : Search → Option (ℕ × Stab) → Search
search_step s none = record s { l = true_m s + 1 }
search_step s (some (m, v)) =
    if ltb v.n_value s.addr
    then record s { any_matches = true; left = m + 1; l = true_m s + 1 }
    else if ltb s.addr v.n_value
    then record s { any_matches = true; right = m; r = m }
    else record s { any_matches = true; left = m + 1; l = m; addr = (s.addr + 1) % 2 ^ 32 }

-- `while (l <= r)` on fuel.
unfoldable pub search_loop : List Stab → ℕ → ℕ → Search → Run Search
unfolding search_step
search_loop stabs type zero s = out_of_fuel
search_loop stabs type (suc fuel) s =
    let again =
      scan_back stabs type s.l (true_m s + 1 - s.l)
      >>= (λ hit. search_loop stabs type fuel (search_step s hit)) in
    if ltb s.l s.r then again else done s

-- `*region_left` and `*region_right`, each one higher.
pub record Region : Type 0 where
  pub left : ℕ
  pub right : ℕ

-- The last `for`: the index where it stops, one higher.
unfoldable pub rightmost : List Stab → ℕ → ℕ → ℕ → Run ℕ
rightmost stabs type left right =
    scan_back stabs type left (right - left)
    >>= (λ hit. done (elim hit [ none ↦ min left right | some (m, v) ↦ m + 1 ]))

-- What follows the main loop.
unfoldable pub close : List Stab → ℕ → Search → Run Region
close stabs type s =
    if s.any_matches
    then rightmost stabs type s.left s.right
      >>= (λ left. done (record { left = left; right = s.right }))
    else done (record { left = s.left; right = s.left - 1 })

-- The search; at least every second round shortens `[l, r]`.
unfoldable pub stab_binsearch : List Stab → Region → ℕ → ℕ → Run Region
stab_binsearch stabs region type addr =
    let l = region.left - 1 in
    search_loop stabs type (2 * (region.right - l) + 2) (record {
      l = l;
      r = region.right;
      addr = addr;
      any_matches = false;
      left = region.left;
      right = region.right;
    })
    >>= close stabs type
