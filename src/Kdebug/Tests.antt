-- ===== src/Kdebug/Tests.antt =====
-- kern/kdebug.c: searches in a small table, and each theorem at an input.
use jos_smp.Base.{ℕ, zero, suc, ◌<◌, ◌≤◌, ◌≡◌, ◌⊎◌, inl, inr, refl, arith, List, [], ◌∷◌, ◌++◌}
use jos_smp.CString.Defs.{Bytes, strfind}
use jos_smp.Printfmt.Format.{done}
use jos_smp.Printfmt.Print.{literal}
use jos_smp.Kdebug.Search.{Stab, Region, stab_binsearch, search_loop, rightmost, scan_back, close}
use jos_smp.Kdebug.Invariant.{type_at, value_at, stab_at}
use jos_smp.Kdebug.Bracket.{IsOrdered, Brackets}
use jos_smp.Kdebug.Ends.{stab_binsearch-ends}
use jos_smp.Kdebug.Found.{stab_binsearch-Brackets}
use jos_smp.Kdebug.Eip.{Eipdebuginfo, found, debuginfo_eip, file_back, count_args, n_so, n_fun}
use jos_smp.Kdebug.Function.{Lies, Reports, debuginfo_eip-Reports}

abbrev stab : ℕ → ℕ → ℕ → Stab
stab strx type value = record {
  n_strx = strx;
  n_type = type;
  n_other = 0;
  n_desc = 0;
  n_value = value;
}

-- Two files with a function each, behind the table's own entry.
abbrev table : List Stab
table =
    stab 0 0 6
    ∷ stab 1 0x64 0xf0100000
    ∷ stab 5 0x24 0xf0100040
    ∷ stab 0 0xa0 8
    ∷ stab 0 0x44 16
    ∷ stab 1 0x64 0xf0100200
    ∷ stab 5 0x24 0xf0100200
    ∷ []

abbrev names : Bytes
names = 0 ∷ literal "a.c" ++ literal "main:F1"

search : Unit {0}
unfolding stab_binsearch search_loop rightmost scan_back close
search = tt

exact :
    stab_binsearch table (record { left = 1; right = 7 }) 0x64 0xf0100200
    ≡ done (record { left = 6; right = 7 })
unfolding search
exact = refl

-- A stab one byte behind the address is taken for the one that contains it.
neighbour :
    stab_binsearch
      (stab 0 0x24 100 ∷ stab 0 0x24 101 ∷ [])
      (record { left = 1; right = 2 })
      0x24
      100
    ≡ done (record { left = 2; right = 2 })
unfolding search
neighbour = refl

-- Before all stabs of the type the region that is left is not empty.
before_all :
    stab_binsearch (stab 0 0x24 100 ∷ stab 0 0x24 200 ∷ []) (record { left = 1; right = 2 }) 0x24 50
    ≡ done (record { left = 0; right = 0 })
unfolding search
before_all = refl

reported :
    debuginfo_eip table names 0xf0100055
    ≡ done (
        found (record {
          eip_file = literal "a.c" ++ literal "main:F1";
          eip_line = 0;
          eip_fn_name = literal "main:F1";
          eip_fn_namelen = 4;
          eip_fn_addr = 0xf0100040;
          eip_fn_narg = 1;
        }))
unfolding debuginfo_eip stab_binsearch search_loop rightmost scan_back close file_back count_args
    strfind
reported = refl

-- The stabs of either type, by their index.
so_at :
    (i : ℕ)
    → i < 7
    → type_at table i ≡ n_so
    → ((i ≡ 1) × (value_at table i ≡ 0xf0100000)) ⊎ ((i ≡ 5) × (value_at table i ≡ 0xf0100200))
so_at zero h e = absurd (omega (arith, e))
so_at (suc zero) h e = inl (refl, refl)
so_at (suc (suc zero)) h e = absurd (omega (arith, e))
so_at (suc (suc (suc zero))) h e = absurd (omega (arith, e))
so_at (suc (suc (suc (suc zero)))) h e = absurd (omega (arith, e))
so_at (suc (suc (suc (suc (suc zero))))) h e = inr (refl, refl)
so_at (suc (suc (suc (suc (suc (suc zero)))))) h e = absurd (omega (arith, e))
so_at (suc (suc (suc (suc (suc (suc (suc i))))))) h e = absurd (omega arith)

fun_at :
    (i : ℕ)
    → i < 7
    → type_at table i ≡ n_fun
    → ((i ≡ 2) × (value_at table i ≡ 0xf0100040)) ⊎ ((i ≡ 6) × (value_at table i ≡ 0xf0100200))
fun_at zero h e = absurd (omega (arith, e))
fun_at (suc zero) h e = absurd (omega (arith, e))
fun_at (suc (suc zero)) h e = inl (refl, refl)
fun_at (suc (suc (suc zero))) h e = absurd (omega (arith, e))
fun_at (suc (suc (suc (suc zero)))) h e = absurd (omega (arith, e))
fun_at (suc (suc (suc (suc (suc zero))))) h e = absurd (omega (arith, e))
fun_at (suc (suc (suc (suc (suc (suc zero)))))) h e = inr (refl, refl)
fun_at (suc (suc (suc (suc (suc (suc (suc i))))))) h e = absurd (omega arith)

files : IsOrdered table n_so 0 7 0xf0100055
files = record {
  inside = omega arith;
  small = omega arith;
  increasing = λ i j m n lt. omega (arith, so_at i m.1 m.2, so_at j n.1 n.2);
  apart = λ i m. omega (arith, so_at i m.1 m.2);
}

functions : (first end : ℕ) → 0 < first → end ≤ 7 → IsOrdered table n_fun first end 0xf0100055
functions first end lo hi = record {
  inside = hi;
  small = omega arith;
  increasing = λ i j m n lt.
      omega (arith, fun_at i (omega (arith, m.1)) m.2, fun_at j (omega (arith, n.1)) n.2);
  apart = λ i m. omega (arith, fun_at i (omega (arith, m.1)) m.2);
}

lies : Lies table 0xf0100055 1 2
lies = record {
  files = files;
  functions = functions;
  file = (omega arith, omega arith, refl);
  at_file = omega arith;
  last_file = λ i m le. omega (arith, so_at i m.1 m.2);
  function = (omega arith, omega arith, refl);
  at_function = omega arith;
  last_function = λ i m le. omega (arith, fun_at i m.1 m.2);
  in_file = λ i m lt. omega (arith, so_at i m.1 m.2);
}

stab_binsearch-Brackets_example :
    (b : Region) × (stab_binsearch table (record { left = 1; right = 7 }) n_so 0xf0100055 ≡ done b)
    × Brackets table n_so 0 7 0xf0100055 b
stab_binsearch-Brackets_example = stab_binsearch-Brackets table n_so 0 7 0xf0100055 files

debuginfo_eip-Reports_example :
    (r : Eipdebuginfo) × (debuginfo_eip table names 0xf0100055 ≡ done (found r))
    × Reports (stab_at table 2) names r
debuginfo_eip-Reports_example =
    debuginfo_eip-Reports table names (omega arith, refl) 0xf0100055 1 2 lies (omega arith)

-- A table whose stabs are not in order.
abbrev unordered : List Stab
unordered = stab 0 0x24 300 ∷ stab 0 0x24 100 ∷ stab 0 0x44 900 ∷ stab 0 0x24 200 ∷ []

stab_binsearch-ends_example :
    (b : Region) × (stab_binsearch unordered (record { left = 1; right = 4 }) 0x24 150 ≡ done b)
    × (b.right ≤ 4)
    × (b.left ≤ 5)
stab_binsearch-ends_example =
    stab_binsearch-ends unordered 0x24 4 (omega arith) 0 150 (omega arith) (omega arith)
