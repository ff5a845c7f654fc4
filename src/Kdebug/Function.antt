-- ===== src/Kdebug/Function.antt =====
-- kern/kdebug.c: debuginfo_eip finds the function of an address.
use jos_smp.Base.{
  ℕ, suc, ◌-◌, ◌<◌, ◌≤◌, ◌≡◌, refl, Bool-cases, inl, inr, List, Option, none, some, ◌==◌, ltb, leb,
  length, arith, true, if◌then◌else◌, false, get_or,
}
use jos_smp.CString.Defs.{Bytes, strfind}
use jos_smp.Printfmt.Format.{Run, done, ◌>>=◌}
use jos_smp.Printfmt.Print.{literal}
use jos_smp.Mmu.Layout.{ulim}
use jos_smp.Kdebug.Search.{Stab, Region, stab_binsearch}
use jos_smp.Kdebug.Invariant.{stab_at, value_at}
use jos_smp.Kdebug.Bracket.{Matches, IsOrdered, Brackets}
use jos_smp.Kdebug.Found.{stab_binsearch-Brackets}
use jos_smp.Kdebug.Eip.{
  Eipdebuginfo, Outcome, found, initial, n_so, n_fun, name_at, file_back, count_args, eip_function,
  eip_search, debuginfo_eip,
}
use jos_smp.Kdebug.Totality.{
  IsClosed, strfind-name_at, stab_of-stab_at, file_back-ends, count_args-ends,
}

-- The stabs of files and, in each file, of functions are in increasing order, and none lies one
-- byte behind `addr`. `f` is the last stab of a file at or before `addr`, and not the table's first
-- stab; `g` the last stab of a function behind it and at or before `addr`, before any later file's.
pub record Lies (stabs : List Stab) (addr f g : ℕ) : Type 0 where
  pub files : IsOrdered stabs n_so 0 (length stabs) addr
  pub functions :
      (first end : ℕ) → 0 < first → end ≤ length stabs → IsOrdered stabs n_fun first end addr
  pub file : Matches stabs n_so 1 (length stabs) f
  pub at_file : value_at stabs f ≤ addr
  pub last_file : (i : ℕ) → Matches stabs n_so 0 (length stabs) i → value_at stabs i ≤ addr → i ≤ f
  pub function : Matches stabs n_fun f (length stabs) g
  pub at_function : value_at stabs g ≤ addr
  pub last_function :
      (i : ℕ) → Matches stabs n_fun f (length stabs) i → value_at stabs i ≤ addr → i ≤ g
  pub in_file : (i : ℕ) → Matches stabs n_so 0 (length stabs) i → addr < value_at stabs i → g < i

-- The call ends with 0, and reports the address of the function's stab, its name, and line 0.
abbrev pub Reports : Stab → Bytes → Eipdebuginfo → Type 0
Reports s stabstr info =
    (info.eip_fn_addr ≡ s.n_value)
    × (info.eip_fn_name ≡ name_at stabstr s.n_strx (literal "<unknown>"))
    × (strfind info.eip_fn_name b':' ≡ some info.eip_fn_namelen)
    × (info.eip_line ≡ 0)

module _ (stabs : List Stab) (stabstr : Bytes) (closed : IsClosed stabstr) where
  args-ends :
      (left right : ℕ)
      → right ≤ length stabs
      → (n : ℕ) × ((if ltb left right then count_args stabs left (right - 1 - left) else done 0)
          ≡ done n)
  args-ends left right h = elim (Bool-cases (ltb left right)) [
    | inl y ↦ rw y (count_args-ends stabs left (right - 1 - left) (ground arith))
    | inr n ↦ rw n (0, refl)
  ]

  abbrev name_of : ℕ → Bytes
  name_of g = name_at stabstr (stab_at stabs g).n_strx (literal "<unknown>")

  eip_function-found :
      (file : Region) (addr g right : ℕ)
      → g < right
      → right ≤ length stabs
      → (n : ℕ) × (strfind (name_of g) b':' ≡ some n)
      → (hit : Option Stab) × (file_back stabs (file.left - 1) (suc g - (file.left - 1)) ≡ done hit)
      → (narg : ℕ) × ((if ltb (suc g) right
            then count_args stabs (suc g) (right - 1 - suc g)
            else done 0)
          ≡ done narg)
      → (r : Eipdebuginfo) × (eip_function stabs stabstr file
            (record { left = suc g; right = right })
            (initial addr)
          ≡ done (found r))
        × Reports (stab_at stabs g) stabstr r
  unfolding eip_function
  eip_function-found file addr g right h small (n, named) (hit, back) (narg, args) =
      let inside : leb (suc g) right ≡ true = ground arith in
      let origin : suc g - 1 ≡ g = omega arith in
      rw (inside, origin, stab_of-stab_at stabs g (omega arith), named, back, args)
        (
          record {
            eip_file = elim hit [
              | none ↦ literal "<unknown>"
              | some s ↦ name_at stabstr s.n_strx (literal "<unknown>")
            ];
            eip_line = 0;
            eip_fn_name = name_of g;
            eip_fn_namelen = n;
            eip_fn_addr = value_at stabs g;
            eip_fn_narg = narg;
          },
          refl,
          (refl, refl, named, refl),
        )

  module _ (addr f g : ℕ) (l : Lies stabs addr f g) where
    -- The first search leaves the region of the file.
    IsFile : Region → Type 0
    IsFile b = (b.left ≡ suc f) × (g < b.right) × (b.right ≤ length stabs)

    Brackets-IsFile : (b : Region) → Brackets stabs n_so 0 (length stabs) addr b → IsFile b
    unfolding IsFile
    Brackets-IsFile b v =
        let file = l.file in
        let m : Matches stabs n_so 0 (length stabs) f = (omega arith, file.1, file.2) in
        at_f m (v.contains f m l.at_file)
      where
        at_f :
            Matches stabs n_so 0 (length stabs) f
            → (k : ℕ) × (b.left ≡ suc k)
              × Matches stabs n_so 0 (length stabs) k
              × (f ≤ k)
              × (k < b.right)
              × (value_at stabs k ≤ addr)
            → (b.left ≡ suc f) × (g < b.right) × (b.right ≤ length stabs)
        at_f m (k, e, mk, le, lt, small) =
            let back = l.last_file k mk small in
            let g_in = l.function in
            elim (v.next f m) [
              | inl end ↦ (omega arith, omega (arith, g_in.1), omega arith)
              | inr next ↦
                  let behind = v.behind b.right next (omega arith) in
                  (omega arith, l.in_file b.right next behind, omega (arith, next.1))
            ]

    -- The second search leaves the function.
    IsFunction : ℕ → Region → Type 0
    IsFunction end b = (b.left ≡ suc g) × (g < b.right) × (b.right ≤ end)

    Brackets-IsFunction :
        (end : ℕ) (b : Region)
        → g < end
        → end ≤ length stabs
        → Brackets stabs n_fun f end addr b
        → IsFunction end b
    unfolding IsFunction
    Brackets-IsFunction end b lt small v =
        let function = l.function in
        let m : Matches stabs n_fun f end g = (function.0, lt, function.2) in
        at_g m (v.contains g m l.at_function)
      where
        at_g :
            Matches stabs n_fun f end g
            → (k : ℕ) × (b.left ≡ suc k)
              × Matches stabs n_fun f end k
              × (g ≤ k)
              × (k < b.right)
              × (value_at stabs k ≤ addr)
            → (b.left ≡ suc g) × (g < b.right) × (b.right ≤ end)
        at_g m (k, e, mk, le, lt', small') =
            let back = l.last_function k (mk.0, omega (arith, mk.1), mk.2) small' in
            elim (v.next g m) [
              | inl at_end ↦ (omega arith, omega arith, omega arith)
              | inr next ↦ (omega arith, omega arith, omega (arith, next.1))
            ]

    Found : Run Outcome → Type 0
    Found run = (r : Eipdebuginfo) × (run ≡ done (found r)) × Reports (stab_at stabs g) stabstr r

    second_search :
        (right : ℕ)
        → g < right
        → right ≤ length stabs
        → (fun : Region) × (stab_binsearch stabs (record { left = suc f; right = right }) n_fun addr
            ≡ done fun)
          × Brackets stabs n_fun f right addr fun
        → Found (
            stab_binsearch stabs (record { left = suc f; right = right }) n_fun addr >>= (λ fun.
              eip_function stabs stabstr
                (record { left = suc f; right = right })
                fun
                (initial addr)))
    unfolding Found IsFunction
    second_search right lt small (fun, e, v) =
        let is = Brackets-IsFunction right fun lt small v in
        rw (e, is.0)
          (eip_function-found (record { left = suc f; right = right }) addr g fun.right is.1
            (omega (arith, is.2)) (strfind-name_at stabstr (stab_at stabs g).n_strx b':' closed)
            (file_back-ends stabs (suc f - 1) (suc g - (suc f - 1)) (omega (arith, is.2, is.1)))
            (args-ends (suc g) fun.right (omega (arith, is.2))))

    first_search :
        (file : Region) × (stab_binsearch stabs
              (record { left = 1; right = length stabs })
              n_so
              addr
            ≡ done file)
          × Brackets stabs n_so 0 (length stabs) addr file
        → Found (eip_search stabs stabstr addr)
    unfolding eip_search Found IsFile
    first_search (file, e, v) =
        let is = Brackets-IsFile file v in
        let positive = l.file in
        let not_first : (suc f == 1) ≡ false = ground arith in
        let not_zero : (suc f == 0) ≡ false = ground arith in
        let order = l.functions f file.right (omega (arith, positive.0)) is.2 in
        rw (e, is.0, not_first, not_zero)
          (second_search file.right is.1 is.2
            (stab_binsearch-Brackets stabs n_fun f file.right addr order))

    -- For an address from ULIM on in a function of a file, with tables in order, debuginfo_eip ends
    -- with 0, whatever the other stabs are, and reports the address and the name of that function,
    -- with the name's length up to its colon; the line that it reports is 0.
    pub debuginfo_eip-Reports :
        (kernel : ulim ≤ addr)
        → (r : Eipdebuginfo) × (debuginfo_eip stabs stabstr addr ≡ done (found r))
          × Reports (stab_at stabs g) stabstr r
    unfolding debuginfo_eip Found
    debuginfo_eip-Reports kernel =
        let at_kernel : ltb addr ulim ≡ false = ground arith in
        let size = closed.0 in
        let nonempty : (length stabstr == 0) ≡ false = ground arith in
        let last : (get_or stabstr (length stabstr - 1) 0 == 0) ≡ true = ground (arith, closed.1) in
        rw (at_kernel, nonempty, last)
          (first_search (stab_binsearch-Brackets stabs n_so 0 (length stabs) addr l.files))
