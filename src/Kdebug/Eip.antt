-- ===== src/Kdebug/Eip.antt =====
-- kern/kdebug.c: debuginfo_eip. The tables that the linker places between __STAB_BEGIN__ and
-- __STABSTR_END__ are arguments. A `char *` into the string table is the bytes from it to the end.

use jos_smp.Base.{
  ℕ, zero, suc, ◌+◌, ◌-◌, Bool, not, ◌&&◌, ◌||◌, List, Option, none, some, ◌==◌, ltb, leb, length,
  drop, get_or, get_elem?, if◌then◌else◌,
}
use jos_smp.CString.Defs.{Bytes, strfind}
use jos_smp.Mmu.Layout.{ulim}
use jos_smp.Printfmt.Format.{Run, done, fault, ◌>>=◌, of_option}
use jos_smp.Printfmt.Print.{literal}
use jos_smp.Kdebug.Search.{Stab, Region, stab_binsearch}

-- The types of stabs that are looked for.
abbrev pub n_fun : ℕ
n_fun = 0x24

abbrev pub n_so : ℕ
n_so = 0x64

abbrev pub n_sol : ℕ
n_sol = 0x84

abbrev pub n_psym : ℕ
n_psym = 0xa0

pub record Eipdebuginfo : Type 0 where
  pub eip_file : Bytes
  pub eip_line : ℕ
  pub eip_fn_name : Bytes
  pub eip_fn_namelen : ℕ
  pub eip_fn_addr : ℕ
  pub eip_fn_narg : ℕ

-- How a call ends: with 0, with -1, or in a panic for a user address; `*info` is set in each case.
pub data Outcome : Type 0 where
  found : Eipdebuginfo → Outcome
  missing : Eipdebuginfo → Outcome
  panicked : Eipdebuginfo → Outcome

abbrev pub initial : ℕ → Eipdebuginfo
initial addr = record {
  eip_file = literal "<unknown>";
  eip_line = 0;
  eip_fn_name = literal "<unknown>";
  eip_fn_namelen = 9;
  eip_fn_addr = addr;
  eip_fn_narg = 0;
}

-- A stab of the table.
unfoldable pub stab_of : List Stab → ℕ → Run Stab
stab_of stabs i = of_option (get_elem? stabs i)

-- `stabstr + strx`, where that lies in the table, and otherwise the name there was.
unfoldable pub name_at : Bytes → ℕ → Bytes → Bytes
name_at stabstr strx name = if ltb strx (length stabstr) then drop strx stabstr else name

-- The stab of a file: an N_SOL, or an N_SO with a value.
abbrev pub names_file : Stab → Bool
names_file s = (s.n_type == n_sol) || ((s.n_type == n_so) && not (s.n_value == 0))

-- `while (lline >= lfile && ...) lline--;` from `lline = lfile + k - 1`: the stab where it stops.
unfoldable pub file_back : List Stab → ℕ → ℕ → Run (Option Stab)
unfolding stab_of
file_back stabs lfile zero = done none
file_back stabs lfile (suc k) =
    let rest = file_back stabs lfile k in
    stab_of stabs (lfile + k) >>= (λ s. if names_file s then done (some s) else rest)

-- The last loop, from `lline` on with `k` rounds left: the parameters that it counts.
unfoldable pub count_args : List Stab → ℕ → ℕ → Run ℕ
unfolding stab_of
count_args stabs lline zero = done 0
count_args stabs lline (suc k) =
    let rest = count_args stabs (lline + 1) k >>= (λ n. done (n + 1)) in
    stab_of stabs lline >>= (λ s. if s.n_type == n_psym then rest else done 0)

-- From the function's region on. `lline` is `lfun` if a function was found, else `lfile`; the search
-- for a line number stab is not there, so `eip_line` stays as it is. The regions' ends are one
-- higher than the code's.
unfoldable pub eip_function : List Stab → Bytes → Region → Region → Eipdebuginfo → Run Outcome
unfolding stab_of name_at
eip_function stabs stabstr file fun info =
    (if leb fun.left fun.right
      then stab_of stabs (fun.left - 1) >>= (λ s. done (
        record info {
          eip_fn_name = name_at stabstr s.n_strx info.eip_fn_name;
          eip_fn_addr = s.n_value;
        },
        fun.left,
      ))
      else done (info, file.left))
    >>= (λ (r : Eipdebuginfo × ℕ). of_option (strfind r.0.eip_fn_name b':') >>= (λ namelen.
        file_back stabs (file.left - 1) (r.1 - (file.left - 1)) >>= (λ hit.
          (if ltb fun.left fun.right
            then count_args stabs fun.left (fun.right - 1 - fun.left)
            else done 0)
          >>= (λ narg. done (
              found (record (r.0) {
                eip_file = elim hit [
                  | none ↦ r.0.eip_file
                  | some s ↦ name_at stabstr s.n_strx r.0.eip_file
                ];
                eip_fn_namelen = namelen;
                eip_fn_narg = narg;
              }))))))

-- Once the table of names is known to end in a zero byte. Where the search for the file leaves
-- `lfile` at -1, `rfile` is -1 too, and the search for the function reads `stabs[-1]`.
unfoldable pub eip_search : List Stab → Bytes → ℕ → Run Outcome
unfolding eip_function
eip_search stabs stabstr addr =
    stab_binsearch stabs (record { left = 1; right = length stabs }) n_so addr >>= (λ file.
      if file.left == 1
      then done (missing (initial addr))
      else if file.left == 0
      then fault
      else stab_binsearch stabs file n_fun addr
        >>= (λ fun. eip_function stabs stabstr file fun (initial addr)))

unfoldable pub debuginfo_eip : List Stab → Bytes → ℕ → Run Outcome
unfolding eip_search
debuginfo_eip stabs stabstr addr =
    if ltb addr ulim
    then done (panicked (initial addr))
    else if (length stabstr == 0) || not (get_or stabstr (length stabstr - 1) 0 == 0)
    then done (missing (initial addr))
    else eip_search stabs stabstr addr
