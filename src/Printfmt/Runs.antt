-- ===== src/Printfmt/Runs.antt =====
-- lib/printfmt.c: runs that return.
use jos_smp.Base.{◌≡◌, refl, ap}
use jos_smp.Printfmt.Format.{Run, done, fault, out_of_fuel, ◌>>=◌}

-- What a run returned, by the equation that says so.
got : {A : Type 0} → A → Run A → A
got r (done s) = s
got r fault = r
got r out_of_fuel = r

pub done-same : {A : Type 0} (a b : A) → done a ≡ done b → a ≡ b
unfolding got
done-same a b e = ap (got a) e

-- A sequence of which the first is taken.
pub >>=-done :
    {A B : Type 0} (run : Run A) (next : A → Run B) (b : B)
    → (run >>= next) ≡ done b
    → (a : A) × (run ≡ done a) × (next a ≡ done b)
>>=-done (done a) next b e = (a, refl, e)
>>=-done fault next b e = absurd (cc)
>>=-done out_of_fuel next b e = absurd (cc)
