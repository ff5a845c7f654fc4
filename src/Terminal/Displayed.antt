-- ===== src/Terminal/Displayed.antt =====
-- kern/console.c, kern/printf.c: the calls of cprintf, and what they leave on the screen.
use jos_smp.Base.{
  ℕ, suc, ◌-◌, ◌≤◌, arith, ◌≡◌, refl, sym, ap, ◌∙◌, List, [], ◌∷◌, ◌++◌, append_assoc, append-nil,
}
use jos_smp.CString.Defs.{Bytes}
use jos_smp.Console.Io.{Io}
use jos_smp.Console.Output.{put_all}
use jos_smp.Console.Screen.{put_all-append}
use jos_smp.Cprintf.{cprintf-done}
use jos_smp.Printfmt.Format.{Args, Run, done, ◌>>=◌}
use jos_smp.Printfmt.Print.{vprintfmt}
use jos_smp.Printfmt.Runs.{done-same, >>=-done}
use jos_smp.Terminal.Devices.{Terminal, console}
use jos_smp.Tty.{Speaks, AllFit}

-- Fuel for a format of up to 30 characters.
abbrev pub thirty_more : ℕ → ℕ
thirty_more n =
    let ten = λ (k : ℕ). suc (suc (suc (suc (suc (suc (suc (suc (suc (suc k))))))))) in
    ten (ten (ten n))

pub thirty_more-sub : (fuel : ℕ) → 30 ≤ fuel → fuel ≡ thirty_more (fuel - 30)
thirty_more-sub fuel h = omega arith

-- What calls of cprintf print, one after the other.
abbrev pub formatted : ℕ → List (Bytes × Args) → Run (List ℕ)
formatted fuel [] = done []
formatted fuel (c ∷ l) =
    vprintfmt fuel c.0 c.1
    >>= (λ (o : List ℕ). formatted fuel l >>= (λ (p : List ℕ). done (o ++ p)))

-- A call that returns.
abbrev pub Formats : ℕ → Bytes × Args → Type 0
Formats fuel c = (o : List ℕ) × (vprintfmt fuel c.0 c.1 ≡ done o)

pub formatted-AllFit :
    (fuel : ℕ) (l : List (Bytes × Args)) (o : List ℕ)
    → formatted fuel l ≡ done o
    → AllFit (Formats fuel) l
formatted-AllFit fuel [] o e = tt
formatted-AllFit fuel (c ∷ l) o e =
    let (first, e1, e2) = >>=-done (vprintfmt fuel c.0 c.1) _ o e in
    let (rest, e3, e4) = >>=-done (formatted fuel l) _ o e2 in
    ((first, e1), formatted-AllFit fuel l rest e3)

pub formatted-append :
    (fuel : ℕ) (l l' : List (Bytes × Args)) (o o' : List ℕ)
    → formatted fuel l ≡ done o
    → formatted fuel l' ≡ done o'
    → formatted fuel (l ++ l') ≡ done (o ++ o')
formatted-append fuel [] l' o o' e e' = e' ∙ ap (λ p. done (p ++ o')) (done-same [] o e)
formatted-append fuel (c ∷ l) l' o o' e e' =
    let (first, e1, e2) = >>=-done (vprintfmt fuel c.0 c.1) _ o e in
    let (rest, e3, e4) = >>=-done (formatted fuel l) _ o e2 in
    let tail = formatted-append fuel l l' rest o' e3 e' in
    rw (e1, tail)
      (ap done
        (sym (append_assoc first rest o') ∙ ap (λ p. p ++ o') (done-same (first ++ rest) o e4)))

module _ {W : Type 0} (io : Io W) (polls fuel : ℕ) where
  -- The calls print `o`, and change nothing but the screen and the devices.
  abbrev pub Displayed : Terminal W → List (Bytes × Args) → Terminal W → Type 0
  Displayed t l t' =
      (o : List ℕ) × (formatted fuel l ≡ done o)
      × (t' ≡ record t { screen = put_all io o t.screen })

  Displayed-nil : (t : Terminal W) → Displayed t [] t
  unfolding put_all
  Displayed-nil t = ([], refl, refl)

  Displayed-append :
      (p q : List (Bytes × Args)) (t t1 t2 : Terminal W)
      → Displayed t p t1
      → Displayed t1 q t2
      → Displayed t (p ++ q) t2
  Displayed-append p q t t1 t2 (o, e, s) (o', e', s') = (
    o ++ o',
    formatted-append fuel p q o o' e e',
    s' ∙ rw (s, put_all-append io o o' t.screen) refl,
  )

  Displayed-cprintf :
      (fmt : Bytes) (args : Args) (t : Terminal W)
      → Formats fuel (fmt, args)
      → (n : ℕ) × (t' : Terminal W) × ((console io polls fuel).cprintf fmt args t ≡ done (n, t'))
        × Displayed t ((fmt, args) ∷ []) t'
  unfolding console
  Displayed-cprintf fmt args t (o, e) = (
    0,
    record t { screen = put_all io o t.screen },
    rw (cprintf-done io fuel fmt args o t.screen e) refl,
    (o, rw (e, append-nil) refl, refl),
  )

  -- The kernel's console is one that Tty.Speaks describes.
  pub console-Speaks : Speaks (console io polls fuel) (Formats fuel) Displayed
  console-Speaks = record {
    Spoken-nil = Displayed-nil;
    Spoken-append = Displayed-append;
    Spoken-cprintf = Displayed-cprintf;
  }
