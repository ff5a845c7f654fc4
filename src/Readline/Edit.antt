-- ===== src/Readline/Edit.antt =====
-- lib/readline.c: what the line editor returns and echoes.
use jos_smp.Base.{
  ℕ, zero, suc, ◌-◌, ◌%◌, ◌<◌, ◌≡◌, ◌≢◌, refl, ◌&&◌, ◌||◌, some, List, [], ◌∷◌, ◌++◌, ◌==◌, leb,
  ltb, set, take, length, get_elem?, length-set, get_elem?-set_self, length-append, length-take,
  if◌then◌else◌, arith, ap, sym, ◌∙◌,
}

-- The line that stands after the characters `cs` behind the line typed so far: backspace and delete
-- take the last character, if there is one; a character from the space on is put behind, if there
-- is room for it and the terminator.
unfoldable pub edited : List ℕ → List ℕ → List ℕ
edited line [] = line
edited line (c ∷ cs) =
    edited
      (if ((c == 8) || (c == 0x7f)) && ltb 0 (length line)
        then take (length line - 1) line
        else if leb b' ' c && ltb (length line) 1023
        then line ++ (c % 256) ∷ []
        else line)
      cs

-- What is echoed: a backspace for each character taken, and each character put behind.
unfoldable pub echoed : List ℕ → List ℕ → List ℕ
unfolding edited
echoed line [] = []
echoed line (c ∷ cs) =
    (if ((c == 8) || (c == 0x7f)) && ltb 0 (length line)
      then 8 ∷ []
      else if leb b' ' c && ltb (length line) 1023
      then c ∷ []
      else [])
    ++ echoed (edited line (c ∷ [])) cs

-- No end of line among them.
abbrev pub IsInLine : List ℕ → Type 0
IsInLine [] = Unit
IsInLine (c ∷ cs) = (c ≢ 10) × (c ≢ 13) × IsInLine cs

take-take_less : {A : Type 0} (n : ℕ) (xs : List A) → take (n - 1) (take n xs) ≡ take (n - 1) xs
take-take_less zero xs = refl
take-take_less (suc n) xs = let e : suc n - 1 ≡ n = omega arith in rw e (take-take_suc n xs)
  where
    take-take_suc : {A : Type 0} (n : ℕ) (xs : List A) → take n (take (suc n) xs) ≡ take n xs
    take-take_suc zero xs = refl
    take-take_suc (suc n) [] = refl
    take-take_suc (suc n) (x ∷ xs) = rw (take-take_suc n xs)

take-set-suc :
    {A : Type 0} (i : ℕ) (xs : List A) (v : A)
    → i < length xs
    → take (suc i) (set xs i v) ≡ take i xs ++ v ∷ []
take-set-suc zero [] v h = absurd (omega arith)
take-set-suc zero (x ∷ xs) v h = refl
take-set-suc (suc i) [] v h = absurd (omega arith)
take-set-suc (suc i) (x ∷ xs) v h = ap (λ l. x ∷ l) (take-set-suc i xs v (omega arith))

take-set : {A : Type 0} (i : ℕ) (xs : List A) (v : A) → take i (set xs i v) ≡ take i xs
take-set zero xs v = refl
take-set (suc i) [] v = refl
take-set (suc i) (x ∷ xs) v = ap (λ l. x ∷ l) (take-set i xs v)

-- The buffer holds the line.
pub record Holds (buf line : List ℕ) : Type 0 where
  pub size : length buf ≡ 1024
  pub room : length line < 1024
  pub text : take (length line) buf ≡ line

pub Holds-insert :
    (buf line : List ℕ) (v : ℕ)
    → Holds buf line
    → length line < 1023
    → Holds (set buf (length line) v) (line ++ v ∷ [])
Holds-insert buf line v h room =
    let e : length (line ++ v ∷ []) ≡ suc (length line) =
      omega (arith, length-append line (v ∷ [])) in
    let inside : length line < length buf = omega (arith, h.size) in
    record {
      size = length-set buf (length line) v ∙ h.size;
      room = omega arith;
      text = rw e (take-set-suc (length line) buf v inside ∙ ap (λ l. l ++ v ∷ []) h.text);
    }

pub Holds-erase : (buf line : List ℕ) → Holds buf line → Holds buf (take (length line - 1) line)
Holds-erase buf line h =
    let room = h.room in
    let e : length (take (length line - 1) line) ≡ length line - 1 =
      omega (arith, length-take (length line - 1) line) in
    record {
      size = h.size;
      room = omega arith;
      text =
          rw e (sym (take-take_less (length line) buf) ∙ ap (λ l. take (length line - 1) l) h.text);
    }

-- The line is in the returned buffer, with its terminator.
abbrev pub Returned : List ℕ → List ℕ → Type 0
Returned line buf =
    (length buf ≡ 1024)
    × (length line < 1024)
    × (take (length line) buf ≡ line)
    × (get_elem? buf (length line) ≡ some 0)

pub Holds-finish : (buf line : List ℕ) → Holds buf line → Returned line (set buf (length line) 0)
Holds-finish buf line h = (
  length-set buf (length line) 0 ∙ h.size,
  h.room,
  take-set (length line) buf 0 ∙ h.text,
  get_elem?-set_self buf (length line) 0 (omega (arith, h.size, h.room)),
)
