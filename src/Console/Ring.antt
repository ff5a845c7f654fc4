-- ===== src/Console/Ring.antt =====
-- kern/console.c: the input buffer is a queue of at most 511 characters.

use jos_smp.Base.{
  ℕ, zero, suc, ◌+◌, ◌-◌, ◌%◌, ◌<◌, ◌≡◌, ◌≢◌, refl, sym, ap, subst, ap₂, ◌∙◌, false, List, [], ◌∷◌,
  ◌++◌, Option, none, some, ◌==◌, set, get_or, length, if◌then◌else◌, arith, Bool-cases, inl, inr,
  append_assoc, append-nil, length-set,
}
use jos_smp.Console.Input.{Cons, advance, stash, take_char, cons_intr}

pub record IsValid (s : Cons) : Type 0 where
  pub size : length s.buf ≡ 512
  pub read_in : s.rpos < 512
  pub write_in : s.wpos < 512

-- How many characters wait.
abbrev pub waiting : Cons → ℕ
waiting s = (s.wpos + 512 - s.rpos) % 512

-- The `n` characters from index `p` on, going round at the end.
abbrev pub window : List ℕ → ℕ → ℕ → List ℕ
window buf p zero = []
window buf p (suc n) = get_or buf p 0 ∷ window buf (advance p) n

-- The characters that wait, oldest first.
abbrev pub contents : Cons → List ℕ
contents s = window s.buf s.rpos (waiting s)

get_or-set_self : (xs : List ℕ) (i v : ℕ) → i < length xs → get_or (set xs i v) i 0 ≡ v
get_or-set_self [] i v h = absurd (omega arith)
get_or-set_self (x ∷ xs) zero v h = refl
get_or-set_self (x ∷ xs) (suc i) v h = get_or-set_self xs i v (omega arith)

get_or-set_ne : (xs : List ℕ) (i j v : ℕ) → i ≢ j → get_or (set xs i v) j 0 ≡ get_or xs j 0
get_or-set_ne [] i j v h = refl
get_or-set_ne (x ∷ xs) zero zero v h = absurd (h refl)
get_or-set_ne (x ∷ xs) zero (suc j) v h = refl
get_or-set_ne (x ∷ xs) (suc i) zero v h = refl
get_or-set_ne (x ∷ xs) (suc i) (suc j) v h = get_or-set_ne xs i j v (λ e. h (ap suc e))

advance-mod : (p : ℕ) → p < 512 → advance p ≡ (p + 1) % 512
advance-mod p h = ground arith

-- Writing just behind a window makes it one character longer.
window-set :
    (buf : List ℕ) (c n p i : ℕ)
    → length buf ≡ 512
    → p < 512
    → n < 512
    → i ≡ (p + n) % 512
    → window (set buf i c) p (suc n) ≡ window buf p n ++ (c ∷ [])
window-set buf c zero p i l h k e =
    let f : i ≡ p = omega arith in rw (f, get_or-set_self buf p c (omega arith))
window-set buf c (suc n) p i l h k e =
    let a = advance-mod p h in
    ap₂ ◌∷◌ (get_or-set_ne buf i p c (omega arith))
      (window-set buf c n (advance p) i l (omega (arith, a)) (omega arith) (omega (arith, a)))

stash-IsValid : (c : ℕ) {s : Cons} → IsValid s → IsValid (stash c s)
unfolding stash
stash-IsValid c {s} v = record {
  size = length-set s.buf s.wpos (c % 256) ∙ v.size;
  read_in = v.read_in;
  write_in = ground (arith, v.write_in);
}

-- While fewer than 511 characters wait, storing one appends it to those that wait, as a byte.
pub stash-contents :
    (c : ℕ) (s : Cons)
    → IsValid s
    → waiting s < 511
    → IsValid (stash c s) × (contents (stash c s) ≡ contents s ++ (c % 256 ∷ []))
unfolding stash
stash-contents c s v h = (
  stash-IsValid c v,
  subst (λ n. window (set s.buf s.wpos (c % 256)) s.rpos n ≡ contents s ++ (c % 256 ∷ [])) more
      (window-set s.buf (c % 256) (waiting s) s.rpos s.wpos v.size v.read_in (omega arith)
        (omega (arith, v.read_in, v.write_in))),
)
  where
    more : suc (waiting s) ≡ (advance s.wpos + 512 - s.rpos) % 512
    more = omega (arith, advance-mod s.wpos v.write_in, v.read_in, v.write_in)

-- With 511 characters waiting, storing one more leaves none waiting: all are lost.
pub stash-overrun : (c : ℕ) (s : Cons) → IsValid s → waiting s ≡ 511 → contents (stash c s) ≡ []
unfolding stash
stash-overrun c s v h = rw none_left
  where
    none_left : (advance s.wpos + 512 - s.rpos) % 512 ≡ 0
    none_left = omega (arith, advance-mod s.wpos v.write_in, v.read_in, v.write_in)

window-suc :
    (buf : List ℕ) (p n : ℕ)
    → n ≢ 0
    → window buf p n ≡ get_or buf p 0 ∷ window buf (advance p) (n - 1)
window-suc buf p zero h = absurd (h refl)
window-suc buf p (suc n) h = let e : suc n - 1 ≡ n = omega arith in rw e

-- What cons_getc should return of a queue: its head, or 0.
abbrev pub pop : List ℕ → ℕ × List ℕ
pop [] = (0, [])
pop (c ∷ q) = (c, q)

-- Taking a character returns the oldest that waits and leaves the others, or returns 0 and leaves
-- none if none waits; the positions stay in range.
pub take_char-contents :
    (s : Cons)
    → IsValid s
    → IsValid (take_char s).1 × (((take_char s).0, contents (take_char s).1) ≡ pop (contents s))
unfolding take_char
take_char-contents s v = (
  ground arith,
  elim (Bool-cases (s.rpos == s.wpos)) [
    | inl y ↦ let e : waiting s ≡ 0 = ground (arith, v.read_in, v.write_in) in rw (y, e)
    | inr n ↦
        let ne : waiting s ≢ 0 = ground (arith, v.read_in, v.write_in) in
        let less : (s.wpos + 512 - advance s.rpos) % 512 ≡ waiting s - 1 =
          omega (arith, advance-mod s.rpos v.read_in, v.read_in, v.write_in) in
        rw (n, less, window-suc s.buf s.rpos (waiting s) ne)
  ],
)

-- From the state `d` the device hands over the characters `cs`, then -1 in the state `e`.
pub data Delivers {D : Type 0} (proc : D → Option ℕ × D) : D → List ℕ → D → Type 0 where
  finished : {d e : D} → proc d ≡ (none, e) → Delivers proc d [] e
  character :
      {d d' e : D} {cs : List ℕ} (c : ℕ)
      → proc d ≡ (some c, d')
      → Delivers proc d' cs e
      → Delivers proc d (c ∷ cs) e

-- The bytes that cons_intr keeps of what the device hands over: all but the zeros.
abbrev pub kept : List ℕ → List ℕ
kept [] = []
kept (c ∷ cs) = if c == 0 then kept cs else (c % 256) ∷ kept cs

kept-cons : (c : ℕ) (cs : List ℕ) → c ≢ 0 → kept (c ∷ cs) ≡ c % 256 ∷ kept cs
kept-cons c cs h = let z : (c == 0) ≡ false = ground arith in rw z

pub length-window : (buf : List ℕ) (n p : ℕ) → length (window buf p n) ≡ n
length-window buf zero p = refl
length-window buf (suc n) p = ap suc (length-window buf n (advance p))

waiting-stash :
    (c : ℕ) (s : Cons) → IsValid s → waiting s < 511 → waiting (stash c s) ≡ waiting s + 1
unfolding stash
waiting-stash c s v h = omega (arith, advance-mod s.wpos v.write_in, v.read_in, v.write_in)

-- One round of cons_intr, by what the device hands over.
intr_end :
    {D : Type 0} (proc : D → Option ℕ × D) (d : D) {e : D} (fuel : ℕ) (s : Cons)
    → proc d ≡ (none, e)
    → cons_intr (suc fuel) proc s d ≡ some (s, e)
unfolding cons_intr
intr_end proc d fuel s p =
    rw (ap (λ (r : Option ℕ × _). r.0) p, cons_intr) (ap (λ r. some (s, r.1)) p)

intr_character :
    {D : Type 0} (proc : D → Option ℕ × D) (d : D) {d' : D} (fuel c : ℕ) (s : Cons)
    → proc d ≡ (some c, d')
    → cons_intr (suc fuel) proc s d ≡ cons_intr fuel proc (if c == 0 then s else stash c s) d'
unfolding cons_intr
intr_character proc d fuel c s p =
    rw (ap (λ (r : Option ℕ × _). r.0) p, cons_intr)
      (ap (λ r. cons_intr fuel proc (if c == 0 then s else stash c s) r.1) p)

-- One round more than there are characters is enough fuel: `cons_intr` returns, and with room for
-- all of them the device's nonzero characters stand behind those that waited.
pub cons_intr-contents :
    {D : Type 0} (proc : D → Option ℕ × D) {d e : D} {cs : List ℕ} (fuel : ℕ) (s : Cons)
    → Delivers proc d cs e
    → length cs < fuel
    → IsValid s
    → waiting s + length (kept cs) < 512
    → (s' : Cons) × (cons_intr fuel proc s d ≡ some (s', e))
      × IsValid s'
      × (contents s' ≡ contents s ++ kept cs)
cons_intr-contents proc zero s dl f v h = absurd (omega arith)
cons_intr-contents proc {d = from} (suc fuel) s (finished p) f v h =
    (s, intr_end proc from fuel s p, v, sym (append-nil _))
cons_intr-contents proc {d = from} (suc fuel) s (character {cs = rest} c p dl) f v h =
    elim (Bool-cases (c == 0)) [
      | inl y ↦
          let k : kept (c ∷ rest) ≡ kept rest = rw y in
          let (s', r, w, q) =
            cons_intr-contents proc fuel s dl (omega arith) v (omega (arith, ap length k)) in
          (
            s',
            intr_character proc from fuel c s p ∙ rw y r,
            w,
            q ∙ ap (λ l. contents s ++ l) (sym k),
          )
      | inr y ↦
          let k : kept (c ∷ rest) ≡ c % 256 ∷ kept rest = rw y in
          let room : waiting s < 511 = omega (arith, ap length k) in
          let (w0, q0) = stash-contents c s v room in
          let (s', r, w, q) =
            cons_intr-contents proc fuel (stash c s) dl (omega arith) w0
              (omega (arith, ap length k, waiting-stash c s v room)) in
          (
            s',
            intr_character proc from fuel c s p ∙ rw y r,
            w,
            q
                ∙ ap (λ l. l ++ kept rest) q0
                ∙ append_assoc (contents s) (c % 256 ∷ []) (kept rest)
                ∙ ap (λ l. contents s ++ l) (sym k),
          )
    ]
