-- ===== src/Monitor/Words.antt =====
-- kern/monitor.c: the parser finds the words of the line.
use jos_smp.Base.{
  ℕ, ◌+◌, ◌≡◌, ◌≢◌, refl, ◌||◌, Bool, true, false, not, List, [], ◌∷◌, ◌++◌, ◌==◌, length,
  append_assoc, append-nil, if◌then◌else◌, arith, Bool-cases, inl, inr, ap, sym, ◌∙◌,
}
use jos_smp.CString.Defs.{Bytes}
use jos_smp.CString.Scan.{IsText}
use jos_smp.Printfmt.Format.{done}
use jos_smp.Monitor.Parse.{is_space, is_word, gobble, scan_word}

-- Tab, line feed, carriage return and space.
abbrev pub separates : ℕ → Bool
separates c = (c == 9) || (c == 10) || (c == 13) || (c == b' ')

abbrev pub put_word : Bytes → List Bytes → List Bytes
put_word [] ws = ws
put_word (c ∷ w) ws = (c ∷ w) ∷ ws

-- The words between separators, `word` being the part of one that was read before.
unfoldable pub words_from : Bytes → Bytes → List Bytes
words_from word [] = put_word word []
words_from word (c ∷ s) =
    let next = words_from (word ++ c ∷ []) s in
    let parted = put_word word (words_from [] s) in if separates c then parted else next

is_space-separates : (c : ℕ) → c ≢ 0 → is_space c ≡ separates c
unfolding is_space
is_space-separates c h = ground arith

is_word-separates : (c : ℕ) → c ≢ 0 → is_word c ≡ not (separates c)
unfolding is_word
is_word-separates c h = ground arith

-- A text that is empty or begins with a separator, or with none.
abbrev pub Stops : Bytes → Type 0
Stops [] = Unit
Stops (c ∷ s) = separates c ≡ true

abbrev pub Starts : Bytes → Type 0
Starts [] = Unit
Starts (c ∷ s) = separates c ≡ false

words_from-separator :
    (word : Bytes) (c : ℕ) (s : Bytes)
    → separates c ≡ true
    → words_from word (c ∷ s) ≡ put_word word (words_from [] s)
unfolding words_from
words_from-separator word c s y = rw y

pub words_from-nil : (word : Bytes) → words_from word [] ≡ put_word word []
unfolding words_from
words_from-nil word = refl

words_from-letter :
    (word : Bytes) (c : ℕ) (s : Bytes)
    → separates c ≡ false
    → words_from word (c ∷ s) ≡ words_from (word ++ c ∷ []) s
unfolding words_from
words_from-letter word c s n = rw n

-- What gobbling leaves of a text.
abbrev pub Gobbled : Bytes → Bytes → ℕ → Bytes → Type 0
Gobbled t r n t' =
    (gobble (t ++ 0 ∷ r) ≡ done (n, t' ++ 0 ∷ r))
    × IsText t'
    × Starts t'
    × (words_from [] t ≡ words_from [] t')
    × (length t ≡ n + length t')
    × (n ≡ 0 → t ≡ t')

pub gobble-text : (t r : Bytes) → IsText t → (n : ℕ) × (t' : Bytes) × Gobbled t r n t'
unfolding gobble
gobble-text [] r h = (0, [], (refl, tt, tt, refl, refl, λ z. refl))
gobble-text (c ∷ t) r (h0, h) = elim (Bool-cases (separates c)) [
  | inl y ↦
      let (n, t', (e, is, start, ws, len, _)) = gobble-text t r h in
      let space = is_space-separates c h0 ∙ y in
      (
        n + 1,
        t',
        (
          rw (space, e),
          is,
          start,
          words_from-separator [] c t y ∙ ws,
          omega arith,
          λ z. absurd (omega arith),
        ),
      )
  | inr n ↦
      let none_left = is_space-separates c h0 ∙ n in
      (0, c ∷ t, (rw none_left, (h0, h), n, refl, omega arith, λ z. refl))
]

-- What scanning a word leaves of a text.
abbrev pub Scanned : Bytes → Bytes → Bytes → Bytes → Type 0
Scanned t r w t' =
    (scan_word (t ++ 0 ∷ r) ≡ done (w, t' ++ 0 ∷ r))
    × IsText t'
    × Stops t'
    × (t ≡ w ++ t')
    × ((word : Bytes) → words_from word t ≡ put_word (word ++ w) (words_from [] t'))

pub scan_word-text : (t r : Bytes) → IsText t → (w : Bytes) × (t' : Bytes) × Scanned t r w t'
unfolding scan_word
scan_word-text [] r h = (
  [],
  [],
  (refl, tt, tt, refl, λ word. rw (append-nil word, words_from-nil [], words_from-nil word)),
)
scan_word-text (c ∷ t) r (h0, h) = elim (Bool-cases (separates c)) [
  | inl y ↦
      let ends = is_word-separates c h0 ∙ ap not y in
      (
        [],
        c ∷ t,
        (
          rw ends,
          (h0, h),
          y,
          refl,
          λ word.
              words_from-separator word c t y
              ∙ rw (append-nil word, sym (words_from-separator [] c t y)),
        ),
      )
  | inr n ↦
      let (w, t', (e, is, stop, parts, ws)) = scan_word-text t r h in
      let goes = is_word-separates c h0 ∙ ap not n in
      (
        c ∷ w,
        t',
        (
          rw (goes, e),
          is,
          stop,
          ap (λ s. c ∷ s) parts,
          λ word.
              words_from-letter word c t n
              ∙ ws (word ++ c ∷ [])
              ∙ ap (λ v. put_word v (words_from [] t')) (append_assoc word (c ∷ []) w),
        ),
      )
]
