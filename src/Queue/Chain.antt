-- ===== src/Queue/Chain.antt =====
-- inc/queue.h: when the links make up a sequence of elements.
use jos_smp.Base.{
  ℕ, ◌≡◌, ◌≢◌, refl, List, [], ◌∷◌, ◌++◌, ◌==◌, arith, ◌∙◌, Bool-cases, inl, inr, ap,
}
use jos_smp.Queue.Links.{Cell, first, next, Heap, null, load, store}

abbrev pub Apart : ℕ → List ℕ → Type 0
Apart x [] = Unit
Apart x (y ∷ xs) = (x ≢ y) × Apart x xs

-- The cell is no `le_next` of these elements.
abbrev pub Outside : Cell → List ℕ → Type 0
Outside (first head) xs = Unit
Outside (next elm) xs = Apart elm xs

-- From the cell on, the links run through these elements, all different, and end; each element's
-- `le_prev` points at the cell that points at it.
abbrev pub Chain : Heap → Cell → List ℕ → Type 0
Chain h c [] = load c h ≡ null
Chain h c (x ∷ xs) =
    (load c h ≡ x) × (x ≢ null) × (h.le_prev x ≡ c) × Apart x xs × Chain h (next x) xs

-- The list at a head.
abbrev pub IsList : Heap → ℕ → List ℕ → Type 0
IsList h head xs = Chain h (first head) xs

-- Where two heaps agree on the cell and on the links of the elements, the chain is in both.
pub Chain-frame :
    (h h' : Heap) (c : Cell) (xs : List ℕ)
    → load c h' ≡ load c h
    → ((x : ℕ) → (Apart x xs → ⊥) → (h'.le_next x ≡ h.le_next x) × (h'.le_prev x ≡ h.le_prev x))
    → Chain h c xs
    → Chain h' c xs
Chain-frame h h' c [] e same chain = e ∙ chain
Chain-frame h h' c (x ∷ xs) e same (l, ne, p, a, chain) = (
  e ∙ l,
  ne,
  (same x (λ ap. ap.0 refl)).1 ∙ p,
  a,
  Chain-frame h h' (next x) xs (same x (λ ap. ap.0 refl)).0 (λ y inside. same y (λ ap. inside ap.1))
      chain,
)

-- The lists of elements around a place where one is put in or taken out.
pub Apart-middle : (p l : ℕ) (pre post : List ℕ) → Apart p (pre ++ l ∷ post) → p ≢ l
Apart-middle p l [] post a = a.0
Apart-middle p l (q ∷ pre) post a = Apart-middle p l pre post a.1

pub Apart-insert :
    (p x : ℕ) (pre post : List ℕ) → Apart p (pre ++ post) → p ≢ x → Apart p (pre ++ x ∷ post)
Apart-insert p x [] post a n = (n, a)
Apart-insert p x (q ∷ pre) post a n = (a.0, Apart-insert p x pre post a.1 n)

pub Apart-insert_after :
    (p l x : ℕ) (pre post : List ℕ)
    → Apart p (pre ++ l ∷ post)
    → p ≢ x
    → Apart p (pre ++ l ∷ x ∷ post)
Apart-insert_after p l x [] post a n = (a.0, (n, a.1))
Apart-insert_after p l x (q ∷ pre) post a n = (a.0, Apart-insert_after p l x pre post a.1 n)

pub Apart-remove : (p x : ℕ) (pre post : List ℕ) → Apart p (pre ++ x ∷ post) → Apart p (pre ++ post)
Apart-remove p x [] post a = a.1
Apart-remove p x (q ∷ pre) post a = (a.0, Apart-remove p x pre post a.1)

-- What comes behind an element of a chain is apart from what is apart from the chain.
pub le_next-ne :
    (p l : ℕ) (h : Heap) (c : Cell) (pre post : List ℕ)
    → p ≢ null
    → Apart p (pre ++ l ∷ post)
    → Chain h c (pre ++ l ∷ post)
    → p ≢ h.le_next l
le_next-ne p l h c [] [] np a chain = ground arith
le_next-ne p l h c [] (y ∷ post) np a chain = ground arith
le_next-ne p l h c (q ∷ pre) post np a chain = le_next-ne p l h (next q) pre post np a.1 chain.4

-- An element's `le_prev` points at a cell that points at it.
pub load-le_prev :
    (l : ℕ) (h : Heap) (c : Cell) (pre post : List ℕ)
    → Chain h c (pre ++ l ∷ post)
    → load (h.le_prev l) h ≡ l
load-le_prev l h c [] post chain = rw chain.2 chain.0
load-le_prev l h c (q ∷ pre) post chain = load-le_prev l h (next q) pre post chain.4

pub load-store_ne : (c w : Cell) (v : ℕ) (h : Heap) → c ≢ w → load c (store w v h) ≡ load c h
load-store_ne (first k) (first j) v h n = elim (Bool-cases (k == j)) [
  | inl y ↦ let e : k ≡ j = ground arith in absurd (n (ap first e))
  | inr m ↦ rw m
]
load-store_ne (first k) (next j) v h n = refl
load-store_ne (next k) (first j) v h n = refl
load-store_ne (next k) (next j) v h n = elim (Bool-cases (k == j)) [
  | inl y ↦ let e : k ≡ j = ground arith in absurd (n (ap next e))
  | inr m ↦ rw m
]

pub le_prev-store : (w : Cell) (v p : ℕ) (h : Heap) → (store w v h).le_prev p ≡ h.le_prev p
le_prev-store (first k) v p h = refl
le_prev-store (next q) v p h = refl
