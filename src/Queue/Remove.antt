-- ===== src/Queue/Remove.antt =====
-- inc/queue.h: LIST_REMOVE takes an element out of the sequence, and LIST_FOREACH runs through it.
use jos_smp.Base.{
  ℕ, zero, suc, ◌<◌, ◌≡◌, ◌≢◌, refl, List, [], ◌∷◌, ◌++◌, ◌==◌, some, length, arith, ap, ◌∙◌, sym,
  Bool-cases, inl, inr, length-append, false,
}
use jos_smp.Queue.Links.{
  Cell, first, next, Heap, null, load, update, set_prev, list_remove, foreach_from, list_foreach,
}
use jos_smp.Queue.Chain.{
  Apart, Outside, Chain, IsList, Chain-frame, Apart-middle, Apart-remove, le_next-ne, load-le_prev,
  load-store_ne, le_prev-store,
}
use jos_smp.Queue.Insert.{ne_of_inside}

module _ (x : ℕ) (h : Heap) where
  list_remove-tail :
      (c : Cell) (y : ℕ) (ys : List ℕ)
      → Outside c (y ∷ ys)
      → h.le_prev x ≡ c
      → h.le_next x ≡ y
      → y ≢ null
      → x ≢ y
      → Apart y ys
      → Chain h (next y) ys
      → Chain (list_remove x h) (next y) ys
  unfolding list_remove
  list_remove-tail (first k) y ys o p e ny d ay chain =
      Chain-frame h (list_remove x h) (next y) ys (ground arith)
        (λ z inside. let ny' : z ≢ y = ne_of_inside z y ys inside ay in ground arith) chain
  list_remove-tail (next q) y ys o p e ny d ay chain =
      Chain-frame h (list_remove x h) (next y) ys (ground arith)
        (λ z inside.
          let nq : z ≢ q = ne_of_inside z q ys inside o.1 in
          let ny' : z ≢ y = ne_of_inside z y ys inside ay in ground arith)
        chain

  list_remove-here :
      (c : Cell) (post : List ℕ)
      → Outside c (x ∷ post)
      → Chain h c (x ∷ post)
      → Chain (list_remove x h) c post
  unfolding list_remove
  list_remove-here (first k) [] o (e, nx, p, ax, end) = ground arith
  list_remove-here (next q) [] o (e, nx, p, ax, end) = ground arith
  list_remove-here (first k) (y ∷ ys) o (e, nx, p, ax, (e', ny, p', ay, chain)) =
      ground (arith, list_remove-tail (first k) y ys tt p e' ny ax.0 ay chain)
  list_remove-here (next q) (y ∷ ys) o (e, nx, p, ax, (e', ny, p', ay, chain)) =
      ground (arith, list_remove-tail (next q) y ys o.1 p e' ny ax.0 ay chain)

  list_remove-load :
      (c : Cell) → x ≢ h.le_next x → c ≢ h.le_prev x → load c (list_remove x h) ≡ load c h
  unfolding list_remove
  list_remove-load c d n = elim (Bool-cases (h.le_next x == null)) [
    | inl y ↦ rw y (load-store_ne c (h.le_prev x) _ h n)
    | inr m ↦
        let w : update h.le_prev (h.le_next x) (h.le_prev x) x ≡ h.le_prev x = ground arith in
        rw (m, w) (load-store_ne c (h.le_prev x) _ _ n ∙ load-set_prev c)
  ]
    where
      load-set_prev : (c : Cell) → load c (set_prev (h.le_next x) (h.le_prev x) h) ≡ load c h
      load-set_prev (first k) = refl
      load-set_prev (next q) = refl

  list_remove-prev : (p : ℕ) → p ≢ h.le_next x → (list_remove x h).le_prev p ≡ h.le_prev p
  unfolding list_remove
  list_remove-prev p n = elim (Bool-cases (h.le_next x == null)) [
    | inl y ↦ rw y (le_prev-store (h.le_prev x) _ p h)
    | inr m ↦
        let h1 : Heap = set_prev (h.le_next x) (h.le_prev x) h in
        rw m (le_prev-store (h1.le_prev x) (h1.le_next x) p h1 ∙ ground arith)
  ]

  list_remove-Chain :
      (c : Cell) (pre post : List ℕ)
      → Outside c (pre ++ x ∷ post)
      → x ≢ null
      → Chain h c (pre ++ x ∷ post)
      → Chain (list_remove x h) c (pre ++ post)
  list_remove-Chain c [] post o nx chain = list_remove-here c post o chain
  list_remove-Chain c (p ∷ pre) post o nx (e, np, pp, apart, chain) =
      let d = Apart-middle p x pre post apart in
      let target = load-le_prev x h (next p) pre post chain in
      let other : c ≢ h.le_prev x = λ same. d (sym e ∙ ap (λ w. load w h) same ∙ target) in
      let p_other = le_next-ne p x h (next p) pre post np apart chain in
      (
        list_remove-load c (next_differs (next p) pre post nx chain) other ∙ e,
        np,
        list_remove-prev p p_other ∙ pp,
        Apart-remove p x pre post apart,
        list_remove-Chain (next p) pre post apart nx chain,
      )
    where
      next_differs :
          (c : Cell) (pre post : List ℕ) → x ≢ null → Chain h c (pre ++ x ∷ post) → x ≢ h.le_next x
      next_differs c [] [] nx chain = ground arith
      next_differs c [] (y ∷ post) nx chain = ground arith
      next_differs c (q ∷ pre) post nx chain = next_differs (next q) pre post nx chain.4

foreach_from-Chain :
    (fuel : ℕ) (h : Heap) (c : Cell) (xs : List ℕ)
    → length xs < fuel
    → Chain h c xs
    → foreach_from fuel (load c h) h ≡ some xs
unfolding foreach_from
foreach_from-Chain zero h c xs lt chain = absurd (omega arith)
foreach_from-Chain (suc fuel) h c [] lt chain = rw chain
foreach_from-Chain (suc fuel) h c (x ∷ xs) lt (e, nx, p, a, chain) =
    let other : (x == null) ≡ false = ground arith in
    rw (e, other, foreach_from-Chain fuel h (next x) xs (omega arith) chain)

-- LIST_FOREACH runs through the elements of the list in their order and ends, within fuel for one
-- round more than there are elements; after LIST_REMOVE of one of them it runs through the others,
-- and the links are right again.
pub list_remove-IsList :
    (fuel head x : ℕ) (h : Heap) (pre post : List ℕ)
    → length (pre ++ x ∷ post) < fuel
    → IsList h head (pre ++ x ∷ post)
    → (list_foreach fuel head h ≡ some (pre ++ x ∷ post))
      × (list_foreach fuel head (list_remove x h) ≡ some (pre ++ post))
      × IsList (list_remove x h) head (pre ++ post)
unfolding list_foreach
list_remove-IsList fuel head x h pre post lt chain =
    let left =
      list_remove-Chain x h (first head) pre post tt (not_null (first head) pre post chain) chain in
    (
      foreach_from-Chain fuel h (first head) (pre ++ x ∷ post) lt chain,
      foreach_from-Chain fuel (list_remove x h) (first head) (pre ++ post) (shorter pre post lt)
          left,
      left,
    )
  where
    not_null : (c : Cell) (pre post : List ℕ) → Chain h c (pre ++ x ∷ post) → x ≢ null
    not_null c [] post chain = chain.1
    not_null c (q ∷ pre) post chain = not_null (next q) pre post chain.4

    shorter : (pre post : List ℕ) → length (pre ++ x ∷ post) < fuel → length (pre ++ post) < fuel
    shorter pre post lt = omega (arith, length-append pre (x ∷ post), length-append pre post)
