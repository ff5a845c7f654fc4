-- ===== src/Queue/Insert.antt =====
-- inc/queue.h: the insertions are insertions into the sequence.
use jos_smp.Base.{ℕ, ◌≡◌, ◌≢◌, List, [], ◌∷◌, ◌++◌, arith, ◌∙◌, sym, subst, ap}
use jos_smp.Queue.Links.{
  Cell, first, next, Heap, null, load, update, list_insert_after, list_insert_before,
  list_insert_head,
}
use jos_smp.Queue.Chain.{
  Apart, Outside, Chain, IsList, Chain-frame, Apart-middle, Apart-insert, Apart-insert_after,
  le_next-ne, load-le_prev, load-store_ne,
}

-- An element of the list differs from one that is apart from it.
pub ne_of_inside : (z x : ℕ) (xs : List ℕ) → (Apart z xs → ⊥) → Apart x xs → z ≢ x
ne_of_inside z x xs inside a e = inside (subst (λ w. Apart w xs) (sym e) a)

module _ (l x : ℕ) (h : Heap) (nx : x ≢ null) (d : x ≢ l) where
  insert_after-tail :
      (y : ℕ) (ys : List ℕ)
      → Apart x (y ∷ ys)
      → Apart l (y ∷ ys)
      → h.le_next l ≡ y
      → y ≢ null
      → Apart y ys
      → Chain h (next y) ys
      → Chain (list_insert_after l x h) (next y) ys
  unfolding list_insert_after
  insert_after-tail y ys ax al e ny ay chain =
      Chain-frame h (list_insert_after l x h) (next y) ys (ground arith)
        (λ z inside.
          let nl : z ≢ l = ne_of_inside z l ys inside al.1 in
          let nx' : z ≢ x = ne_of_inside z x ys inside ax.1 in
          let ny' : z ≢ y = ne_of_inside z y ys inside ay in ground arith)
        chain

  insert_after-here :
      (c : Cell) (post : List ℕ)
      → Outside c (l ∷ x ∷ [])
      → Apart x post
      → Chain h c (l ∷ post)
      → Chain (list_insert_after l x h) c (l ∷ x ∷ post)
  unfolding list_insert_after
  insert_after-here (first k) [] o ax (e, nl, p, al, end) = ground arith
  insert_after-here (next q) [] o ax (e, nl, p, al, end) = ground arith
  insert_after-here (first k) (y ∷ ys) o ax (e, nl, p, al, (e', ny, p', ay, chain)) =
      ground (arith, insert_after-tail y ys ax al e' ny ay chain)
  insert_after-here (next q) (y ∷ ys) o ax (e, nl, p, al, (e', ny, p', ay, chain)) =
      ground (arith, insert_after-tail y ys ax al e' ny ay chain)

  insert_after-load :
      (c : Cell) → Outside c (l ∷ x ∷ []) → load c (list_insert_after l x h) ≡ load c h
  unfolding list_insert_after
  insert_after-load (first k) o = ground arith
  insert_after-load (next q) o = ground arith

  insert_after-prev :
      (p : ℕ) → p ≢ x → p ≢ h.le_next l → (list_insert_after l x h).le_prev p ≡ h.le_prev p
  unfolding list_insert_after
  insert_after-prev p n n' = ground arith

  insert_after-Chain :
      (c : Cell) (pre post : List ℕ)
      → Outside c (l ∷ x ∷ [])
      → Apart x (pre ++ l ∷ post)
      → Chain h c (pre ++ l ∷ post)
      → Chain (list_insert_after l x h) c (pre ++ l ∷ x ∷ post)
  insert_after-Chain c [] post o ax chain = insert_after-here c post o ax.1 chain
  insert_after-Chain c (p ∷ pre) post o ax (e, np, pp, ap, chain) =
      let nl = Apart-middle p l pre post ap in
      let nx' : p ≢ x = λ e. ax.0 (sym e) in
      (
        insert_after-load c o ∙ e,
        np,
        insert_after-prev p nx' (le_next-ne p l h (next p) pre post np ap chain) ∙ pp,
        Apart-insert_after p l x pre post ap nx',
        insert_after-Chain (next p) pre post (nl, (nx', tt)) ax.1 chain,
      )

  insert_before-tail :
      (c : Cell) (post : List ℕ)
      → Outside c (l ∷ post)
      → Apart x post
      → h.le_prev l ≡ c
      → Apart l post
      → Chain h (next l) post
      → Chain (list_insert_before l x h) (next l) post
  unfolding list_insert_before
  insert_before-tail (first k) post o ax p al chain =
      Chain-frame h (list_insert_before l x h) (next l) post (ground arith)
        (λ z inside.
          let nl : z ≢ l = ne_of_inside z l post inside al in
          let nx' : z ≢ x = ne_of_inside z x post inside ax in ground arith)
        chain
  insert_before-tail (next q) post o ax p al chain =
      Chain-frame h (list_insert_before l x h) (next l) post (ground arith)
        (λ z inside.
          let nl : z ≢ l = ne_of_inside z l post inside al in
          let nx' : z ≢ x = ne_of_inside z x post inside ax in
          let nq : z ≢ q = ne_of_inside z q post inside o.1 in ground arith)
        chain

  insert_before-here :
      (c : Cell) (post : List ℕ)
      → Outside c (x ∷ l ∷ post)
      → Apart x post
      → Chain h c (l ∷ post)
      → Chain (list_insert_before l x h) c (x ∷ l ∷ post)
  unfolding list_insert_before
  insert_before-here (first k) post o ax (e, nl, p, al, chain) =
      ground (arith, insert_before-tail (first k) post tt ax p al chain)
  insert_before-here (next q) post o ax (e, nl, p, al, chain) =
      ground (arith, insert_before-tail (next q) post o.1 ax p al chain)

  insert_before-load :
      (c : Cell)
      → Outside c (x ∷ [])
      → c ≢ h.le_prev l
      → load c (list_insert_before l x h) ≡ load c h
  unfolding list_insert_before
  insert_before-load (first k) o n =
      let w : update h.le_prev x (h.le_prev l) l ≡ h.le_prev l = ground arith in
      rw w (load-store_ne (first k) (h.le_prev l) x _ n ∙ ground arith)
  insert_before-load (next q) o n =
      let w : update h.le_prev x (h.le_prev l) l ≡ h.le_prev l = ground arith in
      rw w (load-store_ne (next q) (h.le_prev l) x _ n ∙ ground arith)

  insert_before-prev : (p : ℕ) → p ≢ x → p ≢ l → (list_insert_before l x h).le_prev p ≡ h.le_prev p
  unfolding list_insert_before
  insert_before-prev p n n' = ground arith

  Outside-head : (c : Cell) (xs : List ℕ) → Outside c (x ∷ xs) → Outside c (x ∷ [])
  Outside-head (first k) xs o = tt
  Outside-head (next q) xs o = (o.0, tt)

  insert_before-Chain :
      (c : Cell) (pre post : List ℕ)
      → Outside c (x ∷ pre ++ l ∷ post)
      → Apart x (pre ++ l ∷ post)
      → Chain h c (pre ++ l ∷ post)
      → Chain (list_insert_before l x h) c (pre ++ x ∷ l ∷ post)
  insert_before-Chain c [] post o ax chain = insert_before-here c post o ax.1 chain
  insert_before-Chain c (p ∷ pre) post o ax (e, np, pp, apart, chain) =
      let nl = Apart-middle p l pre post apart in
      let nx' : p ≢ x = λ e. ax.0 (sym e) in
      let target = load-le_prev l h (next p) pre post chain in
      let other : c ≢ h.le_prev l = λ same. nl (sym e ∙ ap (λ w. load w h) same ∙ target) in
      (
        insert_before-load c (Outside-head c (p ∷ pre ++ l ∷ post) o) other ∙ e,
        np,
        insert_before-prev p nx' nl ∙ pp,
        Apart-insert p x pre (l ∷ post) apart nx',
        insert_before-Chain (next p) pre post (nx', apart) ax.1 chain,
      )

module _ (head x : ℕ) (h : Heap) (nx : x ≢ null) where
  insert_head-IsList :
      (xs : List ℕ)
      → Apart x xs
      → IsList h head xs
      → IsList (list_insert_head head x h) head (x ∷ xs)
  unfolding list_insert_head
  insert_head-IsList [] ax chain = ground arith
  insert_head-IsList (y ∷ ys) ax (e, ny, p, ay, chain) = ground (
    arith,
    Chain-frame h (list_insert_head head x h) (next y) ys (ground arith)
        (λ z inside.
          let nx' : z ≢ x = ne_of_inside z x ys inside ax.1 in
          let ny' : z ≢ y = ne_of_inside z y ys inside ay in ground arith)
        chain,
  )

-- LIST_INSERT_HEAD puts a new element before all others of any list at a head, the empty one
-- included. In a list with an element `l`, LIST_INSERT_AFTER puts it behind `l` and LIST_INSERT_BEFORE
-- before it. All the links are right again.
pub insert-IsList :
    (head l x : ℕ) (g h : Heap) (xs pre post : List ℕ)
    → x ≢ null
    → Apart x xs
    → IsList g head xs
    → Apart x (pre ++ l ∷ post)
    → IsList h head (pre ++ l ∷ post)
    → IsList (list_insert_head head x g) head (x ∷ xs)
      × IsList (list_insert_after l x h) head (pre ++ l ∷ x ∷ post)
      × IsList (list_insert_before l x h) head (pre ++ x ∷ l ∷ post)
insert-IsList head l x g h xs pre post nx ag cg a chain =
    let d = Apart-middle x l pre post a in
    (
      insert_head-IsList head x g nx xs ag cg,
      insert_after-Chain l x h nx d (first head) pre post tt a chain,
      insert_before-Chain l x h nx d (first head) pre post tt a chain,
    )
