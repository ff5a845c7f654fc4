-- ===== src/Queue/Links.antt =====
-- inc/queue.h: the LIST macros. A heap holds the heads' `lh_first` and the elements' links; an
-- element is a number, NULL is 0. `le_prev` points at a cell that holds a pointer to an element: a
-- head's `lh_first`, or an element's `le_next`.
use jos_smp.Base.{ℕ, zero, suc, Bool, List, [], ◌∷◌, ◌==◌, Option, none, some, if◌then◌else◌}
use mathlib.Core.Option

pub data Cell : Type 0 where
  first : ℕ → Cell
  next : ℕ → Cell

pub record Heap : Type 0 where
  pub lh_first : ℕ → ℕ
  pub le_next : ℕ → ℕ
  pub le_prev : ℕ → Cell

abbrev pub null : ℕ
null = 0

abbrev pub update : {A : Type 0} → (ℕ → A) → ℕ → A → ℕ → A
update f e v a = if a == e then v else f a

-- `*cell`
abbrev pub load : Cell → Heap → ℕ
load (first head) h = h.lh_first head
load (next elm) h = h.le_next elm

-- `*cell = v`
abbrev pub store : Cell → ℕ → Heap → Heap
store (first head) v h = record h { lh_first = update h.lh_first head v }
store (next elm) v h = record h { le_next = update h.le_next elm v }

-- `elm->field.le_prev = cell`
abbrev pub set_prev : ℕ → Cell → Heap → Heap
set_prev elm cell h = record h { le_prev = update h.le_prev elm cell }

unfoldable pub list_empty : ℕ → Heap → Bool
list_empty head h = h.lh_first head == null

unfoldable pub list_init : ℕ → Heap → Heap
list_init head h = store (first head) null h

unfoldable pub list_insert_after : ℕ → ℕ → Heap → Heap
list_insert_after listelm elm h =
    let h1 = store (next elm) (load (next listelm) h) h in
    let h2 =
      if load (next elm) h1 == null then h1 else set_prev (load (next listelm) h1) (next elm) h1 in
    set_prev elm (next listelm) (store (next listelm) elm h2)

unfoldable pub list_insert_before : ℕ → ℕ → Heap → Heap
list_insert_before listelm elm h =
    let h1 = set_prev elm (h.le_prev listelm) h in
    let h2 = store (next elm) listelm h1 in
    set_prev listelm (next elm) (store (h2.le_prev listelm) elm h2)

unfoldable pub list_insert_head : ℕ → ℕ → Heap → Heap
list_insert_head head elm h =
    let h1 = store (next elm) (load (first head) h) h in
    let h2 =
      if load (next elm) h1 == null then h1 else set_prev (load (first head) h1) (next elm) h1 in
    set_prev elm (first head) (store (first head) elm h2)

unfoldable pub list_remove : ℕ → Heap → Heap
list_remove elm h =
    let h1 =
      if load (next elm) h == null then h else set_prev (load (next elm) h) (h.le_prev elm) h in
    store (h1.le_prev elm) (load (next elm) h1) h1

-- LIST_FOREACH on fuel: the elements that `var` runs through from `elm` on.
unfoldable pub foreach_from : ℕ → ℕ → Heap → Option (List ℕ)
foreach_from zero elm h = none
foreach_from (suc fuel) elm h =
    let rest = Option.map (λ xs. elm ∷ xs) (foreach_from fuel (load (next elm) h) h) in
    if elm == null then some [] else rest

unfoldable pub list_foreach : ℕ → ℕ → Heap → Option (List ℕ)
unfolding foreach_from
list_foreach fuel head h = foreach_from fuel (load (first head) h) h
