-- ===== src/Queue/Tests.antt =====
-- inc/queue.h: each theorem at a list of three elements.
use jos_smp.Base.{◌≡◌, ◌==◌, refl, arith, [], ◌∷◌, some, if◌then◌else◌}
use jos_smp.Queue.Links.{
  first, next, Heap, list_insert_head, list_insert_after, list_insert_before, list_remove,
  list_foreach, list_init,
}
use jos_smp.Queue.Chain.{IsList}
use jos_smp.Queue.Insert.{insert-IsList}
use jos_smp.Queue.Remove.{list_remove-IsList}

-- The list 5, 7, 9 at head 0; nothing else is linked.
abbrev three : Heap
three = record {
  lh_first = λ k. if k == 0 then 5 else 0;
  le_next = λ e. if e == 5 then 7 else if e == 7 then 9 else 0;
  le_prev = λ e. if e == 5 then first 0 else if e == 7 then next 5 else next 7;
}

three-IsList : IsList three 0 (5 ∷ 7 ∷ 9 ∷ [])
three-IsList = ground arith

-- An empty list at head 0.
abbrev nothing : Heap
nothing = record { lh_first = λ k. 0; le_next = λ e. 0; le_prev = λ e. first 0 }

-- The calls of the source's own example.
inserted :
    list_foreach 9 0 (list_remove 7 (list_insert_before 9 4 (list_insert_after 5 3 three)))
    ≡ some (5 ∷ 3 ∷ 4 ∷ 9 ∷ [])
unfolding list_foreach list_remove list_insert_before list_insert_after
inserted = refl

cleared : list_foreach 1 0 (list_init 0 three) ≡ some []
unfolding list_foreach list_init
cleared = refl

insert-IsList_example :
    IsList (list_insert_head 0 4 nothing) 0 (4 ∷ [])
    × IsList (list_insert_after 7 4 three) 0 (5 ∷ 7 ∷ 4 ∷ 9 ∷ [])
    × IsList (list_insert_before 7 4 three) 0 (5 ∷ 4 ∷ 7 ∷ 9 ∷ [])
insert-IsList_example =
    insert-IsList 0 7 4 nothing three [] (5 ∷ []) (9 ∷ []) (omega arith) tt refl (omega arith)
      three-IsList

list_remove-IsList_example :
    (list_foreach 4 0 three ≡ some (5 ∷ 7 ∷ 9 ∷ []))
    × (list_foreach 4 0 (list_remove 7 three) ≡ some (5 ∷ 9 ∷ []))
    × IsList (list_remove 7 three) 0 (5 ∷ 9 ∷ [])
list_remove-IsList_example =
    list_remove-IsList 4 0 7 three (5 ∷ []) (9 ∷ []) (omega arith) three-IsList
