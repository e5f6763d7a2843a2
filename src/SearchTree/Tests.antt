-- ===== src/SearchTree/Tests.antt =====
-- The walks on a tree of three numbers.
use duperemove.Prelude.{ℕ, ◌≡◌, refl, some, [], ◌∷◌}
use duperemove.Prelude.Order.{ℕ_order}
use duperemove.SearchTree.{Tree, leaf, node, in_order, map_option, find, link, insert, lookup, put}
use duperemove.SearchTree.Plain.{plain}
use duperemove.SearchTree.Sorted.{find-lookup, insert-put}

abbrev three : Tree ℕ
three = node (node leaf 2 leaf) 5 (node leaf 9 leaf)

abbrev itself : ℕ → ℕ
itself n = n

find_9 : find ℕ_order itself three 9 ≡ some 9
unfolding find
find_9 = refl

insert_7 : map_option in_order (insert ℕ_order itself (plain ℕ) 7 three) ≡ some (2 ∷ 5 ∷ 7 ∷ 9 ∷ [])
unfolding insert link
insert_7 = refl

find-lookup_example : find ℕ_order itself three 9 ≡ lookup ℕ_order itself (in_order three) 9
find-lookup_example =
    find-lookup ℕ_order itself three 9 ((refl, (refl, tt)), ((refl, tt), (tt, tt)))

insert-put_example :
    map_option in_order (insert ℕ_order itself (plain ℕ) 7 three)
    ≡ put ℕ_order itself 7 (in_order three)
insert-put_example =
    insert-put ℕ_order itself (plain ℕ) 7 three ((refl, (refl, tt)), ((refl, tt), (tt, tt)))
