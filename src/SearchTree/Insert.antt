-- ===== src/SearchTree/Insert.antt =====
-- Insertion into a tree and the removal of a node, as the callers of the walks use them.
use duperemove.Prelude.{◌≡◌, refl, ap, ◌∙◌, Option, none, some, List}
use duperemove.Prelude.Order.{Order}
use duperemove.SearchTree.{Tree, in_order, Rbtree, descend, map_option, find, insert}
use duperemove.SearchTree.Sorted.{Sorted, find-lookup, insert-put}
use duperemove.SearchTree.Put.{Put, put-Put, Put-Sorted, lookup-Put, put_of_absent, put_of_present}
use mathlib.Core.Path.{sym}

module _ {ℓ κ} {K : Type κ} {A : Type ℓ} (o : Order K) (key : A → K) where
  some_of_in_order :
      (p : Option (Tree A)) (l : List A)
      → map_option in_order p ≡ some l
      → (t : Tree A) × (p ≡ some t) × (l ≡ in_order t)
  some_of_in_order none l e = cc
  some_of_in_order (some t) l e = (t, refl, cc)

  none_of_in_order : (p : Option (Tree A)) → map_option in_order p ≡ none → p ≡ none
  none_of_in_order none e = refl
  none_of_in_order (some t) e = cc

  pub insert_of_absent :
      (rb : Rbtree A) (a : A) (t : Tree A)
      → Sorted o key (in_order t)
      → find o key t (key a) ≡ none
      → (t' : Tree A) × (insert o key rb a t ≡ some t') × Put o key a (in_order t) (in_order t')
  insert_of_absent rb a t s absent =
      let listed =
        put_of_absent o key a (in_order t) s (sym (find-lookup o key t (key a) s) ∙ absent) in
      let made =
        some_of_in_order (insert o key rb a t) listed.0 (insert-put o key rb a t s ∙ listed.1) in
      (made.0, made.1, put-Put o key a (in_order t) (in_order made.0) (listed.1 ∙ ap some made.2))

  pub insert_of_present :
      (rb : Rbtree A) (a b : A) (t : Tree A)
      → Sorted o key (in_order t)
      → find o key t (key a) ≡ some b
      → insert o key rb a t ≡ none
  insert_of_present rb a b t s present = none_of_in_order (insert o key rb a t) (
      insert-put o key rb a t s
      ∙ put_of_present o key a b (in_order t) (sym (find-lookup o key t (key a) s) ∙ present))

  -- After an insertion a walk finds the new element under its key and the others as before.
  pub find-Put :
      (a : A) (t t' : Tree A) (k : K)
      → Sorted o key (in_order t)
      → Put o key a (in_order t) (in_order t')
      → find o key t' k ≡ descend (o.cmp k (key a)) (find o key t k) (some a) (find o key t k)
  find-Put a t t' k s p =
      rw (find-lookup o key t k s)
        (find-lookup o key t' k (Put-Sorted o key a s p) ∙ lookup-Put o key a k s p)
