-- ===== src/Filerec/Find.antt =====
-- The records of filerec.c by their number: what a new record changes, and when making one aborts.
use duperemove.Prelude.{
  ℕ, ◌%◌, ◌^◌, ◌≡◌, ◌≢◌, refl, ap, ◌∙◌, true, Option, none, some, List, [], ◌∷◌, All, arith, ◌==◌,
  ==_iff, length, Bool-cases, inl, inr,
}
use mathlib.Core.Path.{sym, subst}
use duperemove.Prelude.Int.{ℤ}
use duperemove.Prelude.Word.{add64}
use duperemove.Prelude.Outcome.{done, aborted, ◌>>=◌}
use duperemove.SearchTree.{Tree, Rbtree, find, insert, descend, in_order}
use duperemove.SearchTree.Sorted.{Sorted, split3, is_less, is_same, is_more, find-lookup}
use duperemove.SearchTree.Put.{Put, Put-Sorted}
use duperemove.SearchTree.Bag.{total, total-Put}
use duperemove.SearchTree.Insert.{insert_of_absent, insert_of_present, find-Put}
use duperemove.SearchTree.Keys.{Agree, Sorted-keys, lookup-keys}
use duperemove.Filerec.{
  Filerec, Globals, new_record, number, write, fileid_order, filerec_find, insert_filerec,
  filerec_alloc_insert, enlist, filerec_new,
}

-- The tree and the list of all records hold the same records, which are counted.
pub record Indexed (g : Globals) : Type 0 where
  pub sorted : Sorted fileid_order (number g.memory) (in_order g.filerec_by_fileid)
  pub same_records : (f : ℕ → ℕ) → total f (in_order g.filerec_by_fileid) ≡ total f g.filerec_head
  pub counted : g.num_filerecs ≡ length g.filerec_head % 2 ^ 64

-- An address that no record has.
abbrev pub IsFresh : Globals → ℕ → Type 0
IsFresh g file = All (λ a. file ≢ a) (in_order g.filerec_by_fileid)

write-Agree :
    (memory : ℕ → Filerec) (file : ℕ) (f : Filerec) (xs : List ℕ)
    → All (λ a. file ≢ a) xs
    → Agree fileid_order (number memory) (number (write memory file f)) xs
write-Agree memory file f [] fresh = tt
write-Agree memory file f (x ∷ xs) fresh = (
  (elim (Bool-cases (file == x)) [
    | inl e ↦ absurd (fresh.0 ((==_iff file x).0 e))
    | inr e ↦ rw (number, e) refl
  ]),
  write-Agree memory file f xs fresh.1,
)

-- `g'` is `g` with the record at `file`.
pub record Adds (file : ℕ) (f : Filerec) (g g' : Globals) : Type 0 where
  pub indexed : Indexed g'
  pub placed : g'.memory file ≡ f
  pub found : filerec_find g' f.fileid ≡ some file
  pub others : (k : ℤ) → k ≢ f.fileid → filerec_find g' k ≡ filerec_find g k

with_record : Globals → ℕ → Filerec → Globals
with_record g file f = record g { memory = write g.memory file f }

find_unchanged :
    (g : Globals) (file : ℕ) (f : Filerec)
    → Indexed g
    → IsFresh g file
    → (k : ℤ) → filerec_find (with_record g file f) k ≡ filerec_find g k
unfolding filerec_find with_record
find_unchanged g file f x fresh k =
    let agree = write-Agree g.memory file f (in_order g.filerec_by_fileid) fresh in
    let s =
      Sorted-keys fileid_order (number g.memory) (number (write g.memory file f)) _ agree
        x.sorted in
    find-lookup fileid_order (number (write g.memory file f)) g.filerec_by_fileid k s
    ∙ sym (
        lookup-keys fileid_order (number g.memory) (number (write g.memory file f))
          (in_order g.filerec_by_fileid) k agree)
    ∙ sym (find-lookup fileid_order (number g.memory) g.filerec_by_fileid k x.sorted)

write_here : (memory : ℕ → Filerec) (file : ℕ) (f : Filerec) → write memory file f file ≡ f
write_here memory file f = let e : (file == file) ≡ true = ground arith in rw (write, e) refl

-- Searching by the number of the record that a walk has just placed.
found_by :
    (t t' : Tree ℕ) (memory : ℕ → Filerec) (file : ℕ) (id k : ℤ)
    → number memory file ≡ id
    → Sorted fileid_order (number memory) (in_order t)
    → Put fileid_order (number memory) file (in_order t) (in_order t')
    → find fileid_order (number memory) t' k
      ≡ descend
          (fileid_order.cmp k id)
          (find fileid_order (number memory) t k)
          (some file)
          (find fileid_order (number memory) t k)
found_by t t' memory file id k e s p =
    subst
      (λ n.
        find fileid_order (number memory) t' k
        ≡ descend (fileid_order.cmp k n) (find fileid_order (number memory) t k) (some file)
            (find fileid_order (number memory) t k))
      e (find-Put fileid_order (number memory) file t t' k s p)

other_number : (k id : ℤ) (a b : Option ℕ) → k ≢ id → descend (fileid_order.cmp k id) a b a ≡ a
other_number k id a b apart = elim (split3 (fileid_order.cmp k id)) [
  | is_less e ↦ rw e refl
  | is_same e ↦ absurd (apart (fileid_order.eq_of_same k id e))
  | is_more e ↦ rw e refl
]

linked : Globals → ℕ → Filerec → Tree ℕ → Globals
linked g file f t' = record g {
  memory = write g.memory file f;
  filerec_by_fileid = t';
  filerec_head = file ∷ g.filerec_head;
  num_filerecs = add64 g.num_filerecs 1;
}

linked-Adds :
    (g : Globals) (file : ℕ) (f : Filerec) (t' : Tree ℕ)
    → Indexed g
    → IsFresh g file
    → Put fileid_order
        (number (write g.memory file f))
        file
        (in_order g.filerec_by_fileid)
        (in_order t')
    → Adds file f g (linked g file f t')
unfolding filerec_find linked with_record
linked-Adds g file f t' x fresh p =
    let t = g.filerec_by_fileid in
    let key' = number (write g.memory file f) in
    let s' =
      Sorted-keys fileid_order (number g.memory) key' _
        (write-Agree g.memory file f (in_order t) fresh) x.sorted in
    let e = ap (λ r. r.fileid) (write_here g.memory file f) in
    record {
      indexed = record {
        sorted = Put-Sorted fileid_order key' file s' p;
        same_records = λ m.
            let old = x.same_records m in
            let new = total-Put fileid_order key' m file p in omega arith;
        counted = let n = x.counted in omega arith;
      };
      placed = write_here g.memory file f;
      found =
          found_by t t' (write g.memory file f) file f.fileid f.fileid e s' p
          ∙ rw (fileid_order.cmp_refl f.fileid) refl;
      others = λ k apart.
          found_by t t' (write g.memory file f) file f.fileid k e s' p
          ∙ other_number k f.fileid _ (some file) apart
          ∙ find_unchanged g file f x fresh k;
    }

insert_filerec-some :
    (rb : Rbtree ℕ) (g : Globals) (file : ℕ) (t' : Tree ℕ)
    → insert fileid_order (number g.memory) rb file g.filerec_by_fileid ≡ some t'
    → insert_filerec rb g file ≡ done (record g { filerec_by_fileid = t' })
unfolding insert_filerec
insert_filerec-some rb g file t' e = rw (insert_filerec, e) refl

insert_filerec-none :
    (rb : Rbtree ℕ) (g : Globals) (file : ℕ)
    → insert fileid_order (number g.memory) rb file g.filerec_by_fileid ≡ none
    → insert_filerec rb g file ≡ aborted
unfolding insert_filerec
insert_filerec-none rb g file e = rw (insert_filerec, e) refl

-- When the tree of records is sorted by number and holds the same records as the list, and no
-- record has the number or the address, `filerec_new` with memory returns the new record: it is
-- found under its number, every other number finds what it found before, and the tree, the list
-- and the counter again agree.
pub filerec_new-Adds :
    (rb : Rbtree ℕ) (g : Globals) (file : ℕ) (name : List ℕ) (id : ℤ) (size : ℕ)
    → Indexed g
    → IsFresh g file
    → filerec_find g id ≡ none
    → (g' : Globals) × (filerec_new rb (some file) true g name id size ≡ done (g', some file))
      × Adds file (new_record name id size) g g'
unfolding filerec_new filerec_alloc_insert filerec_find linked with_record
filerec_new-Adds rb g file name id size x fresh absent =
    let f = new_record name id size in
    let t = g.filerec_by_fileid in
    let key' = number (write g.memory file f) in
    let s' =
      Sorted-keys fileid_order (number g.memory) key' _
        (write-Agree g.memory file f (in_order t) fresh) x.sorted in
    let nowhere = find_unchanged g file f x fresh id ∙ absent in
    let e = ap (λ r. r.fileid) (write_here g.memory file f) in
    let (t', made, p) =
      insert_of_absent fileid_order key' rb file t s'
        (subst (λ n. find fileid_order key' t n ≡ none) (sym e) nowhere) in
    (
      linked g file f t',
      ap (λ o. o >>= enlist file) (insert_filerec-some rb (with_record g file f) file t' made),
      linked-Adds g file f t' x fresh p,
    )

-- When a record with the number exists, `filerec_new` with memory at a new address aborts.
pub filerec_new-aborts :
    (rb : Rbtree ℕ) (g : Globals) (file other : ℕ) (name : List ℕ) (id : ℤ) (size : ℕ)
    → Indexed g
    → IsFresh g file
    → filerec_find g id ≡ some other
    → filerec_new rb (some file) true g name id size ≡ aborted
unfolding filerec_new filerec_alloc_insert filerec_find with_record
filerec_new-aborts rb g file other name id size x fresh there =
    let f = new_record name id size in
    let t = g.filerec_by_fileid in
    let key' = number (write g.memory file f) in
    let s' =
      Sorted-keys fileid_order (number g.memory) key' _
        (write-Agree g.memory file f (in_order t) fresh) x.sorted in
    let here = find_unchanged g file f x fresh id ∙ there in
    let e = ap (λ r. r.fileid) (write_here g.memory file f) in
    ap (λ o. o >>= enlist file)
      (insert_filerec-none rb (with_record g file f) file (
        insert_of_present fileid_order key' rb file other t s'
          (subst (λ n. find fileid_order key' t n ≡ some other) (sym e) here)))
