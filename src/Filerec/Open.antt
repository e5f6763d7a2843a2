-- ===== src/Filerec/Open.antt =====
-- The descriptors of filerec.c: the count of references to a file's descriptor, and the files that
-- a dedupe run holds open, each by one token.
use duperemove.Prelude.{
  ℕ, ◌+◌, ◌^◌, ◌<◌, ◌≤◌, ◌≡◌, ◌⊎◌, inl, inr, refl, ◌∙◌, false, arith, ◌==◌, ==_iff, if◌then◌else◌,
  Bool-cases,
}
use mathlib.Core.Path.{sym}
use duperemove.Prelude.Int.{ℤ, pos, negsuc, ◌==ℤ◌}
use duperemove.Prelude.Word.{add32, sub32}
use duperemove.Prelude.Order.{ℕ_order}
use duperemove.Prelude.Outcome.{done}
use duperemove.SearchTree.{Tree, in_order}
use duperemove.SearchTree.Sorted.{Sorted}
use duperemove.SearchTree.Bag.{total}
use duperemove.Filerec.{
  Filerec, Token, Globals, Opened, descriptor, errno, filerec_open, filerec_close, drop_ref,
  add_ref, open_file, write,
}

-- One when the two files are the same one.
abbrev pub same_file : ℕ → ℕ → ℕ
same_file a b = if a == b then 1 else 0

abbrev pub refs : Globals → ℕ → ℕ
refs g file = (g.memory file).fd_refs

-- How many tokens of a tree are for the file.
abbrev pub tokens : Tree Token → ℕ → ℕ
tokens root file = total (λ t. same_file t.t_file file) (in_order root)

-- A record has a descriptor exactly while it is referred to.
abbrev pub IsTidy : Filerec → Type 0
IsTidy f = ((f.fd ==ℤ negsuc 0) ≡ (f.fd_refs == 0)) × (f.fd_refs < 2 ^ 32)

-- Each token of the tree accounts for one reference to its file.
pub record Holds (g : Globals) (root : Tree Token) : Type 0 where
  pub sorted : Sorted ℕ_order (λ t. t.t_file) (in_order root)
  pub tidy : (file : ℕ) → IsTidy (g.memory file)
  pub covered : (file : ℕ) → tokens root file ≤ refs g file

next_not_zero : (n : ℕ) → n + 1 < 2 ^ 32 → (add32 n 1 == 0) ≡ false
next_not_zero n h = ground arith

not_zero : (n : ℕ) → 0 < n → (n == 0) ≡ false
not_zero n h = ground arith

write-IsTidy :
    (memory : ℕ → Filerec) (file : ℕ) (f : Filerec)
    → ((a : ℕ) → IsTidy (memory a))
    → IsTidy f
    → (a : ℕ) → IsTidy (write memory file f a)
write-IsTidy memory file f tidy h a = elim (Bool-cases (file == a)) [
  | inl e ↦ rw e h
  | inr e ↦ rw e (tidy a)
]

write-more :
    (memory : ℕ → Filerec) (file : ℕ) (f : Filerec)
    → f.fd_refs ≡ 1 + (memory file).fd_refs
    → (a : ℕ) → (write memory file f a).fd_refs ≡ same_file file a + (memory a).fd_refs
write-more memory file f h a = elim (Bool-cases (file == a)) [
  | inl e ↦ rw (e, sym ((==_iff file a).0 e)) h
  | inr e ↦ rw e (omega arith)
]

write-less :
    (memory : ℕ → Filerec) (file : ℕ) (f : Filerec)
    → 1 + f.fd_refs ≡ (memory file).fd_refs
    → (a : ℕ) → same_file file a + (write memory file f a).fd_refs ≡ (memory a).fd_refs
write-less memory file f h a = elim (Bool-cases (file == a)) [
  | inl e ↦ rw (e, sym ((==_iff file a).0 e)) h
  | inr e ↦ rw e (omega arith)
]

-- What a call of `filerec_open` leaves: one more reference to the file, or an error and no change.
pub record Opens (file : ℕ) (g g' : Globals) (ret : ℤ) : Type 0 where
  pub tidy : (a : ℕ) → IsTidy (g'.memory a)
  pub outcome :
      ((ret ≡ pos 0) × ((a : ℕ) → refs g' a ≡ same_file file a + refs g a))
      ⊎ (((ret ==ℤ pos 0) ≡ false) × (g' ≡ g))

open_file-Opens :
    (answer : Opened) (g : Globals) (file : ℕ)
    → ((a : ℕ) → IsTidy (g.memory a))
    → refs g file + 1 < 2 ^ 32
    → Opens file g (open_file g file answer).0 (open_file g file answer).1
unfolding open_file
open_file-Opens (descriptor d) g file tidy few = record {
  tidy = write-IsTidy g.memory file _ tidy (sym (next_not_zero _ few), omega arith);
  outcome = inl (refl, write-more g.memory file _ (omega arith));
}
open_file-Opens (errno n) g file tidy few = record {
  tidy = tidy;
  outcome = inr (ground arith, refl);
}

add_ref-Opens :
    (g : Globals) (file : ℕ)
    → ((a : ℕ) → IsTidy (g.memory a))
    → refs g file + 1 < 2 ^ 32
    → (refs g file == 0) ≡ false
    → Opens file g (add_ref g file) (pos 0)
unfolding add_ref
add_ref-Opens g file tidy few in_use = record {
  tidy =
      write-IsTidy g.memory file _ tidy
        ((tidy file).0 ∙ in_use ∙ sym (next_not_zero _ few), omega arith);
  outcome = inl (refl, write-more g.memory file _ (omega arith));
}

-- `filerec_open` of a tidy file returns.
pub filerec_open-Opens :
    (answer : Opened) (g : Globals) (file : ℕ)
    → ((a : ℕ) → IsTidy (g.memory a))
    → refs g file + 1 < 2 ^ 32
    → (g' : Globals) × (ret : ℤ) × (filerec_open answer g file ≡ done (g', ret))
      × Opens file g g' ret
unfolding filerec_open
filerec_open-Opens answer g file tidy few = elim (Bool-cases (refs g file == 0)) [
  | inl e ↦ (
    (open_file g file answer).0,
    (open_file g file answer).1,
    rw (e, (tidy file).0 ∙ e) refl,
    open_file-Opens answer g file tidy few,
  )
  | inr e ↦ (add_ref g file, pos 0, rw e refl, add_ref-Opens g file tidy few e)
]

pub drop_ref-IsTidy :
    (g : Globals) (file : ℕ)
    → ((a : ℕ) → IsTidy (g.memory a))
    → 0 < refs g file
    → (a : ℕ) → IsTidy ((drop_ref g file).memory a)
unfolding drop_ref
drop_ref-IsTidy g file tidy some_ref = elim (Bool-cases (sub32 (refs g file) 1 == 0)) [
  | inl e ↦ rw e (write-IsTidy g.memory file _ tidy (sym e, omega arith))
  | inr e ↦
      rw e (
        write-IsTidy g.memory file _ tidy
          ((tidy file).0 ∙ not_zero _ some_ref ∙ sym e, omega arith))
]

pub drop_ref-refs :
    (g : Globals) (file : ℕ)
    → 0 < refs g file
    → refs g file < 2 ^ 32
    → (a : ℕ) → same_file file a + refs (drop_ref g file) a ≡ refs g a
unfolding drop_ref
drop_ref-refs g file some_ref word = elim (Bool-cases (sub32 (refs g file) 1 == 0)) [
  | inl e ↦ rw e (write-less g.memory file _ (omega arith))
  | inr e ↦ rw e (write-less g.memory file _ (omega arith))
]

pub filerec_close_lem :
    (g : Globals) (file : ℕ)
    → ((a : ℕ) → IsTidy (g.memory a))
    → 0 < refs g file
    → filerec_close g file ≡ done (drop_ref g file)
unfolding filerec_close
filerec_close_lem g file tidy some_ref =
    let in_use = not_zero _ some_ref in rw ((tidy file).0 ∙ in_use, in_use) refl
