-- ===== src/Filerec.antt =====
-- filerec.c and filerec.h: the records of files, their reference counted descriptors, and the sets
-- of files that one dedupe run holds open. A `struct filerec *` is its address, and `Globals` has
-- the memory behind the addresses, the list and the tree of all records and the open descriptors
-- of the process. Locks and messages are not modelled; what the allocator and open(2) answer is
-- an argument.
pub mod Open
pub mod Once
pub mod Find
pub mod Free
mod Tests
use duperemove.Prelude.{
  ℕ, zero, suc, Bool, Option, none, some, List, [], ◌∷◌, ◌==◌, if◌then◌else◌, length,
}
use duperemove.Prelude.Int.{ℤ, enomem, pos, negsuc, ◌==ℤ◌}
use duperemove.Prelude.Word.{add32, sub32, add64, sub64}
use duperemove.Prelude.Order.{Order, ℕ_order, ℤ_order, reversed}
use duperemove.Prelude.Outcome.{Outcome, done, aborted, ◌>>=◌}
use duperemove.SearchTree.{Tree, Rbtree, find, insert, in_order, remove_first}

-- struct filerec; `block_tree` is in HashTree.
pub record Filerec : Type 0 where
  pub fd : ℤ
  pub fd_refs : ℕ
  pub filename : List ℕ
  pub fileid : ℤ
  pub size : ℕ

-- A token in a tree of files; struct open_once is the root of such a tree.
pub record Token : Type 0 where
  pub t_file : ℕ

pub record Globals : Type 0 where
  pub memory : ℕ → Filerec
  pub filerec_head : List ℕ
  pub filerec_by_fileid : Tree ℕ
  pub num_filerecs : ℕ
  pub open_fds : List ℕ

abbrev pub write : (ℕ → Filerec) → ℕ → Filerec → ℕ → Filerec
write memory file f other = if file == other then f else memory other

pub find_filerec_token_rb : Tree Token → ℕ → Option Token
find_filerec_token_rb root val = find ℕ_order (λ t. t.t_file) root val

pub insert_filerec_token_rb : Rbtree Token → Tree Token → Token → Outcome (Tree Token)
insert_filerec_token_rb rb root token = elim (insert ℕ_order (λ t. t.t_file) rb token root) [
  | some root' ↦ done root'
  | none ↦ aborted
]

pub filerec_token_new : Bool → ℕ → Option Token
filerec_token_new mem file = if mem then some (record { t_file = file }) else none

abbrev pub number : (ℕ → Filerec) → ℕ → ℤ
number memory file = (memory file).fileid

-- The comparison goes from large to small: a record with a smaller number sends the walk left.
abbrev pub fileid_order : Order ℤ
fileid_order = reversed ℤ_order

pub filerec_find : Globals → ℤ → Option ℕ
filerec_find g id = find fileid_order (number g.memory) g.filerec_by_fileid id

pub insert_filerec : Rbtree ℕ → Globals → ℕ → Outcome Globals
insert_filerec rb g file =
    elim (insert fileid_order (number g.memory) rb file g.filerec_by_fileid) [
      | some root ↦ done (record g { filerec_by_fileid = root })
      | none ↦ aborted
    ]

abbrev pub new_record : List ℕ → ℤ → ℕ → Filerec
new_record name id size = record {
  fd = negsuc 0;
  fd_refs = 0;
  filename = name;
  fileid = id;
  size = size;
}

-- SLIST_INSERT_HEAD and the count.
abbrev pub enlist : ℕ → Globals → Outcome (Globals × Option ℕ)
enlist file g = done (
  record g { filerec_head = file ∷ g.filerec_head; num_filerecs = add64 g.num_filerecs 1 },
  some file,
)

-- `calloc` answers an address or nothing; `dup` says whether `strdup` had memory.
pub filerec_alloc_insert :
    Rbtree ℕ → Option ℕ → Bool → Globals → List ℕ → ℤ → ℕ → Outcome (Globals × Option ℕ)
filerec_alloc_insert rb none dup g name id size = done (g, none)
filerec_alloc_insert rb (some file) dup g name id size =
    if dup
    then (insert_filerec rb (record g { memory = write g.memory file (new_record name id size) })
          file
        >>= enlist file)
    else done (g, none)

pub filerec_new :
    Rbtree ℕ → Option ℕ → Bool → Globals → List ℕ → ℤ → ℕ → Outcome (Globals × Option ℕ)
filerec_new rb mem dup g name id size = filerec_alloc_insert rb mem dup g name id size

-- SLIST_REMOVE, `rb_erase` of a node that is linked, and the count. The memory of a freed record is
-- not read again.
pub filerec_free : Rbtree ℕ → Globals → ℕ → Globals
filerec_free rb g file = record g {
  filerec_head = remove_first (λ a. a == file) g.filerec_head;
  filerec_by_fileid = rb.erase (λ a. a == file) g.filerec_by_fileid;
  num_filerecs = sub64 g.num_filerecs 1;
}

-- SLIST_FOREACH_SAFE: the next record is read before the current one is freed.
pub free_each : Rbtree ℕ → Globals → List ℕ → Globals
free_each rb g [] = g
free_each rb g (file ∷ files) = free_each rb (filerec_free rb g file) files

pub free_all_filerecs : Rbtree ℕ → Globals → Globals
free_all_filerecs rb g = free_each rb g g.filerec_head

-- What open(2) answers. An error number is positive: `errno n` is n + 1.
pub data Opened : Type 0 where
  descriptor : ℕ → Opened
  errno : ℕ → Opened

pub add_ref : Globals → ℕ → Globals
add_ref g file =
    let f = g.memory file in
    record g { memory = write g.memory file (record f { fd_refs = add32 f.fd_refs 1 }) }

pub open_file : Globals → ℕ → Opened → Globals × ℤ
open_file g file (descriptor d) =
    let f = g.memory file in
    (
      record g {
        memory = write g.memory file (record f { fd = pos d; fd_refs = add32 f.fd_refs 1 });
        open_fds = d ∷ g.open_fds;
      },
      pos 0,
    )
open_file g file (errno n) = (g, pos (suc n))

pub filerec_open : Opened → Globals → ℕ → Outcome (Globals × ℤ)
filerec_open answer g file =
    if (g.memory file).fd_refs == 0
    then (if (g.memory file).fd ==ℤ negsuc 0 then done (open_file g file answer) else aborted)
    else done (add_ref g file, pos 0)

abbrev pub descriptor_of : ℤ → ℕ
descriptor_of (pos d) = d
descriptor_of (negsuc n) = 0

pub drop_ref : Globals → ℕ → Globals
drop_ref g file =
    let f = g.memory file in
    let f' = record f { fd_refs = sub32 f.fd_refs 1 } in
    if f'.fd_refs == 0
    then record g {
      memory = write g.memory file (record f' { fd = negsuc 0 });
      open_fds = remove_first (λ d. d == descriptor_of f.fd) g.open_fds;
    }
    else record g { memory = write g.memory file f' }

pub filerec_close : Globals → ℕ → Outcome Globals
filerec_close g file =
    if (g.memory file).fd ==ℤ negsuc 0
    then aborted
    else (if (g.memory file).fd_refs == 0 then aborted else done (drop_ref g file))

-- With the token at hand: on an error it is freed and the tree is as before.
pub open_token :
    Rbtree Token
    → Opened
    → Globals
    → Tree Token
    → ℕ
    → Option Token
    → Outcome (Globals × Tree Token × ℤ)
open_token rb answer g root file none = done (g, root, enomem)
open_token rb answer g root file (some token) = filerec_open answer g file >>= λ r.
    if r.1 ==ℤ pos 0
    then (insert_filerec_token_rb rb root token >>= λ root'. done (r.0, root', pos 0))
    else done (r.0, root, r.1)

pub filerec_open_once :
    Rbtree Token → Bool → Opened → Globals → Tree Token → ℕ → Outcome (Globals × Tree Token × ℤ)
filerec_open_once rb mem answer g root file = elim (find_filerec_token_rb root file) [
  | some t ↦ done (g, root, pos 0)
  | none ↦ open_token rb answer g root file (filerec_token_new mem file)
]

-- The loop takes the first token until there is none; the fuel is the number of tokens.
pub close_loop : Rbtree Token → ℕ → Globals → Tree Token → Outcome (Globals × Tree Token)
close_loop rb zero g root = done (g, root)
close_loop rb (suc fuel) g root = elim (rb.first root) [
  | none ↦ done (g, root)
  | some t ↦ filerec_close g t.t_file >>= λ g'.
      close_loop rb fuel g' (rb.erase (λ t'. t'.t_file == t.t_file) root)
]

pub filerec_close_open_list : Rbtree Token → Globals → Tree Token → Outcome (Globals × Tree Token)
filerec_close_open_list rb g root = close_loop rb (length (in_order root)) g root
