-- ===== src/RunDedupe/Ready.antt =====
-- What the loop of dedupe_extent_list keeps: each open file is accounted for by a token, and a context is
-- filled below its limit. From the label close_files on.
use duperemove.Prelude.{
  ℕ, ◌+◌, ◌^◌, ◌<◌, ◌≤◌, ◌≡◌, ◌≢◌, ◌⊎◌, refl, ap, ◌∙◌, Bool, true, false, Option, none, some, List,
  [], ◌∷◌, All, arith, ◌==◌, ==_iff, length, Bool-cases, inl, inr,
}
use mathlib.Core.Path.{sym, subst}
use duperemove.Prelude.Int.{ℤ, pos, enomem, ◌==ℤ◌}
use duperemove.Prelude.Order.{ℕ_order, cmp_ℕ, less}
use duperemove.Prelude.Outcome.{Outcome, done, ◌>>=◌, bind-done}
use duperemove.SearchTree.{Tree, Rbtree, in_order}
use duperemove.SearchTree.Sorted.{Sorted}
use duperemove.SearchTree.Bag.{total}
use duperemove.Filerec.{Token, Globals, Opened, filerec_open_once, filerec_close_open_list}
use duperemove.Filerec.Open.{refs, tokens, same_file, Holds}
use duperemove.Filerec.Once.{
  filerec_open_once-OpensOnce, ClosesAll, filerec_close_open_list-ClosesAll,
}
use duperemove.Dedupe.{DedupeCtxt}
use duperemove.Dedupe.Queue.{Filling}
use duperemove.RunDedupe.{Loop, Left, behind, out}

-- A context that is being filled, for the length of the record.
abbrev pub FillsFor : ℕ → DedupeCtxt → Type 0
FillsFor len c = Filling c × (c.orig_len ≡ len)

-- Room for another request.
abbrev pub HasRoom : ℕ → DedupeCtxt → Type 0
HasRoom len c = FillsFor len c × (length c.queued < c.max_queable)

abbrev pub CtxtReady : ℕ → Option DedupeCtxt → Type 0
CtxtReady len none = Unit
CtxtReady len (some c) = HasRoom len c

-- The references of a file are those before the call, and one for its token.
pub record Accounted (g0 g : Globals) (root : Tree Token) : Type 0 where
  pub held : Holds g root
  pub account : (a : ℕ) → refs g a ≡ refs g0 a + tokens root a

-- With the session of the engine in a state that the engine can work from.
abbrev pub Steady : {S : Type 0} → Globals → (S → Type 0) → Globals → Tree Token → S → Type 0
Steady g0 Sound g root s = Accounted g0 g root × Sound s

pub record IsReady {S : Type 0} (g0 : Globals) (Sound : S → Type 0) (len : ℕ) (st : Loop S)
    : Type 0 where
  pub files : Steady g0 Sound st.globals st.open_files st.session
  pub filling : CtxtReady len st.ctxt
  pub no_target : st.tgt_extent ≡ none → (st.ctxt ≡ none) × (in_order st.open_files ≡ [])

-- Every file is closed and no context is left.
pub record IsClosed {S : Type 0} (st : Loop S) : Type 0 where
  pub no_ctxt : st.ctxt ≡ none
  pub no_files : in_order st.open_files ≡ []

abbrev pub LeftReady : {S : Type 0} → Globals → Left S → Type 0
LeftReady g0 (behind st) = Accounted g0 st.globals st.open_files × IsClosed st
LeftReady g0 (out ret st) = Accounted g0 st.globals st.open_files × (ret ≡ enomem)

abbrev pub Leaves : {S : Type 0} → Globals → Outcome (Left S) → Type 0
Leaves {S} g0 r = (l : Left S) × (r ≡ done l) × LeftReady g0 l

-- A step that goes on with what a call returns.
pub after :
    {S A : Type 0} {g0 : Globals} (m : Outcome A) (x : A) (f : A → Outcome (Left S))
    → m ≡ done x
    → Leaves g0 (f x)
    → Leaves g0 (m >>= f)
after m x f e (l, run, ready) = (l, bind-done m x f e ∙ run, ready)

-- The engine returns for each context that has a request.
abbrev pub Engages :
    {S : Type 0} → (S → Type 0) → ℕ → ((ℕ → ℤ) → S → DedupeCtxt → Outcome (S × ℕ)) → Type 0
Engages {S} Sound len dedupe =
    (fds : ℕ → ℤ) (s : S) (c : DedupeCtxt)
    → Sound s
    → FillsFor len c
    → c.queued ≢ []
    → (s' : S) × (bytes : ℕ) × (dedupe fds s c ≡ done (s', bytes)) × Sound s'

-- What the rest of the loop does, if there is any.
abbrev pub GoesOn :
    {S : Type 0} → Globals → (S → Type 0) → ℕ → Bool → (Loop S → Outcome (Left S)) → Type 0
GoesOn {S} g0 Sound len last again =
    (st : Loop S) → IsReady g0 Sound len st → (last ≡ true → IsClosed st) → Leaves g0 (again st)

apart : (a b : ℕ) → cmp_ℕ a b ≡ less → same_file b a ≡ 0
apart a b h = ground arith

none_behind :
    (ts : List Token) (a : ℕ)
    → All (λ t. cmp_ℕ a t.t_file ≡ less) ts
    → total (λ t. same_file t.t_file a) ts ≡ 0
none_behind [] a h = refl
none_behind (t ∷ ts) a h =
    let first = apart a t.t_file h.0 in let rest = none_behind ts a h.1 in omega arith

one_token :
    (ts : List Token) (file : ℕ)
    → Sorted ℕ_order (λ t. t.t_file) ts
    → total (λ t. same_file t.t_file file) ts ≤ 1
one_token [] file s = omega arith
one_token (t ∷ ts) file s = elim (Bool-cases (t.t_file == file)) [
  | inl it ↦
      let others =
        subst (λ n. total (λ t. same_file t.t_file n) ts ≡ 0) ((==_iff t.t_file file).0 it)
          (none_behind ts t.t_file s.0) in
      let one : same_file t.t_file file ≡ 1 = rw it refl in omega arith
  | inr other ↦
      let none_here : same_file t.t_file file ≡ 0 = rw other refl in
      let rest = one_token ts file s.1 in omega arith
]

-- Room for two more references to each file.
abbrev pub FewRefs : Globals → Type 0
FewRefs g = (a : ℕ) → refs g a + 2 < 2 ^ 32

-- Opening a file once keeps the account.
pub open_once-Accounted :
    (rb : Rbtree Token) (mem : Bool) (answer : Opened) (g0 g : Globals) (root : Tree Token)
    (file : ℕ)
    → FewRefs g0
    → Accounted g0 g root
    → (g' : Globals) × (root' : Tree Token) × (ret : ℤ) × (filerec_open_once rb mem answer g root
          file
        ≡ done (g', root', ret))
      × Accounted g0 g' root'
      × ((ret ≡ pos 0) ⊎ (((ret ==ℤ pos 0) ≡ false) × (root' ≡ root)))
open_once-Accounted rb mem answer g0 g root file few v =
    let room = few file in
    let now = v.account file in
    let one = one_token (in_order root) file v.held.sorted in
    let (g', root', ret, run, o) =
      filerec_open_once-OpensOnce rb mem answer g root file v.held (omega arith) in
    (
      g',
      root',
      ret,
      run,
      record {
        held = o.held;
        account = λ a. let old = v.account a in let new = o.account a in omega arith;
      },
      elim o.outcome [
        | inl (good, there) ↦ inl good
        | inr (bad, same_globals, same_root) ↦ inr (bad, same_root)
      ],
    )

closed-Accounted :
    (g0 g g' : Globals) (root root' : Tree Token)
    → Accounted g0 g root
    → ClosesAll g g' root root'
    → Accounted g0 g' root'
closed-Accounted g0 g g' root root' v c =
    let no_tokens : (a : ℕ) → tokens root' a ≡ 0 =
      λ a. ap (total (λ t. same_file t.t_file a)) c.empty in
    record {
      held = record {
        sorted = subst (Sorted ℕ_order (λ t. t.t_file)) (sym c.empty) tt;
        tidy = c.tidy;
        covered = λ a. let none_left = no_tokens a in omega arith;
      };
      account = λ a.
          let none_left = no_tokens a in
          let old = v.account a in let all = c.account a in omega arith;
    }

pub close_list-Accounted :
    (rb : Rbtree Token) (g0 g : Globals) (root : Tree Token)
    → Accounted g0 g root
    → (g' : Globals) × (root' : Tree Token) × (filerec_close_open_list rb g root ≡ done (g', root'))
      × Accounted g0 g' root'
      × (in_order root' ≡ [])
close_list-Accounted rb g0 g root v =
    let (g', root', run, c) = filerec_close_open_list-ClosesAll rb g root v.held in
    (g', root', run, closed-Accounted g0 g g' root root' v c, c.empty)
