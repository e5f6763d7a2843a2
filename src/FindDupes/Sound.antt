-- ===== src/FindDupes/Sound.antt =====
-- What compare_extents records: which blocks a match has, and where its range begins.
use duperemove.Prelude.{
  ℕ, ◌≡◌, ◌≢◌, refl, ap, ◌∙◌, Bool, true, false, not, ◌&&◌, Option, none, some, List, [], ◌∷◌,
  arith, ltb, if◌then◌else◌, Bool-cases, Option-cases, inl, inr,
}
use mathlib.Core.Path.{sym, subst}
use mathlib.Core.Option.{some-injective}
use duperemove.FindDupes.{
  visit, last_of, Block, Cursor, cursor, Matched, same_parent, fast_forward, contiguous,
  match_blocks,
}

not_left : (s t : Bool) → (not s && t) ≡ true → s ≡ false
not_left true t e = sym e
not_left false t e = refl

pub none_not_some : {p : Cursor × Cursor} → ◌≢◌ {A = Option (Cursor × Cursor)} none (some p)
none_not_some e = cc

-- Pairs of blocks that differ, up to the pair at which the search for a match ends.
pub data Skips (extent_end : ℕ) : Cursor → Cursor → Cursor → Cursor → Type 0 where
  at_once : (o b : Cursor) → Skips extent_end o b o b
  skip :
      (o o' b b' : Block) (os bs : List Block) (eo eb : Cursor)
      → same_parent b o ≡ false
      → Skips extent_end (cursor o' os) (cursor b' bs) eo eb
      → Skips extent_end (cursor o (o' ∷ os)) (cursor b (b' ∷ bs)) eo eb

-- Pairs of equal blocks that follow one another in both files, up to the last pair.
pub data EqualRun (blocksize : ℕ) (hash : ℕ → ℕ) (extent_end : ℕ)
    : Cursor → Cursor → Cursor → Cursor → List ℕ → Type 0 where
  one_pair :
      (o b : Cursor)
      → same_parent b.at o.at ≡ true
      → ltb b.at.b_loff extent_end ≡ true
      → EqualRun blocksize hash extent_end o b o b (hash b.at.b_parent ∷ [])
  next :
      (o o' b b' : Block) (os bs : List Block) (eo eb : Cursor) (digests : List ℕ)
      → same_parent b o ≡ true
      → ltb b.b_loff extent_end ≡ true
      → contiguous blocksize o o' ≡ true
      → contiguous blocksize b b' ≡ true
      → EqualRun blocksize hash extent_end (cursor o' os) (cursor b' bs) eo eb digests
      → EqualRun blocksize hash extent_end
          (cursor o (o' ∷ os))
          (cursor b (b' ∷ bs))
          eo
          eb
          (hash b.b_parent ∷ digests)

ended :
    (extent_end : ℕ) (o b eo eb : Cursor)
    → ◌≡◌ {A = Option (Cursor × Cursor)} (some (o, b)) (some (eo, eb))
    → Skips extent_end o b eo eb
ended extent_end o b eo eb e =
    subst (λ p. Skips extent_end o b p.0 p.1) (some-injective (o, b) (eo, eb) e) (at_once o b)

walks_off :
    (extent_end : ℕ) (o b eo eb : Cursor) (differ : Bool)
    → ◌≡◌ {A = Option (Cursor × Cursor)} (if differ then none else some (o, b)) (some (eo, eb))
    → Skips extent_end o b eo eb
walks_off extent_end o b eo eb true e = absurd (none_not_some e)
walks_off extent_end o b eo eb false e = ended extent_end o b eo eb e

pub fast_forward-Skips :
    (extent_end : ℕ) (o : Block) (os : List Block) (b : Block) (bs : List Block) (eo eb : Cursor)
    → fast_forward extent_end o os b bs ≡ some (eo, eb)
    → Skips extent_end (cursor o os) (cursor b bs) eo eb
unfolding fast_forward
fast_forward-Skips extent_end o [] b bs eo eb e = walks_off extent_end _ _ eo eb _ e
fast_forward-Skips extent_end o (o' ∷ os) b [] eo eb e = walks_off extent_end _ _ eo eb _ e
fast_forward-Skips extent_end o (o' ∷ os) b (b' ∷ bs) eo eb e =
    elim (Bool-cases (not (same_parent b o) && ltb b.b_loff extent_end)) [
      | inl c ↦
          skip o o' b b' os bs eo eb (not_left _ _ c)
            (fast_forward-Skips extent_end o' os b' bs eo eb (sym (rw c refl) ∙ e))
      | inr c ↦ ended extent_end _ _ eo eb (sym (rw c refl) ∙ e)
    ]

module _ (blocksize : ℕ) (hash : ℕ → ℕ) (extent_end : ℕ) where
  -- What is recorded in `m` is a run of equal pairs from the two cursors.
  pub record HasRun (o b : Cursor) (m : Matched) : Type 0 where
    pub unmatched : m.ends ≡ none → m.added ≡ []
    pub run :
        (eo eb : Cursor)
        → m.ends ≡ some (eo, eb)
        → EqualRun blocksize hash extent_end o b eo eb m.added

  parts : (s t : Bool) → (s && t) ≡ true → (s ≡ true) × (t ≡ true)
  parts true true e = (refl, refl)
  parts true false e = (refl, e)
  parts false t e = (e, ground arith)

  last_pair :
      (o b eo eb : Cursor) (m : Matched)
      → same_parent b.at o.at ≡ true
      → ltb b.at.b_loff extent_end ≡ true
      → m.ends ≡ none
      → m.added ≡ []
      → some (last_of m.ends (o, b)) ≡ some (eo, eb)
      → EqualRun blocksize hash extent_end o b eo eb (hash b.at.b_parent ∷ m.added)
  last_pair o b eo eb m s t none_yet nothing e =
      let here : (o, b) ≡ (eo, eb) =
        sym (ap (λ x. last_of x (o, b)) none_yet) ∙ some-injective _ _ e in
      subst (λ p. EqualRun blocksize hash extent_end o b p.0 p.1 (hash b.at.b_parent ∷ m.added))
        here
        (subst (λ l. EqualRun blocksize hash extent_end o b o b (hash b.at.b_parent ∷ l))
          (sym nothing) (one_pair o b s t))

  visit-last :
      (in_run : Bool) (o b : Cursor) (m : Matched)
      → (same_parent b.at o.at && ltb b.at.b_loff extent_end) ≡ in_run
      → m.ends ≡ none
      → m.added ≡ []
      → HasRun o b (visit blocksize hash in_run o b m)
  visit-last true o b m c none_yet nothing =
      let (s, t) = parts _ _ c in
      record {
        unmatched = λ e. absurd (none_not_some (sym e));
        run = λ eo eb e. last_pair o b eo eb m s t none_yet nothing e;
      }
  visit-last false o b m c none_yet nothing = record {
    unmatched = λ e. refl;
    run = λ eo eb e. absurd (none_not_some e);
  }

  visit-next :
      (in_run : Bool) (o o' b b' : Block) (os bs : List Block) (m : Matched)
      → (same_parent b o && ltb b.b_loff extent_end) ≡ in_run
      → (contiguous blocksize o o' && contiguous blocksize b b') ≡ true
      → HasRun (cursor o' os) (cursor b' bs) m
      → HasRun
          (cursor o (o' ∷ os))
          (cursor b (b' ∷ bs))
          (visit blocksize hash in_run (cursor o (o' ∷ os)) (cursor b (b' ∷ bs)) m)
  visit-next false o o' b b' os bs m c near h = record {
    unmatched = λ e. refl;
    run = λ eo eb e. absurd (none_not_some e);
  }
  visit-next true o o' b b' os bs m c near h = elim (Option-cases m.ends) [
    | inl none_yet ↦
        visit-last true (cursor o (o' ∷ os)) (cursor b (b' ∷ bs)) m c none_yet
          (h.unmatched none_yet)
    | inr ((eo', eb'), found) ↦
        let (s, t) = parts _ _ c in
        let (near_o, near_b) = parts _ _ near in
        record {
          unmatched = λ e. absurd (none_not_some (sym e));
          run = λ eo eb e.
              let it : (eo', eb') ≡ (eo, eb) =
                sym (ap (λ x. last_of x (cursor o (o' ∷ os), cursor b (b' ∷ bs))) found)
                ∙ some-injective _ _ e in
              next o o' b b' os bs eo eb m.added s t near_o near_b
                (h.run eo eb (found ∙ ap some it));
        }
  ]

  pub match_blocks-HasRun :
      (o : Block) (os : List Block) (b : Block) (bs : List Block)
      → HasRun (cursor o os) (cursor b bs) (match_blocks blocksize hash extent_end o os b bs)
  unfolding match_blocks
  match_blocks-HasRun o [] b bs = visit-last _ (cursor o []) (cursor b bs) _ refl refl refl
  match_blocks-HasRun o (o' ∷ os) b [] =
      visit-last _ (cursor o (o' ∷ os)) (cursor b []) _ refl refl refl
  match_blocks-HasRun o (o' ∷ os) b (b' ∷ bs) =
      elim (Bool-cases (contiguous blocksize o o' && contiguous blocksize b b')) [
        | inl near ↦
            rw near (visit-next _ o o' b b' os bs _ refl near (match_blocks-HasRun o' os b' bs))
        | inr apart ↦
            rw apart (visit-last _ (cursor o (o' ∷ os)) (cursor b (b' ∷ bs)) _ refl refl refl)
      ]
