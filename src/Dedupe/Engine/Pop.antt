-- ===== src/Dedupe/Engine/Pop.antt =====
-- pop_one_dedupe_result: one result for each request.
use duperemove.Prelude.{
  ℕ, suc, ◌+◌, ◌≡◌, ◌≢◌, refl, ◌∙◌, [], ◌∷◌, List, arith, ◌==◌, if◌then◌else◌, length, is_empty,
}
use duperemove.Dedupe.{DedupeReq, DedupeCtxt, done}
use duperemove.Dedupe.Valid.{held, is_for, IsValid, size}
use duperemove.Dedupe.Engine.{Popped, popped, pop_head, pop_one_dedupe_result}

-- The result handed back is that of one request, under the file and offset it was added with.
abbrev pub Pops : DedupeCtxt → DedupeCtxt → Popped → Type 0
Pops c d p =
    ((file off : ℕ)
      → held c file off
        ≡ held d file off + (if p.file == file then (if p.off == off then 1 else 0) else 0))
    × (length c.completed ≡ length d.completed + 1)
    × (p.last ≡ is_empty d.completed)
    × IsValid d

module _ (c : DedupeCtxt) (r : DedupeReq) (rest : List DedupeReq) (mine : c.completed ≡ r ∷ rest)
    (v : IsValid c) where
  rest-size : size c ≡ suc (size (record c { completed = rest }))
  unfolding size
  rest-size = rw mine (omega arith)

  rest-held :
      (file off : ℕ)
      → held c file off
        ≡ held (record c { completed = rest }) file off + (if is_for file off r then 1 else 0)
  unfolding held
  rest-held file off = rw mine (omega arith)

  head-Pops : Pops c (record c { completed = rest }) (popped r rest)
  unfolding popped
  head-Pops = (
    λ file off. rest-held file off ∙ ground arith,
    rw mine (omega arith),
    refl,
    record {
      buffer = v.buffer;
      few = v.few;
      room = omega (arith, rest-size, v.room);
      queued_words = v.queued_words;
      in_progress_words = v.in_progress_words;
      completed_words = (rw mine at v.completed_words).1;
    },
  )

pop_head-Pops :
    (c : DedupeCtxt) (q : List DedupeReq)
    → c.completed ≡ q
    → q ≢ []
    → IsValid c
    → (d : DedupeCtxt) × (p : Popped) × (pop_head c q ≡ done (d, p)) × Pops c d p
unfolding pop_head popped
pop_head-Pops c [] mine some_left v = absurd (some_left refl)
pop_head-Pops c (r ∷ rest) mine some_left v = (_, _, refl, head-Pops c r rest mine v)

-- While a result is left, `pop_one_dedupe_result` does not abort. It takes one request off the
-- completed list and hands back the file and the offset with which that request was added,
-- whatever has been deduped since; it returns 1 when that was the last. The context stays valid.
pub pop_one_dedupe_result-Pops :
    (c : DedupeCtxt)
    → c.completed ≢ []
    → IsValid c
    → (d : DedupeCtxt) × (p : Popped) × (pop_one_dedupe_result c ≡ done (d, p)) × Pops c d p
unfolding pop_one_dedupe_result
pop_one_dedupe_result-Pops c = pop_head-Pops c c.completed refl

-- The result of the first completed request.
pub pop_one_dedupe_result-first :
    (c : DedupeCtxt) (r : DedupeReq) (rest : List DedupeReq)
    → c.completed ≡ r ∷ rest
    → (p : Popped) × (pop_one_dedupe_result c ≡ done (record c { completed = rest }, p))
      × (p.bytes_deduped ≡ r.req_total)
      × (p.last ≡ is_empty rest)
unfolding pop_one_dedupe_result pop_head popped
pop_one_dedupe_result-first c r rest mine = (popped r rest, rw mine refl, refl, refl)
