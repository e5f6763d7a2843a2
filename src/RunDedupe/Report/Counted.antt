-- ===== src/RunDedupe/Report/Counted.antt =====
-- Every completed request is counted.
use duperemove.Prelude.{
  ℕ, zero, suc, ◌+◌, ◌%◌, ◌^◌, ◌<◌, ◌≡◌, ◌≢◌, refl, ap, ◌∙◌, true, false, List, [], ◌∷◌, arith,
  length, if◌then◌else◌, List-cases, inl, inr,
}
use duperemove.Prelude.Word.{add64}
use duperemove.SearchTree.Bag.{total}
use duperemove.Dedupe.{DedupeReq, DedupeCtxt, Outcome, done}
use duperemove.Dedupe.Engine.{Popped}
use duperemove.Dedupe.Engine.Pop.{pop_one_dedupe_result-first}
use duperemove.Prelude.Outcome.{bind-done}
use duperemove.RunDedupe.Report.{report, popped_one, result_loop, process_dedupe_results}

abbrev bytes_of : List DedupeReq → ℕ
bytes_of rs = total (λ r. r.req_total) rs

-- Every request is taken and counted.
pub record Counts (c : DedupeCtxt) (kern_bytes : ℕ) (r : Outcome (DedupeCtxt × ℕ × List Popped))
    : Type 0 where
  pub printed : List Popped
  pub run :
      r ≡ done (record c { completed = [] }, (kern_bytes + bytes_of c.completed) % 2 ^ 64, printed)

popped_last :
    (again : DedupeCtxt → ℕ → List Popped → Outcome (DedupeCtxt × ℕ × List Popped)) (n : ℕ)
    (printed : List Popped) (c : DedupeCtxt) (p : Popped)
    → p.last ≡ true
    → popped_one again n printed (c, p) ≡ done (c, add64 n p.bytes_deduped, report c p printed)
unfolding popped_one
popped_last again n printed c p e =
    ap
      (λ b.
        if b
        then done (c, add64 n p.bytes_deduped, report c p printed)
        else again c (add64 n p.bytes_deduped) (report c p printed))
      e

popped_more :
    (again : DedupeCtxt → ℕ → List Popped → Outcome (DedupeCtxt × ℕ × List Popped)) (n : ℕ)
    (printed : List Popped) (c : DedupeCtxt) (p : Popped)
    → p.last ≡ false
    → popped_one again n printed (c, p) ≡ again c (add64 n p.bytes_deduped) (report c p printed)
unfolding popped_one
popped_more again n printed c p e =
    ap
      (λ b.
        if b
        then done (c, add64 n p.bytes_deduped, report c p printed)
        else again c (add64 n p.bytes_deduped) (report c p printed))
      e

result_loop-Counts :
    (rs : List DedupeReq) (fuel : ℕ) (c : DedupeCtxt) (r : DedupeReq) (n : ℕ)
    (printed : List Popped)
    → c.completed ≡ r ∷ rs
    → length rs < fuel
    → Counts c n (result_loop fuel c n printed)
unfolding result_loop
result_loop-Counts rs zero c r n printed mine enough = absurd (omega arith)
result_loop-Counts [] (suc fuel) c r n printed mine enough =
    let (p, run, bytes, last) = pop_one_dedupe_result-first c r [] mine in
    let all : bytes_of c.completed ≡ r.req_total = rw mine (omega arith) in
    let sum : add64 n p.bytes_deduped ≡ (n + bytes_of c.completed) % 2 ^ 64 =
      rw (all, bytes) refl in
    record {
      printed = report (record c { completed = [] }) p printed;
      run =
          bind-done _ _ (popped_one (result_loop fuel) n printed) run
          ∙ popped_last (result_loop fuel) n printed (record c { completed = [] }) p last
          ∙ ap
              (λ m.
                done
                  (record c { completed = [] }, m, report (record c { completed = [] }) p printed))
              sum;
    }
result_loop-Counts (r' ∷ rs) (suc fuel) c r n printed mine enough =
    let (p, run, bytes, last) = pop_one_dedupe_result-first c r (r' ∷ rs) mine in
    let c1 : DedupeCtxt = record c { completed = r' ∷ rs } in
    let all : bytes_of c.completed ≡ r.req_total + bytes_of (r' ∷ rs) = rw mine refl in
    let rest =
      result_loop-Counts rs fuel c1 r' (add64 n p.bytes_deduped) (report c1 p printed) refl
        (omega arith) in
    let sum : (add64 n p.bytes_deduped + bytes_of (r' ∷ rs)) % 2 ^ 64
        ≡ (n + bytes_of c.completed) % 2 ^ 64 =
      rw (all, bytes) (omega arith) in
    record {
      printed = rest.printed;
      run =
          bind-done _ _ (popped_one (result_loop fuel) n printed) run
          ∙ popped_more (result_loop fuel) n printed c1 p last
          ∙ rest.run
          ∙ ap (λ m. done (record c { completed = [] }, m, rest.printed)) sum;
    }

-- When a request is completed, process_dedupe_results returns, takes all completed requests off their list, and adds the bytes
-- of each to the count.
pub process_dedupe_results-Counts :
    (c : DedupeCtxt) (kern_bytes : ℕ)
    → c.completed ≢ []
    → Counts c kern_bytes (process_dedupe_results c kern_bytes)
unfolding process_dedupe_results
process_dedupe_results-Counts c kern_bytes some_done = elim (List-cases c.completed) [
  | inl none_done ↦ absurd (some_done none_done)
  | inr (r, rs, mine) ↦
      result_loop-Counts rs (suc (length c.completed)) c r kern_bytes [] mine
        (let many = ap length mine in omega arith)
]
