-- ===== src/Dedupe/Engine/Capped.antt =====
-- A kernel that dedupes each request as far as 16 MiB, for the examples.
use Prim.Native.Nat.{min}
use duperemove.Prelude.{
  ℕ, zero, suc, ◌+◌, ◌<◌, ◌≡◌, refl, some, List, [], ◌∷◌, map, arith, length, get_or, length-map,
}
use duperemove.Prelude.Int.{pos}
use duperemove.Dedupe.{Info, zero_info}
use duperemove.Dedupe.Engine.{Kernel}
use duperemove.Dedupe.Engine.Finish.{Complies}

abbrev pub cap : ℕ
cap = 16_777_216

-- The world counts the calls.
abbrev pub capped : Kernel ℕ
capped = record {
  dedupe_range = λ w fd s. (
    pos 0,
    record s {
      info =
          map (λ (i : Info). record i { bytes_deduped = min s.src_length cap; status = pos 0 })
            s.info;
    },
    w + 1,
  );
  fstatfs = λ w fd. (some 4096, w);
}

get_or-map :
    (f : Info → Info) (xs : List Info) (i : ℕ) (d : Info)
    → i < length xs
    → get_or (map f xs) i d ≡ f (get_or xs i d)
get_or-map f [] i d h = absurd (omega arith)
get_or-map f (x ∷ xs) zero d h = refl
get_or-map f (x ∷ xs) (suc i) d h = get_or-map f xs i d (omega arith)

pub capped-Complies : Complies capped cap
capped-Complies = record {
  some_limit = omega arith;
  dest_count = λ w fd s. refl;
  info = λ w fd s. length-map s.info _;
  entries = λ w fd s good wide i lt.
      let e =
        get_or-map (λ (j : Info). record j { bytes_deduped = min s.src_length cap; status = pos 0 })
          s.info i zero_info (omega arith) in
      rw e (omega arith, λ _. refl);
  block = λ w fd n e. record { exponent = 12; small = omega arith; power = ground (arith, e) };
}
