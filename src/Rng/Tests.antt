-- ===== src/Rng/Tests.antt =====
-- Runs of the random numbers.
use awg_easy_rs.Prelude.{◌-◌, ◌^◌, ◌/◌, ◌≡◌, refl, [], ◌∷◌, ◌++◌, arith}
use awg_easy_rs.Prelude.Ints.{pos, negsuc}
use awg_easy_rs.Prelude.Results.{ok, err}
use awg_easy_rs.Rng.{
  panicked, u64_from_le_bytes, below_loop, reject_below, u64_below, distance, as_i64, wrap_i64,
  range_incl_i64,
}
use awg_easy_rs.Rng.Below.{source_of, u64_to_le_bytes, u64_below_ends}
use awg_easy_rs.Rng.Uniform.{count, u64_below-uniform}
use awg_easy_rs.Rng.Ranges.{Drawn, range_incl_i64-Drawn}

-- 2^64 is 4 behind a multiple of 6: the words 0 to 3 are rejected.
rejected : reject_below 6 ≡ 4
unfolding reject_below
rejected = refl

u64_below_ends_example :
    u64_below 6 (source_of (3 ∷ 0 ∷ []) (u64_to_le_bytes 10 ++ (7 ∷ []))) ≡ ok (4, 7 ∷ [])
unfolding reject_below
u64_below_ends_example =
    u64_below_ends 6 (3 ∷ 0 ∷ []) 10 (7 ∷ []) (omega arith) (omega arith)
      (omega arith, (omega arith, tt)) (omega arith) (omega arith)

u64_below-uniform_example : count 6 2 (reject_below 6) (2 ^ 64 - reject_below 6) ≡ 2 ^ 64 / 6
u64_below-uniform_example = u64_below-uniform 6 2 (omega arith) (omega arith) (omega arith)

-- A range across zero with more than 2^63 numbers.
wide :
    range_incl_i64 (negsuc 9223372036854775807) (pos 5) (source_of (9223372036854775810 ∷ []) [])
    ≡ ok (pos 2, [])
unfolding range_incl_i64 u64_below distance below_loop u64_from_le_bytes reject_below wrap_i64
    as_i64
wide = refl

range_incl_i64-Drawn_example :
    Drawn (negsuc 9223372036854775807) (pos 5) (source_of (9223372036854775810 ∷ []) []) (pos 2, [])
range_incl_i64-Drawn_example =
    range_incl_i64-Drawn (negsuc 9223372036854775807) (pos 5)
      (source_of (9223372036854775810 ∷ []) []) (pos 2, []) (omega arith) (omega arith) wide

-- The range of all numbers has 2^64 of them, which the cast to u64 makes 0.
full_range :
    range_incl_i64 (negsuc 9223372036854775807) (pos 9223372036854775807) (source_of (1 ∷ []) [])
    ≡ err panicked
unfolding range_incl_i64 u64_below distance
full_range = refl
