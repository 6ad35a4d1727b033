-- ===== src/Wg/Splits.antt =====
-- src/wg/params.rs: the numbers that the header windows are cut at.
pub mod Order
pub mod Dedup
use awg_easy_rs.Prelude.{
  ℕ, zero, suc, List, [], ◌∷◌, ◌++◌, Bool, true, false, ◌||◌, if◌then◌else◌, ltb, length,
}
use awg_easy_rs.Prelude.Ints.{ℤ, lez, eqz}
use awg_easy_rs.Prelude.Results.{ok, err}
use awg_easy_rs.Rng.{Draw, exhausted, stop, ◌>>=◌, return}

-- `sort_unstable`: of numbers there is one sorted order.
unfoldable pub insert : ℤ → List ℤ → List ℤ
insert x [] = x ∷ []
insert x (y ∷ ys) = let rest = insert x ys in if lez x y then x ∷ y ∷ ys else y ∷ rest

unfoldable pub sort : List ℤ → List ℤ
sort [] = []
sort (x ∷ xs) = insert x (sort xs)

unfoldable pub dedup_from : ℤ → List ℤ → List ℤ
dedup_from x [] = []
dedup_from x (y ∷ ys) =
    let rest = dedup_from y ys in let again = dedup_from x ys in if eqz x y then again else y ∷ rest

unfoldable pub dedup : List ℤ → List ℤ
dedup [] = []
dedup (x ∷ xs) = x ∷ dedup_from x xs

unfoldable pub contains : ℤ → List ℤ → Bool
contains v [] = false
contains v (x ∷ xs) = eqz v x || contains v xs

unfoldable pub draw_many : ℕ → Draw ℤ → Draw (List ℤ)
draw_many zero draw = return []
draw_many (suc n) draw = do v ← draw; vs ← draw_many n draw; return (v ∷ vs)

-- A number that is not there yet is pushed, and the list sorted.
unfoldable pub push_split : ℤ → List ℤ → List ℤ
push_split v splits = if contains v splits then splits else sort (splits ++ (v ∷ []))

-- The loop to eight numbers; each round takes random bytes, so their number is fuel enough.
unfoldable pub fill_loop : ℕ → Draw ℤ → List ℤ → Draw (List ℤ)
fill_loop zero draw splits = stop exhausted
fill_loop (suc fuel) draw splits = elim (ltb (length splits) 8) [
  | true ↦ draw >>= λ v. fill_loop fuel draw (push_split v splits)
  | false ↦ return splits
]

unfoldable pub draw_splits : Draw ℤ → Draw (List ℤ)
draw_splits draw = do
  drawn ← draw_many 8 draw
  λ source. fill_loop (suc (length source)) draw (dedup (sort drawn)) source
