-- ===== src/Wg/Generate/Headers.antt =====
-- src/wg/params.rs: the four header windows of the generator.
use awg_easy_rs.Prelude.{
  ℕ, zero, suc, ◌+◌, ◌*◌, ◌≤◌, ◌<◌, ◌≡◌, refl, List, [], ◌∷◌, All, some, Bool, true, false, ltb,
  length, get_elem?, map, sym, ap, arith,
}
use mathlib.Core.Path.{subst}
use awg_easy_rs.Prelude.Ints.{ℤ, pos, negsuc}
use awg_easy_rs.Rng.{Draw, ◌>>=◌, return, exhausted, range_excl_i64}
use awg_easy_rs.Rng.Yields.{Yields, Yields-bind, Yields-return, Yields-stop, Yields-range_excl_i64}
use awg_easy_rs.Proxy.Params.{HRange}
use awg_easy_rs.Wg.Splits.{sort, dedup, push_split, draw_many, fill_loop, draw_splits}
use awg_easy_rs.Wg.Splits.Order.{Ascending, All-sort, push_split-Ascending, push_split-All}
use awg_easy_rs.Wg.Splits.Dedup.{dedup-sort-Ascending, dedup-All}
use awg_easy_rs.Wg.Generate.{h_min, h_max}
use awg_easy_rs.Wg.Generate.Draws.{Between, AtMost-Between}

-- The least and the greatest header value.
abbrev pub InSpace : ℤ → Type 0
InSpace v = Between 5 2147483646 v

abbrev AreSplits : List ℤ → Type 0
AreSplits splits = Ascending splits × All InSpace splits

Yields-header : Yields InSpace (range_excl_i64 h_min h_max)
Yields-header source v rest bytes e =
    let (b, bs) =
      Yields-range_excl_i64 h_min h_max (omega arith) (omega arith) source v rest bytes e in
    (AtMost-Between 5 2147483646 v b, bs)

Yields-draw_many :
    (n : ℕ) (draw : Draw ℤ) → Yields InSpace draw → Yields (All InSpace) (draw_many n draw)
unfolding draw_many
Yields-draw_many zero draw h = Yields-return (All InSpace) [] tt
Yields-draw_many (suc n) draw h =
    Yields-bind InSpace (All InSpace) draw (λ v. draw_many n draw >>= λ vs. return (v ∷ vs)) h
      (λ v p.
        Yields-bind (All InSpace) (All InSpace) (draw_many n draw) (λ vs. return (v ∷ vs))
          (Yields-draw_many n draw h) (λ vs ps. Yields-return (All InSpace) (v ∷ vs) (p, ps)))

abbrev pub AreEight : List ℤ → Type 0
AreEight splits = AreSplits splits × (8 ≤ length splits)

Yields-either :
    (t : Bool) (splits : List ℤ) (again : Draw (List ℤ))
    → AreSplits splits
    → ltb (length splits) 8 ≡ t
    → Yields AreEight again
    → Yields AreEight (elim t [ true ↦ again | false ↦ return splits ])
Yields-either true splits again a e h = h
Yields-either false splits again a e h = Yields-return AreEight splits (a, (ground arith))

Yields-fill_loop :
    (fuel : ℕ) (draw : Draw ℤ) (splits : List ℤ)
    → Yields InSpace draw
    → AreSplits splits
    → Yields AreEight (fill_loop fuel draw splits)
unfolding fill_loop
Yields-fill_loop zero draw splits h a = Yields-stop AreEight exhausted
Yields-fill_loop (suc fuel) draw splits h a =
    Yields-either (ltb (length splits) 8) splits
      (draw >>= λ v. fill_loop fuel draw (push_split v splits)) a refl
      (Yields-bind InSpace AreEight draw (λ v. fill_loop fuel draw (push_split v splits)) h
        (λ v p.
          Yields-fill_loop fuel draw (push_split v splits) h
            (push_split-Ascending v splits a.0, push_split-All InSpace v splits p a.1)))

pub Yields-draw_splits : Yields AreEight (draw_splits (range_excl_i64 h_min h_max))
unfolding draw_splits
Yields-draw_splits =
    Yields-bind (All InSpace) AreEight (draw_many 8 (range_excl_i64 h_min h_max))
      (λ drawn source.
        fill_loop (suc (length source)) (range_excl_i64 h_min h_max) (dedup (sort drawn)) source)
      (Yields-draw_many 8 (range_excl_i64 h_min h_max) Yields-header)
      (λ drawn ps source.
        Yields-fill_loop (suc (length source)) (range_excl_i64 h_min h_max) (dedup (sort drawn))
          Yields-header
          (dedup-sort-Ascending drawn, dedup-All InSpace (sort drawn) (All-sort InSpace drawn ps))
          source)

-- Four ranges one behind the other in the space of header values.
abbrev pub AreWindows : HRange → HRange → HRange → HRange → Type 0
AreWindows a b c d =
    (5 ≤ a.lo)
    × (a.lo < a.hi)
    × (a.hi < b.lo)
    × (b.lo < b.hi)
    × (b.hi < c.lo)
    × (c.lo < c.hi)
    × (c.hi < d.lo)
    × (d.lo < d.hi)
    × (d.hi ≤ 2147483646)

-- The numbers at 2 * i and behind it are the ends of the window.
abbrev pub CutsAt : List ℤ → ℕ → HRange → Type 0
CutsAt splits i r =
    (get_elem? splits (i * 2) ≡ some (pos r.lo)) × (get_elem? splits (i * 2 + 1) ≡ some (pos r.hi))

abbrev pub Cut : List ℤ → Type 0
Cut splits =
    (a : HRange) × (b : HRange) × (c : HRange) × (d : HRange) × AreWindows a b c d
    × CutsAt splits 0 a
    × CutsAt splits 1 b
    × CutsAt splits 2 c
    × CutsAt splits 3 d

-- A drawn number is not negative.
natural : (splits : List ℤ) → All InSpace splits → (ns : List ℕ) × (splits ≡ map pos ns)
natural [] s = ([], refl)
natural (pos n ∷ splits) (s, ss) =
    let (ns, e) = natural splits ss in (n ∷ ns, ap (λ t. pos n ∷ t) e)
natural (negsuc n ∷ splits) (s, ss) = absurd s

Cut-naturals : (ns : List ℕ) → AreEight (map pos ns) → Cut (map pos ns)
Cut-naturals [] (x, l) = absurd (omega arith)
Cut-naturals (a ∷ []) (x, l) = absurd (omega arith)
Cut-naturals (a ∷ b ∷ []) (x, l) = absurd (omega arith)
Cut-naturals (a ∷ b ∷ c ∷ []) (x, l) = absurd (omega arith)
Cut-naturals (a ∷ b ∷ c ∷ d ∷ []) (x, l) = absurd (omega arith)
Cut-naturals (a ∷ b ∷ c ∷ d ∷ e ∷ []) (x, l) = absurd (omega arith)
Cut-naturals (a ∷ b ∷ c ∷ d ∷ e ∷ f ∷ []) (x, l) = absurd (omega arith)
Cut-naturals (a ∷ b ∷ c ∷ d ∷ e ∷ f ∷ g ∷ []) (x, l) = absurd (omega arith)
Cut-naturals (a ∷ b ∷ c ∷ d ∷ e ∷ f ∷ g ∷ h ∷ ns) ((o, s), l) = (
  record { lo = a; hi = b },
  record { lo = c; hi = d },
  record { lo = e; hi = f },
  record { lo = g; hi = h },
  (
    s.0.0, o.0.0, o.1.0.0, o.1.1.0.0, o.1.1.1.0.0, o.1.1.1.1.0.0, o.1.1.1.1.1.0.0,
    o.1.1.1.1.1.1.0.0, s.1.1.1.1.1.1.1.0.1,
  ),
  (refl, refl),
  (refl, refl),
  (refl, refl),
  (refl, refl),
)

pub Cut-windows : (splits : List ℤ) → AreEight splits → Cut splits
Cut-windows splits a =
    let (ns, e) = natural splits a.0.1 in subst Cut (sym e) (Cut-naturals ns (subst AreEight e a))
