-- ===== src/Proxy/Config/Text.antt =====
-- How the line reader and `trim` treat text with no spaces and no line ends.
use awg_easy_rs.Prelude.{
  ℕ, ◌≤◌, ◌≡◌, refl, ◌∙◌, ap, inl, inr, List, [], ◌∷◌, ◌++◌, append_assoc, append-nil, map, All,
  Bool, true, false, ◌&&◌, ◌||◌, ◌==◌, ltb, leb, Bool-cases, ==_iff, arith,
}
use mathlib.Core.List.{reverse, reverse_aux, reverse-reverse}
use awg_easy_rs.Proxy.Responder.Sip.Lines.{
  lines_from, trim, trim_front, white_space, white_len, begins,
}

-- A visible ASCII character.
abbrev pub IsGraphic : ℕ → Type 0
IsGraphic b = (0x21 ≤ b) × (b ≤ 0x7E)

abbrev pub graphic_bytes : List ℕ → Bool
graphic_bytes [] = true
graphic_bytes (b ∷ text) = (leb 0x21 b && leb b 0x7E) && graphic_bytes text

pub graphic_bytes-IsGraphic : (text : List ℕ) → graphic_bytes text ≡ true → All IsGraphic text
graphic_bytes-IsGraphic [] h = tt
graphic_bytes-IsGraphic (b ∷ text) h = ground (arith, graphic_bytes-IsGraphic text)

-- Whether no word of the list begins with a visible character.
abbrev foreign : List (List ℕ) → Bool
foreign [] = true
foreign ([] ∷ white) = false
foreign ((c ∷ w) ∷ white) = (ltb c 0x21 || ltb 0x7E c) && foreign white

white_len-foreign :
    (white : List (List ℕ)) (b : ℕ) (text : List ℕ)
    → foreign white ≡ true
    → IsGraphic b
    → white_len white (b ∷ text) ≡ 0
unfolding white_len begins
white_len-foreign [] b text h g = refl
white_len-foreign ([] ∷ white) b text h g = cc
white_len-foreign ((c ∷ w) ∷ white) b text h g = ground (arith, white_len-foreign white b text)

trim_front_graphic :
    (white : List (List ℕ)) (text : List ℕ)
    → foreign white ≡ true
    → All IsGraphic text
    → trim_front white 0 text ≡ text
unfolding trim_front
trim_front_graphic white [] h g = refl
trim_front_graphic white (b ∷ text) h (g, gs) =
    rw (white_len-foreign white b text h g, trim_front) refl

All-reverse_aux {ℓ κ} :
    {A : Type ℓ} (P : A → Type κ) (xs ys : List A) → All P xs → All P ys → All P (reverse_aux xs ys)
All-reverse_aux P [] ys p q = q
All-reverse_aux P (x ∷ xs) ys (p, ps) q = All-reverse_aux P xs (x ∷ ys) ps (p, q)

pub trim_graphic : (text : List ℕ) → All IsGraphic text → trim text ≡ text
unfolding trim
trim_graphic text g =
    ap (λ s. reverse (trim_front (map reverse white_space) 0 (reverse s)))
      (trim_front_graphic white_space text refl g)
    ∙ ap reverse (
        trim_front_graphic (map reverse white_space) (reverse text) refl
          (All-reverse_aux IsGraphic text [] g tt))
    ∙ reverse-reverse text

-- A line is what stands before the next line end.
pub lines_from_line :
    (line l rest : List ℕ)
    → All IsGraphic l
    → lines_from line (l ++ (0x0A ∷ rest)) ≡ (line ++ l) ∷ lines_from [] rest
unfolding lines_from
lines_from_line line [] rest g = rw (append-nil line)
lines_from_line line (b ∷ l) rest (g, gs) = elim (Bool-cases (b == 0x0A)) [
  | inl y ↦ absurd (let e = (==_iff b 0x0A).0 y in let h = g.0 in omega arith)
  | inr n ↦
      rw (n, lines_from)
        (lines_from_line (line ++ (b ∷ [])) l rest gs
          ∙ ap (λ t. t ∷ lines_from [] rest) (append_assoc line (b ∷ []) l))
]
