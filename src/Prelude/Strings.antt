-- ===== src/Prelude/Strings.antt =====
-- What the parsers do with text: `split_once`, `strip_prefix`, `strip_suffix` and equality, on bytes of UTF-8.
pub mod Laws
use Prim.Native.Nat.{ℕ}
use mathlib.Core.Bool.{Bool, true, false, ◌&&◌}
use mathlib.Core.List.{List, [], ◌∷◌}
use mathlib.Core.Option.{Option, none, some}
use awg_easy_rs.Prelude.Tests.{◌==◌, if◌then◌else◌}
use awg_easy_rs.Prelude.Options.{◌>>=◌}

-- `==` of strings.
unfoldable pub same_text : List ℕ → List ℕ → Bool
same_text [] [] = true
same_text (x ∷ xs) (y ∷ ys) = x == y && same_text xs ys
same_text [] (y ∷ ys) = false
same_text (x ∷ xs) [] = false

-- `split_once` at an ASCII character: the text before the first one and behind it.
unfoldable pub split_once : ℕ → List ℕ → Option (List ℕ × List ℕ)
split_once c [] = none
split_once c (b ∷ text) =
    let rest = split_once c text in
    if b == c then some ([], text) else (rest >>= λ (before, behind). some (b ∷ before, behind))

unfoldable pub strip_prefix : List ℕ → List ℕ → Option (List ℕ)
strip_prefix [] text = some text
strip_prefix (w ∷ word) [] = none
strip_prefix (w ∷ word) (b ∷ text) =
    let rest = strip_prefix word text in if w == b then rest else none

unfoldable pub strip_suffix : List ℕ → List ℕ → Option (List ℕ)
strip_suffix suffix [] = if same_text [] suffix then some [] else none
strip_suffix suffix (b ∷ text) =
    let rest = strip_suffix suffix text in
    if same_text (b ∷ text) suffix then some [] else (rest >>= λ before. some (b ∷ before))
