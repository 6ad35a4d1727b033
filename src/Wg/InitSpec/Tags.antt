-- ===== src/Wg/InitSpec/Tags.antt =====
-- src/wg/params.rs: the tags of an init packet.
use awg_easy_rs.Prelude.{ℕ, ◌*◌, ◌≤◌, ◌≡◌, ◌⊎◌, List, ◌++◌, All, some, length, codes}
use awg_easy_rs.Prelude.Numerals.{parse_u64}
use awg_easy_rs.Proxy.Responder.Sip.Lines.{trim}

abbrev pub IsHexDigit : ℕ → Type 0
IsHexDigit b = ((0x30 ≤ b) × (b ≤ 0x39)) ⊎ (((0x61 ≤ b) × (b ≤ 0x66)) ⊎ ((0x41 ≤ b) × (b ≤ 0x46)))

-- Two digits to a byte, and at least one byte.
abbrev pub IsHexText : List ℕ → ℕ → Type 0
IsHexText body size = (1 ≤ size) × (length body ≡ 2 * size) × All IsHexDigit body

-- `t` or `c`, a timestamp or a counter of four bytes.
abbrev pub IsCounter : List ℕ → ℕ → Type 0
IsCounter inner size = ((inner ≡ codes "t") ⊎ (inner ≡ codes "c")) × (size ≡ 4)

-- `b` and the bytes in hexadecimal, behind `0x`, `0X` or neither, with white space around them.
abbrev pub IsStatic : List ℕ → ℕ → Type 0
IsStatic inner size =
    (arg : List ℕ) × (body : List ℕ) × (inner ≡ codes "b " ++ arg)
    × ((trim arg ≡ codes "0x" ++ body) ⊎ ((trim arg ≡ codes "0X" ++ body) ⊎ (trim arg ≡ body)))
    × IsHexText body size

-- `r`, `rc` or `rd` and a decimal number of 1 to 1000, with white space around it.
abbrev pub IsRandom : List ℕ → ℕ → Type 0
IsRandom inner size =
    (arg : List ℕ) × ((inner ≡ codes "r " ++ arg)
      ⊎ ((inner ≡ codes "rc " ++ arg) ⊎ (inner ≡ codes "rd " ++ arg)))
    × (parse_u64 (trim arg) ≡ some size)
    × (1 ≤ size)
    × (size ≤ 1000)

-- The text between `<` and `>` of a tag, and the number of bytes that the tag makes.
abbrev pub IsTag : List ℕ → ℕ → Type 0
IsTag inner size = IsCounter inner size ⊎ (IsStatic inner size ⊎ IsRandom inner size)
