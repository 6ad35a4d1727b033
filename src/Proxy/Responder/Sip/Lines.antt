-- ===== src/Proxy/Responder/Sip/Lines.antt =====
-- src/proxy/responder.rs: the lines of a SIP message and their values, as bytes of UTF-8 text.
use awg_easy_rs.Prelude.{
  ℕ, zero, suc, List, [], ◌∷◌, ◌++◌, Option, none, some, Bool, true, false, ◌&&◌, ◌||◌, not, ◌==◌,
  leb, if◌then◌else◌, length, get_elem?, map,
}
use mathlib.Core.List.{reverse}

abbrev pub is_empty : List ℕ → Bool
is_empty [] = true
is_empty (b ∷ bytes) = false

-- Spaces and tabs.
unfoldable pub skip_blanks : List ℕ → List ℕ
skip_blanks [] = []
skip_blanks (b ∷ bytes) = if b == 0x20 || b == 0x09 then skip_blanks bytes else b ∷ bytes

-- `split('\r').next()`
unfoldable pub sip_header_line : List ℕ → List ℕ
sip_header_line [] = []
sip_header_line (b ∷ line) = if b == 0x0D then [] else b ∷ sip_header_line line

-- Each newline stands behind a carriage return. The first argument is the byte before.
unfoldable pub crlf_from : ℕ → List ℕ → Bool
crlf_from before [] = true
crlf_from before (b ∷ bytes) = (not (b == 0x0A) || before == 0x0D) && crlf_from b bytes

unfoldable pub sip_uses_crlf_line_endings : List ℕ → Bool
sip_uses_crlf_line_endings bytes = crlf_from 0 bytes

-- `str::lines`, but that a line keeps its carriage return; `sip_header_line` cuts it off. The
-- first argument is the line so far.
unfoldable pub lines_from : List ℕ → List ℕ → List (List ℕ)
lines_from [] [] = []
lines_from (c ∷ line) [] = (c ∷ line) ∷ []
lines_from line (b ∷ bytes) =
    let newline = b == 0x0A in
    let rest = lines_from (if newline then [] else line ++ (b ∷ [])) bytes in
    if newline then line ∷ rest else rest

unfoldable pub lines : List ℕ → List (List ℕ)
lines text = lines_from [] text

-- `char::is_whitespace` in UTF-8.
abbrev pub white_space : List (List ℕ)
white_space =
    (0x09 ∷ [])
    ∷ (0x0A ∷ [])
    ∷ (0x0B ∷ [])
    ∷ (0x0C ∷ [])
    ∷ (0x0D ∷ [])
    ∷ (0x20 ∷ [])
    ∷ (0xC2 ∷ 0x85 ∷ [])
    ∷ (0xC2 ∷ 0xA0 ∷ [])
    ∷ (0xE1 ∷ 0x9A ∷ 0x80 ∷ [])
    ∷ (0xE2 ∷ 0x80 ∷ 0x80 ∷ [])
    ∷ (0xE2 ∷ 0x80 ∷ 0x81 ∷ [])
    ∷ (0xE2 ∷ 0x80 ∷ 0x82 ∷ [])
    ∷ (0xE2 ∷ 0x80 ∷ 0x83 ∷ [])
    ∷ (0xE2 ∷ 0x80 ∷ 0x84 ∷ [])
    ∷ (0xE2 ∷ 0x80 ∷ 0x85 ∷ [])
    ∷ (0xE2 ∷ 0x80 ∷ 0x86 ∷ [])
    ∷ (0xE2 ∷ 0x80 ∷ 0x87 ∷ [])
    ∷ (0xE2 ∷ 0x80 ∷ 0x88 ∷ [])
    ∷ (0xE2 ∷ 0x80 ∷ 0x89 ∷ [])
    ∷ (0xE2 ∷ 0x80 ∷ 0x8A ∷ [])
    ∷ (0xE2 ∷ 0x80 ∷ 0xA8 ∷ [])
    ∷ (0xE2 ∷ 0x80 ∷ 0xA9 ∷ [])
    ∷ (0xE2 ∷ 0x80 ∷ 0xAF ∷ [])
    ∷ (0xE2 ∷ 0x81 ∷ 0x9F ∷ [])
    ∷ (0xE3 ∷ 0x80 ∷ 0x80 ∷ [])
    ∷ []

unfoldable pub begins : List ℕ → List ℕ → Bool
begins [] text = true
begins (w ∷ word) [] = false
begins (w ∷ word) (b ∷ text) = w == b && begins word text

-- The length of the character of the list that the text begins with, or 0.
unfoldable pub white_len : List (List ℕ) → List ℕ → ℕ
white_len [] text = 0
white_len (w ∷ white) text = if begins w text then length w else white_len white text

-- The text without the characters of the list in front; the number is what is left of one.
unfoldable pub trim_front : List (List ℕ) → ℕ → List ℕ → List ℕ
trim_front white skip [] = []
trim_front white (suc skip) (b ∷ text) = trim_front white skip text
trim_front white zero (b ∷ text) = elim (white_len white (b ∷ text)) [
  | zero ↦ b ∷ text
  | suc more ↦ trim_front white more text
]

-- `str::trim`. A character of UTF-8 that ends the text is one that begins it backwards.
unfoldable pub trim : List ℕ → List ℕ
trim text =
    let started = trim_front white_space 0 text in
    reverse (trim_front (map reverse white_space) 0 (reverse started))

-- What is behind the first colon.
unfoldable pub behind_colon : List ℕ → Option (List ℕ)
behind_colon [] = none
behind_colon (b ∷ line) = if b == 0x3A then some line else behind_colon line

unfoldable pub sip_header_value : List ℕ → List ℕ
sip_header_value line = elim (behind_colon line) [ none ↦ trim line | some value ↦ trim value ]

unfoldable pub is_ascii_whitespace : ℕ → Bool
is_ascii_whitespace b = b == 0x20 || (b == 0x09 || (b == 0x0A || (b == 0x0C || b == 0x0D)))

-- `split_ascii_whitespace`; the first argument is the word so far.
unfoldable pub words_from : List ℕ → List ℕ → List (List ℕ)
words_from [] [] = []
words_from (c ∷ word) [] = (c ∷ word) ∷ []
words_from word (b ∷ text) =
    let white = is_ascii_whitespace b in
    let rest = words_from (if white then [] else word ++ (b ∷ [])) text in
    if white && not (is_empty word) then word ∷ rest else rest

unfoldable pub sip_cseq_method : List ℕ → Option (List ℕ)
sip_cseq_method line = get_elem? (words_from [] (sip_header_value line)) 1

unfoldable pub is_ascii_alphabetic : ℕ → Bool
is_ascii_alphabetic b = (leb 0x41 b && leb b 0x5A) || (leb 0x61 b && leb b 0x7A)

unfoldable pub all_alphabetic : List ℕ → Bool
all_alphabetic [] = true
all_alphabetic (b ∷ word) = is_ascii_alphabetic b && all_alphabetic word
