-- ===== src/Wg/InitSpec.antt =====
-- src/wg/params.rs: the check of the tags of an init packet, on the bytes of the text.
mod Tests
pub mod Tags
pub mod Hex
pub mod Check
pub mod Grammar
use awg_easy_rs.Prelude.{
  ℕ, zero, suc, ◌+◌, ◌-◌, ◌/◌, ◌%◌, ◌^◌, List, [], ◌∷◌, Option, none, some, Bool, true, false, ◌&&◌,
  ◌||◌, not, ltb, ◌==◌, if◌then◌else◌, length, codes, min,
}
use awg_easy_rs.Prelude.Results.{Result, ok, err, ◌>>=◌, ◌>>◌, fail_if, ok_or}
use awg_easy_rs.Prelude.Numerals.{digit_value, parse_u64}
use awg_easy_rs.Prelude.Strings.{same_text, split_once, strip_prefix}
use awg_easy_rs.Proxy.Responder.Sip.Lines.{is_empty, trim}

pub data TagError : Type 0 where
  hex_length hex_digits count_zero count_large : TagError
  count_number : List ℕ → TagError
  hex_missing count_missing : TagError
  no_argument unknown_kind : List ℕ → TagError

pub data SpecError : Type 0 where
  unexpected : ℕ → ℕ → SpecError
  unclosed : ℕ → SpecError
  invalid_tag : List ℕ → TagError → SpecError
  too_large : ℕ → SpecError

-- The kinds of the match, in its order.
pub data Kind : Type 0 where
  four_bytes static_bytes random_bytes other_kind : Kind

unfoldable pub kind_of : List ℕ → Kind
kind_of kind =
    if same_text (codes "t") kind || same_text (codes "c") kind
    then four_bytes
    else (if same_text (codes "b") kind
        then static_bytes
        else (if same_text (codes "r") kind
              || (same_text (codes "rc") kind || same_text (codes "rd") kind)
            then random_bytes
            else other_kind))

unfoldable pub or_else : Option (List ℕ) → List ℕ → List ℕ
or_else (some text) other = text
or_else none other = other

-- The hexadecimal digits without their prefix.
unfoldable pub hex_body : List ℕ → List ℕ
hex_body hex = or_else (strip_prefix (codes "0x") hex) (or_else (strip_prefix (codes "0X") hex) hex)

unfoldable pub all_hex : List ℕ → Bool
all_hex [] = true
all_hex (b ∷ body) = elim (digit_value b) [ none ↦ false | some d ↦ all_hex body ]

unfoldable pub hex_size : List ℕ → Result TagError ℕ
hex_size body = do
  fail_if (is_empty body || not (length body % 2 == 0)) hex_length
  fail_if (not (all_hex body)) hex_digits
  ok (length body / 2)

unfoldable pub count_size : List ℕ → Result TagError ℕ
count_size num = do
  n ← ok_or (parse_u64 num) (count_number num)
  fail_if (n == 0) count_zero
  fail_if (ltb 1000 n) count_large
  ok n

unfoldable pub tag_size : List ℕ → Kind → Option (List ℕ) → Result TagError ℕ
tag_size kind four_bytes none = ok 4
tag_size kind four_bytes (some arg) = err (no_argument kind)
tag_size kind static_bytes (some hex) = hex_size (hex_body hex)
tag_size kind static_bytes none = err hex_missing
tag_size kind random_bytes (some num) = count_size num
tag_size kind random_bytes none = err count_missing
tag_size kind other_kind arg = err (unknown_kind kind)

-- `splitn(2, ' ')`, with the trimmed second part.
unfoldable pub split_tag : List ℕ → Option (List ℕ × List ℕ) → Result TagError ℕ
split_tag inner (some (kind, arg)) = tag_size kind (kind_of kind) (some (trim arg))
split_tag inner none = tag_size inner (kind_of inner) none

unfoldable pub validate_init_tag : List ℕ → Result TagError ℕ
validate_init_tag inner = split_tag inner (split_once 0x20 inner)

-- `map_err`
unfoldable pub named_tag : List ℕ → Result TagError ℕ → Result SpecError ℕ
named_tag inner (ok n) = ok n
named_tag inner (err e) = err (invalid_tag inner e)

abbrev pub message_max_size : ℕ
message_max_size = 65535

unfoldable pub saturating_add : ℕ → ℕ → ℕ
saturating_add a b = min (a + b) (2 ^ 64 - 1)

-- A round, behind the `<`: the new total, the text behind the tag and its offset.
unfoldable pub take_tag : ℕ → ℕ → Option (List ℕ × List ℕ) → Result SpecError (ℕ × ℕ × List ℕ)
take_tag i total none = err (unclosed i)
take_tag i total (some (inner, behind)) = do
  size ← named_tag inner (validate_init_tag inner)
  let sum = saturating_add total size
  fail_if (ltb message_max_size sum) (too_large sum)
  ok (i + length inner + 2, sum, behind)

-- The loop. Each round takes a tag off the text, so the text's length is fuel enough.
unfoldable pub spec_loop : ℕ → ℕ → ℕ → List ℕ → Result SpecError (Unit {0})
spec_loop fuel i total [] = ok tt
spec_loop zero i total (b ∷ text) = err (unexpected b i)
spec_loop (suc fuel) i total (b ∷ text) = do
  fail_if (not (b == 0x3C)) (unexpected b i)
  (i', total', text') ← take_tag i total (split_once 0x3E text)
  spec_loop fuel i' total' text'

unfoldable pub validate_init_spec : List ℕ → Result SpecError (Unit {0})
validate_init_spec spec = spec_loop (length spec) 0 0 spec
