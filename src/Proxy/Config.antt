-- ===== src/Proxy/Config.antt =====
-- src/proxy/config.rs: the parser of the obfuscation parameters, on the bytes of the text.
pub mod Text
pub mod Ranges
pub mod Words
pub mod Laws
use awg_easy_rs.Prelude.{
  ℕ, List, [], ◌∷◌, map, Option, none, some, Bool, true, false, ◌&&◌, ◌||◌, ltb, leb, ◌==◌,
  if◌then◌else◌, codes,
}
use awg_easy_rs.Prelude.Results.{Result, ok, err, ◌>>=◌, ◌>>◌, ok_or, fail_if}
use awg_easy_rs.Prelude.Numerals.{parse_u32}
use awg_easy_rs.Prelude.Strings.{same_text, split_once}
use awg_easy_rs.Proxy.Params.{HRange, AwgParams}
use awg_easy_rs.Proxy.Responder.Detect.{to_ascii_lowercase}
use awg_easy_rs.Proxy.Responder.Sip.Lines.{is_empty, lines, trim}
use awg_easy_rs.Proxy.Responder.Sip.Request.{eq_ignore_ascii_case}

-- The keys of the section.
pub data Key : Type 0 where
  key_jc key_jmin key_jmax key_s1 key_s2 key_s3 key_s4 key_h1 key_h2 key_h3 key_h4 : Key

-- `ProxyError::Config`, with what its message names.
pub data ConfigError : Type 0 where
  missing : Key → ConfigError
  invalid invalid_min invalid_max : Key → List ℕ → ConfigError
  range_order : Key → ℕ → ℕ → ConfigError
  jmin_above_jmax : ℕ → ℕ → ConfigError
  overlaps : Key → Key → ConfigError

-- The first argument stands for the key's name in the message.
unfoldable pub parse_number : Key → List ℕ → Result ConfigError ℕ
parse_number key value = ok_or (parse_u32 value) (invalid key value)

unfoldable pub ordered_range : Key → ℕ → ℕ → Result ConfigError HRange
ordered_range key least most = do
  fail_if (ltb most least) (range_order key least most)
  ok (record { lo = least; hi = most })

unfoldable pub split_range : Key → List ℕ → Option (List ℕ × List ℕ) → Result ConfigError HRange
split_range key value (some (min_s, max_s)) = do
  least ← ok_or (parse_u32 (trim min_s)) (invalid_min key min_s)
  most ← ok_or (parse_u32 (trim max_s)) (invalid_max key max_s)
  ordered_range key least most
split_range key value none = do
  v ← ok_or (parse_u32 value) (invalid key value)
  ok (record { lo = v; hi = v })

unfoldable pub parse_h_range : Key → List ℕ → Result ConfigError HRange
parse_h_range key value = split_range key value (split_once 0x2D value)

-- The inner loop: a range against those behind it.
unfoldable pub check_overlaps : Key → HRange → List (Key × HRange) → Result ConfigError (Unit {0})
check_overlaps name_a a [] = ok tt
check_overlaps name_a a ((name_b, b) ∷ ranges) =
    let rest = check_overlaps name_a a ranges in
    if leb a.lo b.hi && leb b.lo a.hi then err (overlaps name_a name_b) else rest

unfoldable pub check_ranges : List (Key × HRange) → Result ConfigError (Unit {0})
check_ranges [] = ok tt
check_ranges ((name_a, a) ∷ ranges) =
    let rest = check_ranges ranges in check_overlaps name_a a ranges >> rest

abbrev pub ranges : AwgParams → List (Key × HRange)
ranges p = (key_h1, p.h1) ∷ (key_h2, p.h2) ∷ (key_h3, p.h3) ∷ (key_h4, p.h4) ∷ []

unfoldable pub validate_awg_params : AwgParams → Result ConfigError (Unit {0})
validate_awg_params p = do
  fail_if (ltb p.jmax p.jmin) (jmin_above_jmax p.jmin p.jmax)
  check_ranges (ranges p)

-- The variables of the loop.
pub record Draft : Type 0 where
  pub jc : Option ℕ
  pub jmin : Option ℕ
  pub jmax : Option ℕ
  pub s1 : Option ℕ
  pub s2 : Option ℕ
  pub s3 : Option ℕ
  pub s4 : Option ℕ
  pub h1 : Option HRange
  pub h2 : Option HRange
  pub h3 : Option HRange
  pub h4 : Option HRange

abbrev pub no_values : Draft
no_values = record {
  jc = none;
  jmin = none;
  jmax = none;
  s1 = none;
  s2 = none;
  s3 = none;
  s4 = none;
  h1 = none;
  h2 = none;
  h3 = none;
  h4 = none;
}

abbrev pub key_names : List (List ℕ × Key)
key_names =
    (codes "jc", key_jc)
    ∷ (codes "jmin", key_jmin)
    ∷ (codes "jmax", key_jmax)
    ∷ (codes "s1", key_s1)
    ∷ (codes "s2", key_s2)
    ∷ (codes "s3", key_s3)
    ∷ (codes "s4", key_s4)
    ∷ (codes "h1", key_h1)
    ∷ (codes "h2", key_h2)
    ∷ (codes "h3", key_h3)
    ∷ (codes "h4", key_h4)
    ∷ []

-- The arm of the match that a lowercase key takes, if it is not the last.
unfoldable pub find_key : List (List ℕ × Key) → List ℕ → Option Key
find_key [] text = none
find_key ((name, key) ∷ names) text =
    let rest = find_key names text in if same_text name text then some key else rest

unfoldable pub set_value : Key → List ℕ → Draft → Result ConfigError Draft
set_value key_jc v d = parse_number key_jc v >>= λ n. ok (record d { jc = some n })
set_value key_jmin v d = parse_number key_jmin v >>= λ n. ok (record d { jmin = some n })
set_value key_jmax v d = parse_number key_jmax v >>= λ n. ok (record d { jmax = some n })
set_value key_s1 v d = parse_number key_s1 v >>= λ n. ok (record d { s1 = some n })
set_value key_s2 v d = parse_number key_s2 v >>= λ n. ok (record d { s2 = some n })
set_value key_s3 v d = parse_number key_s3 v >>= λ n. ok (record d { s3 = some n })
set_value key_s4 v d = parse_number key_s4 v >>= λ n. ok (record d { s4 = some n })
set_value key_h1 v d = parse_h_range key_h1 v >>= λ r. ok (record d { h1 = some r })
set_value key_h2 v d = parse_h_range key_h2 v >>= λ r. ok (record d { h2 = some r })
set_value key_h3 v d = parse_h_range key_h3 v >>= λ r. ok (record d { h3 = some r })
set_value key_h4 v d = parse_h_range key_h4 v >>= λ r. ok (record d { h4 = some r })

unfoldable pub set_entry : List ℕ × List ℕ → Draft → Result ConfigError Draft
set_entry (key, value) d = elim (find_key key_names (map to_ascii_lowercase (trim key))) [
  | none ↦ ok d
  | some k ↦ set_value k (trim value) d
]

-- A line of the section.
unfoldable pub take_entry : List ℕ → Draft → Result ConfigError Draft
take_entry [] d = ok d
take_entry (b ∷ trimmed) d =
    if b == 0x23 || b == 0x3B
    then ok d
    else elim (split_once 0x3D (b ∷ trimmed)) [ none ↦ ok d | some entry ↦ set_entry entry d ]

unfoldable pub starts_with_bracket : List ℕ → Bool
starts_with_bracket [] = false
starts_with_bracket (b ∷ trimmed) = b == 0x5B

-- The loop over the lines. The flag is `in_interface`.
unfoldable pub take_config_lines : Bool → List (List ℕ) → Draft → Result ConfigError Draft
take_config_lines in_interface [] d = ok d
take_config_lines in_interface (line ∷ rest) d = elim (starts_with_bracket (trim line)) [
  | true ↦ take_config_lines (eq_ignore_ascii_case (codes "[interface]") (trim line)) rest d
  | false ↦ elim in_interface [
    | true ↦ take_entry (trim line) d >>= take_config_lines true rest
    | false ↦ take_config_lines false rest d
  ]
]

unfoldable pub finish : Draft → Result ConfigError AwgParams
finish d = do
  jc ← ok_or d.jc (missing key_jc)
  jmin ← ok_or d.jmin (missing key_jmin)
  jmax ← ok_or d.jmax (missing key_jmax)
  s1 ← ok_or d.s1 (missing key_s1)
  s2 ← ok_or d.s2 (missing key_s2)
  s3 ← ok_or d.s3 (missing key_s3)
  s4 ← ok_or d.s4 (missing key_s4)
  h1 ← ok_or d.h1 (missing key_h1)
  h2 ← ok_or d.h2 (missing key_h2)
  h3 ← ok_or d.h3 (missing key_h3)
  h4 ← ok_or d.h4 (missing key_h4)
  let p : AwgParams = record {
    jc = jc;
    jmin = jmin;
    jmax = jmax;
    s1 = s1;
    s2 = s2;
    s3 = s3;
    s4 = s4;
    h1 = h1;
    h2 = h2;
    h3 = h3;
    h4 = h4;
  }
  validate_awg_params p >> ok p

unfoldable pub parse_awg_config : List ℕ → Result ConfigError AwgParams
parse_awg_config text = take_config_lines false (lines text) no_values >>= finish
