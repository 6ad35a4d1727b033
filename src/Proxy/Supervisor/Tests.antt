-- ===== src/Proxy/Supervisor/Tests.antt =====
-- Runs of the supervisor's configuration.
use awg_easy_rs.Prelude.{
  ℕ, ◌+◌, ◌≤◌, ◌<◌, ◌≡◌, refl, inl, inr, List, [], ◌∷◌, ◌++◌, All, Option, none, some, Bool, true,
  false, codes, decimal, decimal_loop, arith,
}
use awg_easy_rs.Prelude.Ints.{ℤ, pos, negsuc}
use awg_easy_rs.Prelude.Results.{ok, ◌>>=◌}
use awg_easy_rs.Db.{Interface}
use awg_easy_rs.Proxy.Params.{HRange, AwgParams}
use awg_easy_rs.Proxy.Config.{validate_awg_params, parse_awg_config}
use awg_easy_rs.Proxy.Config.Ranges.{IsValid}
use awg_easy_rs.Proxy.Config.Words.{IsRange}
use awg_easy_rs.Proxy.Config.Laws.{HoldsWords, parse_awg_config-IsValid}
use awg_easy_rs.Proxy.Supervisor.{
  effective_backend_port, should_remain_disabled, port_collides, norm_h, printed_range, awg_text,
  build_awg_params,
}
use awg_easy_rs.Proxy.Supervisor.Params.{
  Carries, parse_awg_config-awg_text, build_awg_params_invalid,
}
use awg_easy_rs.Proxy.Supervisor.Headers.{printed_range-Shows}

abbrev no_text : List ℕ
no_text = []

abbrev range : ℕ → ℕ → HRange
range lo hi = record { lo = lo; hi = hi }

abbrev params_with : HRange → HRange → AwgParams
params_with h1 h2 = record {
  jc = 7;
  jmin = 10;
  jmax = 1000;
  s1 = 128;
  s2 = 56;
  s3 = 20;
  s4 = 0;
  h1 = h1;
  h2 = h2;
  h3 = range 400 500;
  h4 = range 600 700;
}

abbrev iface_with : HRange → HRange → Interface
iface_with h1 h2 = record {
  name = codes "awg0";
  device = codes "eth0";
  port = pos 51820;
  private_key = no_text;
  public_key = no_text;
  ipv4_cidr = codes "10.8.0.0/24";
  ipv6_cidr = codes "fdcc::/112";
  mtu = pos 1420;
  j_c = pos 7;
  j_min = pos 10;
  j_max = pos 1000;
  s1 = pos 128;
  s2 = pos 56;
  s3 = some (pos 20);
  s4 = none;
  h1 = printed_range h1.lo h1.hi;
  h2 = printed_range h2.lo h2.hi;
  h3 = codes "400-500";
  h4 = codes "600-700";
  i1 = no_text;
  i2 = no_text;
  i3 = no_text;
  i4 = no_text;
  i5 = no_text;
  firewall_enabled = false;
  dns_lockdown = false;
  dns_lockdown_target = no_text;
  dns_block_external = false;
  additional_config = no_text;
  enabled = true;
  created_at = no_text;
  updated_at = no_text;
}

carries :
    (h1 h2 : HRange) → IsRange h1 → IsRange h2 → Carries (iface_with h1 h2) (params_with h1 h2)
unfolding decimal decimal_loop
carries h1 h2 r1 r2 = record {
  jc = (refl, omega arith);
  jmin = (refl, omega arith);
  jmax = (refl, omega arith);
  s1 = (refl, omega arith);
  s2 = (refl, omega arith);
  s3 = (refl, omega arith);
  s4 = (refl, omega arith);
  h1 = printed_range-Shows h1 r1;
  h2 = printed_range-Shows h2 r2;
  h3 = printed_range-Shows (range 400 500) (omega arith, omega arith);
  h4 = printed_range-Shows (range 600 700) (omega arith, omega arith);
}

parse_awg_config-awg_text_example :
    parse_awg_config (awg_text (iface_with (range 5 100) (range 200 300))) ≡ (
      validate_awg_params (params_with (range 5 100) (range 200 300)) >>= λ t.
      ok (params_with (range 5 100) (range 200 300)))
parse_awg_config-awg_text_example =
    parse_awg_config-awg_text (iface_with (range 5 100) (range 200 300))
      (params_with (range 5 100) (range 200 300))
      (carries (range 5 100) (range 200 300) (omega arith, omega arith) (omega arith, omega arith))

overlapping : ¬ (IsValid (params_with (range 5 100) (range 100 300)))
overlapping v = elim (v.1.0.0) [ inl h ↦ omega arith | inr h ↦ omega arith ]

build_awg_params_invalid_example :
    build_awg_params (iface_with (range 5 100) (range 100 300)) ≡ none
build_awg_params_invalid_example =
    build_awg_params_invalid (iface_with (range 5 100) (range 100 300))
      (params_with (range 5 100) (range 100 300))
      (carries (range 5 100) (range 100 300) (omega arith, omega arith) (omega arith, omega arith))
      overlapping

-- Parsing with comments, other sections, spaces and a key that stands twice.
abbrev text_of : List (List ℕ) → List ℕ
text_of [] = []
text_of (line ∷ rest) = line ++ (0x0A ∷ text_of rest)

abbrev conf : List ℕ
conf = text_of (
    codes "; generated"
    ∷ codes "[INTERFACE]"
    ∷ codes "Address = 10.8.0.1/24"
    ∷ codes "  jc = 9"
    ∷ codes "Jc = +7"
    ∷ codes "JMIN = 10"
    ∷ codes "Jmax = 1000 "
    ∷ codes "# S1 = 1"
    ∷ codes "S1=128"
    ∷ codes "S2=56"
    ∷ codes "S3=20"
    ∷ codes "S4=0"
    ∷ codes "H1=5 - 100"
    ∷ codes "H2=200-300"
    ∷ codes "H3=400-500"
    ∷ codes "H4=600-700"
    ∷ codes "[Peer]"
    ∷ codes "Jc = none"
    ∷ [])

parses : parse_awg_config conf ≡ ok (params_with (range 5 100) (range 200 300))
unfolding parse_awg_config awg_easy_rs.Proxy.Config.take_config_lines
    awg_easy_rs.Proxy.Config.starts_with_bracket awg_easy_rs.Proxy.Config.take_entry
    awg_easy_rs.Proxy.Config.set_entry awg_easy_rs.Proxy.Config.find_key
    awg_easy_rs.Proxy.Config.set_value awg_easy_rs.Proxy.Config.check_overlaps
    awg_easy_rs.Proxy.Config.check_ranges awg_easy_rs.Proxy.Config.finish
    awg_easy_rs.Proxy.Config.ordered_range awg_easy_rs.Proxy.Config.parse_h_range
    awg_easy_rs.Proxy.Config.parse_number awg_easy_rs.Proxy.Config.split_range validate_awg_params
    awg_easy_rs.Proxy.Responder.Sip.Lines.lines awg_easy_rs.Proxy.Responder.Sip.Lines.lines_from
    awg_easy_rs.Proxy.Responder.Sip.Lines.trim awg_easy_rs.Proxy.Responder.Sip.Lines.trim_front
    awg_easy_rs.Proxy.Responder.Sip.Lines.white_len awg_easy_rs.Proxy.Responder.Sip.Lines.begins
    awg_easy_rs.Proxy.Responder.Sip.Request.eq_ignore_ascii_case
    awg_easy_rs.Proxy.Responder.Detect.starts_with_ignore_case
    awg_easy_rs.Proxy.Responder.Detect.to_ascii_lowercase awg_easy_rs.Prelude.Strings.split_once
    awg_easy_rs.Prelude.Strings.same_text awg_easy_rs.Prelude.Numerals.digit_value
    awg_easy_rs.Prelude.Numerals.digits awg_easy_rs.Prelude.Numerals.digits_from
    awg_easy_rs.Prelude.Numerals.from_str_radix awg_easy_rs.Prelude.Numerals.parse_u32
    awg_easy_rs.Prelude.Numerals.to_digit
parses = refl

parse_awg_config-IsValid_example :
    IsValid (params_with (range 5 100) (range 200 300))
    × HoldsWords (params_with (range 5 100) (range 200 300))
parse_awg_config-IsValid_example =
    parse_awg_config-IsValid conf (params_with (range 5 100) (range 200 300)) parses

-- Hexadecimal headers are made decimal, with the spaces around them gone.
norm_hex : norm_h (codes " 0x10 - 0XfF ") ≡ codes "16-255"
unfolding norm_h awg_easy_rs.Proxy.Supervisor.norm_trimmed awg_easy_rs.Proxy.Supervisor.norm_split
    awg_easy_rs.Proxy.Supervisor.norm_range awg_easy_rs.Proxy.Supervisor.norm_number
    awg_easy_rs.Proxy.Supervisor.parse_h_token awg_easy_rs.Proxy.Supervisor.token_value
    awg_easy_rs.Proxy.Supervisor.hex_prefix awg_easy_rs.Proxy.Responder.Sip.Lines.trim
    awg_easy_rs.Proxy.Responder.Sip.Lines.trim_front awg_easy_rs.Proxy.Responder.Sip.Lines.white_len
    awg_easy_rs.Proxy.Responder.Sip.Lines.begins awg_easy_rs.Prelude.Strings.split_once
    awg_easy_rs.Prelude.Strings.same_text awg_easy_rs.Prelude.Strings.strip_prefix
    awg_easy_rs.Prelude.Numerals.digit_value awg_easy_rs.Prelude.Numerals.digits
    awg_easy_rs.Prelude.Numerals.digits_from awg_easy_rs.Prelude.Numerals.from_str_radix
    awg_easy_rs.Prelude.Numerals.parse_u32 awg_easy_rs.Prelude.Numerals.to_digit decimal
    decimal_loop
norm_hex = refl

-- Two blank headers are read as the same range, which overlaps itself: no parameters at all.
blank_headers :
    build_awg_params
      (record (iface_with (range 5 100) (range 200 300)) { h1 = no_text; h2 = no_text })
    ≡ none
unfolding build_awg_params norm_h parse_awg_config awg_text awg_easy_rs.Proxy.Supervisor.accepted
    awg_easy_rs.Proxy.Supervisor.awg_entries awg_easy_rs.Proxy.Supervisor.entry_lines
    awg_easy_rs.Proxy.Supervisor.norm_trimmed awg_easy_rs.Proxy.Supervisor.norm_split
    awg_easy_rs.Proxy.Supervisor.norm_range awg_easy_rs.Proxy.Supervisor.norm_number
    awg_easy_rs.Proxy.Supervisor.parse_h_token awg_easy_rs.Proxy.Supervisor.token_value
    awg_easy_rs.Proxy.Supervisor.hex_prefix awg_easy_rs.Proxy.Config.take_config_lines
    awg_easy_rs.Proxy.Config.starts_with_bracket awg_easy_rs.Proxy.Config.take_entry
    awg_easy_rs.Proxy.Config.set_entry awg_easy_rs.Proxy.Config.find_key
    awg_easy_rs.Proxy.Config.set_value awg_easy_rs.Proxy.Config.check_overlaps
    awg_easy_rs.Proxy.Config.check_ranges awg_easy_rs.Proxy.Config.finish
    awg_easy_rs.Proxy.Config.ordered_range awg_easy_rs.Proxy.Config.parse_h_range
    awg_easy_rs.Proxy.Config.parse_number awg_easy_rs.Proxy.Config.split_range validate_awg_params
    awg_easy_rs.Proxy.Responder.Sip.Lines.lines awg_easy_rs.Proxy.Responder.Sip.Lines.lines_from
    awg_easy_rs.Proxy.Responder.Sip.Lines.trim awg_easy_rs.Proxy.Responder.Sip.Lines.trim_front
    awg_easy_rs.Proxy.Responder.Sip.Lines.white_len awg_easy_rs.Proxy.Responder.Sip.Lines.begins
    awg_easy_rs.Proxy.Responder.Sip.Request.eq_ignore_ascii_case
    awg_easy_rs.Proxy.Responder.Detect.starts_with_ignore_case
    awg_easy_rs.Proxy.Responder.Detect.to_ascii_lowercase awg_easy_rs.Prelude.Strings.split_once
    awg_easy_rs.Prelude.Strings.same_text awg_easy_rs.Prelude.Strings.strip_prefix
    awg_easy_rs.Prelude.Numerals.digit_value awg_easy_rs.Prelude.Numerals.digits
    awg_easy_rs.Prelude.Numerals.digits_from awg_easy_rs.Prelude.Numerals.from_str_radix
    awg_easy_rs.Prelude.Numerals.parse_u32 awg_easy_rs.Prelude.Numerals.to_digit decimal
    decimal_loop awg_easy_rs.Prelude.Ints.decimal_int
blank_headers = refl
