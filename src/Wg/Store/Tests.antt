-- ===== src/Wg/Store/Tests.antt =====
-- Runs of the generator, and of what is made of its parameters.
use awg_easy_rs.Prelude.{
  ℕ, ◌≡◌, refl, List, [], ◌∷◌, All, IsByte, none, some, Bool, true, false, ◌&&◌, ltb, replicate,
  codes, decimal, decimal_loop, hex_digit, arith,
}
use awg_easy_rs.Prelude.Ints.{pos, decimal_int}
use awg_easy_rs.Prelude.Results.{ok}
use awg_easy_rs.Rng.{
  range_incl_i64, range_excl_i64, u64_below, distance, below_loop, u64_from_le_bytes, reject_below,
  wrap_i64, as_i64, byte,
}
use awg_easy_rs.Rng.Below.{source_of}
use awg_easy_rs.Db.{Interface}
use awg_easy_rs.Proxy.Params
use awg_easy_rs.Proxy.Supervisor.{build_awg_params}
use awg_easy_rs.Wg.Params.{AwgParams, validate_awg_params}
use awg_easy_rs.Wg.InitSpec.{validate_init_spec}
use awg_easy_rs.Wg.Splits.{
  draw_splits, contains, dedup, dedup_from, draw_many, fill_loop, insert, push_split, sort,
}
use awg_easy_rs.Wg.Generate.{
  gen_incl, max_int, as_i32, repeat, retry, gen_pair, is_apart, hex2, index, random_hex, window,
  generate_awg_params,
}
use awg_easy_rs.Wg.Generate.Shape.{printed_params}
use awg_easy_rs.Wg.Generate.Valid.{generate_awg_params_valid}
use awg_easy_rs.Wg.Store.{update_interface_awg_params}
use awg_easy_rs.Wg.Store.Laws.{generated_round_trip}

-- Seven words for the numbers and the paddings, eight for the windows, and 48 bytes.
abbrev words : List ℕ
words =
    1000000 ∷ 1000007 ∷ 1000014 ∷ 1000021 ∷ 1000028 ∷ 1000035 ∷ 1000042 ∷ 21474836420 ∷ 21474836430
    ∷ 21474836440 ∷ 21474836450 ∷ 21474836460 ∷ 21474836470 ∷ 21474836480 ∷ 21474836490 ∷ []

abbrev source : List ℕ
source = source_of words (replicate 48 171)

abbrev numbers : Params.AwgParams
numbers = record {
  jc = 5;
  jmin = 61;
  jmax = 98;
  s1 = 28;
  s2 = 35;
  s3 = 42;
  s4 = 49;
  h1 = record { lo = 5; hi = 15 };
  h2 = record { lo = 25; hi = 35 };
  h3 = record { lo = 45; hi = 55 };
  h4 = record { lo = 65; hi = 75 };
}

abbrev hex : List ℕ
hex =
    codes
      "abababababababababababababababababababababababababababababababababababababababababababababababab"

abbrev drawn : AwgParams
drawn = printed_params numbers hex

abbrev no_text : List ℕ
no_text = []

abbrev iface : Interface
iface = record {
  name = codes "awg0";
  device = codes "eth0";
  port = pos 51820;
  private_key = no_text;
  public_key = no_text;
  ipv4_cidr = codes "10.8.0.0/24";
  ipv6_cidr = codes "fdcc::/112";
  mtu = pos 1420;
  j_c = pos 7;
  j_min = pos 10;
  j_max = pos 1000;
  s1 = pos 128;
  s2 = pos 56;
  s3 = none;
  s4 = none;
  h1 = no_text;
  h2 = no_text;
  h3 = no_text;
  h4 = no_text;
  i1 = no_text;
  i2 = no_text;
  i3 = no_text;
  i4 = no_text;
  i5 = no_text;
  firewall_enabled = false;
  dns_lockdown = false;
  dns_lockdown_target = no_text;
  dns_block_external = false;
  additional_config = no_text;
  enabled = true;
  created_at = no_text;
  updated_at = no_text;
}

abbrev all_bytes : List ℕ → Bool
all_bytes [] = true
all_bytes (b ∷ bs) = ltb b 256 && all_bytes bs

all_bytes-IsByte : (bs : List ℕ) → all_bytes bs ≡ true → All IsByte bs
all_bytes-IsByte [] h = tt
all_bytes-IsByte (b ∷ bs) h = ground (arith, all_bytes-IsByte bs)

source_bytes : All IsByte source
source_bytes = all_bytes-IsByte source refl

generates : generate_awg_params source ≡ ok (drawn, [])
unfolding generate_awg_params gen_incl range_incl_i64 u64_below distance below_loop
    u64_from_le_bytes reject_below max_int as_i32 wrap_i64 as_i64 repeat retry gen_pair is_apart
    draw_splits decimal_int decimal decimal_loop hex_digit byte range_excl_i64 hex2 index random_hex
    window contains dedup dedup_from draw_many fill_loop insert push_split sort
generates = refl

generate_awg_params_valid_example :
    (validate_awg_params drawn ≡ ok tt)
    × ((spec : List ℕ) × (drawn.i1 ≡ some spec) × (validate_init_spec spec ≡ ok tt))
generate_awg_params_valid_example = generate_awg_params_valid source drawn [] source_bytes generates

generated_round_trip_example :
    (q : Params.AwgParams) × (hex : List ℕ) × (drawn ≡ printed_params q hex)
    × (build_awg_params (update_interface_awg_params drawn iface) ≡ some q)
generated_round_trip_example = generated_round_trip iface source drawn [] source_bytes generates
