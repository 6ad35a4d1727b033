-- ===== src/Wg/InitSpec/Tests.antt =====
-- Runs of the check of the tags.
use awg_easy_rs.Prelude.{ℕ, ◌≤◌, ◌≡◌, ◌↔◌, refl, List, codes}
use awg_easy_rs.Prelude.Results.{ok, err}
use awg_easy_rs.Wg.InitSpec.{validate_init_spec, unexpected, invalid_tag, hex_length, too_large}
use awg_easy_rs.Wg.InitSpec.Grammar.{IsSpec, validate_init_spec_iff}

accepts : validate_init_spec (codes "<r 2><b 0xf6ab><t>") ≡ ok tt
unfolding validate_init_spec awg_easy_rs.Wg.InitSpec.spec_loop awg_easy_rs.Wg.InitSpec.take_tag
    awg_easy_rs.Prelude.Strings.split_once awg_easy_rs.Wg.InitSpec.named_tag
    awg_easy_rs.Wg.InitSpec.validate_init_tag awg_easy_rs.Wg.InitSpec.split_tag
    awg_easy_rs.Wg.InitSpec.tag_size awg_easy_rs.Wg.InitSpec.kind_of
    awg_easy_rs.Prelude.Strings.same_text awg_easy_rs.Wg.InitSpec.count_size
    awg_easy_rs.Prelude.Numerals.parse_u64 awg_easy_rs.Prelude.Numerals.from_str_radix
    awg_easy_rs.Proxy.Responder.Sip.Lines.trim awg_easy_rs.Proxy.Responder.Sip.Lines.trim_front
    awg_easy_rs.Proxy.Responder.Sip.Lines.white_len awg_easy_rs.Proxy.Responder.Sip.Lines.begins
    awg_easy_rs.Prelude.Numerals.digits awg_easy_rs.Prelude.Numerals.digit_value
    awg_easy_rs.Prelude.Numerals.digits_from awg_easy_rs.Prelude.Numerals.to_digit
    awg_easy_rs.Prelude.Strings.strip_prefix awg_easy_rs.Wg.InitSpec.all_hex
    awg_easy_rs.Wg.InitSpec.hex_body awg_easy_rs.Wg.InitSpec.hex_size
    awg_easy_rs.Wg.InitSpec.or_else awg_easy_rs.Wg.InitSpec.saturating_add
accepts = refl

text_between : validate_init_spec (codes "<t> <c>") ≡ err (unexpected 0x20 3)
unfolding validate_init_spec awg_easy_rs.Wg.InitSpec.spec_loop awg_easy_rs.Wg.InitSpec.take_tag
    awg_easy_rs.Prelude.Strings.split_once awg_easy_rs.Wg.InitSpec.named_tag
    awg_easy_rs.Wg.InitSpec.validate_init_tag awg_easy_rs.Wg.InitSpec.split_tag
    awg_easy_rs.Wg.InitSpec.tag_size awg_easy_rs.Wg.InitSpec.kind_of
    awg_easy_rs.Prelude.Strings.same_text awg_easy_rs.Wg.InitSpec.saturating_add
text_between = refl

-- Digits without `0x` pass too.
bare_digits : validate_init_spec (codes "<b f6ab>") ≡ ok tt
unfolding validate_init_spec awg_easy_rs.Wg.InitSpec.spec_loop awg_easy_rs.Wg.InitSpec.take_tag
    awg_easy_rs.Prelude.Strings.split_once awg_easy_rs.Wg.InitSpec.named_tag
    awg_easy_rs.Wg.InitSpec.validate_init_tag awg_easy_rs.Wg.InitSpec.split_tag
    awg_easy_rs.Wg.InitSpec.tag_size awg_easy_rs.Wg.InitSpec.kind_of
    awg_easy_rs.Prelude.Strings.same_text awg_easy_rs.Wg.InitSpec.count_size
    awg_easy_rs.Prelude.Numerals.parse_u64 awg_easy_rs.Prelude.Numerals.from_str_radix
    awg_easy_rs.Proxy.Responder.Sip.Lines.trim awg_easy_rs.Proxy.Responder.Sip.Lines.trim_front
    awg_easy_rs.Proxy.Responder.Sip.Lines.white_len awg_easy_rs.Proxy.Responder.Sip.Lines.begins
    awg_easy_rs.Prelude.Numerals.digits awg_easy_rs.Prelude.Numerals.digit_value
    awg_easy_rs.Prelude.Numerals.digits_from awg_easy_rs.Prelude.Numerals.to_digit
    awg_easy_rs.Prelude.Strings.strip_prefix awg_easy_rs.Wg.InitSpec.all_hex
    awg_easy_rs.Wg.InitSpec.hex_body awg_easy_rs.Wg.InitSpec.hex_size
    awg_easy_rs.Wg.InitSpec.or_else awg_easy_rs.Wg.InitSpec.saturating_add
bare_digits = refl

odd_digits : validate_init_spec (codes "<b 0xf>") ≡ err (invalid_tag (codes "b 0xf") hex_length)
unfolding validate_init_spec awg_easy_rs.Wg.InitSpec.spec_loop awg_easy_rs.Wg.InitSpec.take_tag
    awg_easy_rs.Prelude.Strings.split_once awg_easy_rs.Wg.InitSpec.named_tag
    awg_easy_rs.Wg.InitSpec.validate_init_tag awg_easy_rs.Wg.InitSpec.split_tag
    awg_easy_rs.Wg.InitSpec.tag_size awg_easy_rs.Wg.InitSpec.kind_of
    awg_easy_rs.Prelude.Strings.same_text awg_easy_rs.Wg.InitSpec.hex_size
    awg_easy_rs.Wg.InitSpec.hex_body awg_easy_rs.Wg.InitSpec.or_else
    awg_easy_rs.Prelude.Strings.strip_prefix awg_easy_rs.Proxy.Responder.Sip.Lines.trim
    awg_easy_rs.Proxy.Responder.Sip.Lines.trim_front awg_easy_rs.Proxy.Responder.Sip.Lines.white_len
    awg_easy_rs.Proxy.Responder.Sip.Lines.begins awg_easy_rs.Prelude.Numerals.digit_value
    awg_easy_rs.Prelude.Numerals.digits awg_easy_rs.Prelude.Numerals.digits_from
    awg_easy_rs.Prelude.Numerals.from_str_radix awg_easy_rs.Prelude.Numerals.parse_u64
    awg_easy_rs.Prelude.Numerals.to_digit awg_easy_rs.Wg.InitSpec.all_hex
    awg_easy_rs.Wg.InitSpec.count_size awg_easy_rs.Wg.InitSpec.saturating_add
odd_digits = refl

validate_init_spec_iff_example :
    (validate_init_spec (codes "<rc 10>") ≡ ok tt) ↔ IsSpec (codes "<rc 10>")
validate_init_spec_iff_example = validate_init_spec_iff (codes "<rc 10>")
