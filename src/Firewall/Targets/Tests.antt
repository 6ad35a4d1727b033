-- ===== src/Firewall/Targets/Tests.antt =====
-- Runs of the reading of targets.
use awg_easy_rs.Prelude.{ℕ, ◌≡◌, refl, List, none, some, Bool, ◌||◌, codes}
use awg_easy_rs.Prelude.Results.{ok, err}
use awg_easy_rs.Prelude.Strings.{same_text}
use awg_easy_rs.Firewall.{tcp, udp, bad_address, bad_port, parse_target, count_of}

abbrev is_known : List ℕ → Bool
is_known ip = same_text (codes "9.9.9.9") ip || same_text (codes "fd00::2") ip

udp_port : parse_target is_known (codes "9.9.9.9:53/udp") ≡ ok (record { ip = codes "9.9.9.9"; port = some 53; proto = some udp })
unfolding parse_target awg_easy_rs.Firewall.parse_body awg_easy_rs.Firewall.bracketed
    awg_easy_rs.Firewall.split_proto awg_easy_rs.Prelude.Strings.strip_suffix same_text
    awg_easy_rs.Prelude.Strings.strip_prefix
    awg_easy_rs.Firewall.with_port count_of awg_easy_rs.Prelude.Strings.split_once
    awg_easy_rs.Firewall.all_digits awg_easy_rs.Firewall.target_with awg_easy_rs.Firewall.checked_ip
    awg_easy_rs.Firewall.parse_port awg_easy_rs.Prelude.Numerals.from_str_radix
    awg_easy_rs.Prelude.Numerals.digits awg_easy_rs.Prelude.Numerals.digits_from
    awg_easy_rs.Prelude.Numerals.to_digit awg_easy_rs.Prelude.Numerals.digit_value
    awg_easy_rs.Firewall.target_at
udp_port = refl

ipv6_port : parse_target is_known (codes "[fd00::2]:53/udp") ≡ ok (record { ip = codes "fd00::2"; port = some 53; proto = some udp })
unfolding parse_target awg_easy_rs.Firewall.parse_body awg_easy_rs.Firewall.bracketed
    awg_easy_rs.Firewall.split_proto awg_easy_rs.Prelude.Strings.strip_suffix same_text
    awg_easy_rs.Prelude.Strings.strip_prefix
    awg_easy_rs.Firewall.with_port count_of awg_easy_rs.Prelude.Strings.split_once
    awg_easy_rs.Firewall.all_digits awg_easy_rs.Firewall.target_with awg_easy_rs.Firewall.checked_ip
    awg_easy_rs.Firewall.parse_port awg_easy_rs.Prelude.Numerals.from_str_radix
    awg_easy_rs.Prelude.Numerals.digits awg_easy_rs.Prelude.Numerals.digits_from
    awg_easy_rs.Prelude.Numerals.to_digit awg_easy_rs.Prelude.Numerals.digit_value
    awg_easy_rs.Firewall.target_at
ipv6_port = refl

ipv6_alone : parse_target is_known (codes "fd00::2") ≡ ok (record { ip = codes "fd00::2"; port = none; proto = none })
unfolding parse_target awg_easy_rs.Firewall.parse_body awg_easy_rs.Firewall.bracketed
    awg_easy_rs.Firewall.split_proto awg_easy_rs.Prelude.Strings.strip_suffix same_text
    awg_easy_rs.Prelude.Strings.strip_prefix
    awg_easy_rs.Firewall.with_port count_of awg_easy_rs.Prelude.Strings.split_once
    awg_easy_rs.Firewall.all_digits awg_easy_rs.Firewall.target_with awg_easy_rs.Firewall.checked_ip
    awg_easy_rs.Firewall.parse_port awg_easy_rs.Prelude.Numerals.from_str_radix
    awg_easy_rs.Prelude.Numerals.digits awg_easy_rs.Prelude.Numerals.digits_from
    awg_easy_rs.Prelude.Numerals.to_digit awg_easy_rs.Prelude.Numerals.digit_value
    awg_easy_rs.Firewall.target_at
ipv6_alone = refl

ipv6_brackets : parse_target is_known (codes "[fd00::2]/tcp") ≡ ok (record { ip = codes "fd00::2"; port = none; proto = some tcp })
unfolding parse_target awg_easy_rs.Firewall.parse_body awg_easy_rs.Firewall.bracketed
    awg_easy_rs.Firewall.split_proto awg_easy_rs.Prelude.Strings.strip_suffix same_text
    awg_easy_rs.Prelude.Strings.strip_prefix
    awg_easy_rs.Firewall.with_port count_of awg_easy_rs.Prelude.Strings.split_once
    awg_easy_rs.Firewall.all_digits awg_easy_rs.Firewall.target_with awg_easy_rs.Firewall.checked_ip
    awg_easy_rs.Firewall.parse_port awg_easy_rs.Prelude.Numerals.from_str_radix
    awg_easy_rs.Prelude.Numerals.digits awg_easy_rs.Prelude.Numerals.digits_from
    awg_easy_rs.Prelude.Numerals.to_digit awg_easy_rs.Prelude.Numerals.digit_value
    awg_easy_rs.Firewall.target_at
ipv6_brackets = refl

large_port : parse_target is_known (codes "9.9.9.9:65536") ≡ err bad_port
unfolding parse_target awg_easy_rs.Firewall.parse_body awg_easy_rs.Firewall.bracketed
    awg_easy_rs.Firewall.split_proto awg_easy_rs.Prelude.Strings.strip_suffix same_text
    awg_easy_rs.Prelude.Strings.strip_prefix
    awg_easy_rs.Firewall.with_port count_of awg_easy_rs.Prelude.Strings.split_once
    awg_easy_rs.Firewall.all_digits awg_easy_rs.Firewall.target_with awg_easy_rs.Firewall.checked_ip
    awg_easy_rs.Firewall.parse_port awg_easy_rs.Prelude.Numerals.from_str_radix
    awg_easy_rs.Prelude.Numerals.digits awg_easy_rs.Prelude.Numerals.digits_from
    awg_easy_rs.Prelude.Numerals.to_digit awg_easy_rs.Prelude.Numerals.digit_value
    awg_easy_rs.Firewall.target_at
large_port = refl

a_name : parse_target is_known (codes "dns.example") ≡ err bad_address
unfolding parse_target awg_easy_rs.Firewall.parse_body awg_easy_rs.Firewall.bracketed
    awg_easy_rs.Firewall.split_proto awg_easy_rs.Prelude.Strings.strip_suffix same_text
    awg_easy_rs.Prelude.Strings.strip_prefix
    awg_easy_rs.Firewall.with_port count_of awg_easy_rs.Prelude.Strings.split_once
    awg_easy_rs.Firewall.all_digits awg_easy_rs.Firewall.target_with awg_easy_rs.Firewall.checked_ip
    awg_easy_rs.Firewall.parse_port awg_easy_rs.Prelude.Numerals.from_str_radix
    awg_easy_rs.Prelude.Numerals.digits awg_easy_rs.Prelude.Numerals.digits_from
    awg_easy_rs.Prelude.Numerals.to_digit awg_easy_rs.Prelude.Numerals.digit_value
    awg_easy_rs.Firewall.target_at
a_name = refl
