-- ===== src/Proxy/Call/Tests.antt =====
-- A call from its INVITE to its BYE.
use awg_easy_rs.Prelude.{
  ℕ, ◌≤◌, ◌≡◌, refl, List, [], ◌∷◌, ◌++◌, Option, none, some, true, length, codes, All, hex8,
  hex_digit,
}
use awg_easy_rs.Proxy.Responder.Sip.{
  idle, established, terminated, SipDialog, crlf, build_sip_response, sip_response_len,
  sip_dialog_tag, hash_loop, sip_reflected_responses_fit, sip_response_fits, via_len, header_len,
  to_len, sip_to_has_tag, behind_bracket, tag_loop, tag_here, put_header, put_via, put_to,
}
use awg_easy_rs.Proxy.Responder.Sip.Length.{IsBounded}
use awg_easy_rs.Proxy.Responder.Sip.Request.{
  from_request, scanned_text, take_lines, take_line, checked, is_missing, any_empty_value,
  dialog_of, from_invite, sip_method, first_word, eq_ignore_ascii_case, update_request_headers,
  update_lines, update_line, take_over, with_via, with_cseq,
}
use awg_easy_rs.Proxy.Responder.Sip.Stage.{
  method_of, is_standalone, generate_sip_responses, generate_sip_ok, generate_sip_ringing,
  invite_responses, bye_responses, cancel_responses, sip_next_stage,
}
use awg_easy_rs.Proxy.Responder.Sip.Trying.{generate_sip_trying, length-generate_sip_trying}
use awg_easy_rs.Proxy.Responder.Sip.Lines.{
  sip_uses_crlf_line_endings, crlf_from, lines, lines_from, sip_header_line, sip_header_value,
  behind_colon, trim, trim_front, white_len, begins, skip_blanks, words_from, all_alphabetic,
  is_ascii_whitespace, is_ascii_alphabetic,
}
use awg_easy_rs.Proxy.Responder.Detect.{
  is_utf8, utf8_from, utf8_lead, starts_with_ignore_case, to_ascii_lowercase,
}
use awg_easy_rs.Proxy.Call.{
  handle_method, handle_sip_probe, sip_stage_after_immediate_response, immediate, delivered,
  advance, any_ringing, invite_stage, deferred_ringing, deferred_ok, stateless,
}
use awg_easy_rs.Proxy.Call.Routing.{route, route_invite, route_other, same_call, same_bytes}
use awg_easy_rs.Proxy.Call.Runs.{Event, probe, ringing_due, ok_due, run, run-IsBounded}
use awg_easy_rs.Proxy.Call.Entry.{Established}
use awg_easy_rs.Proxy.Call.Answered.{WasAnswered, run-Established}

abbrev headers : List ℕ
headers =
    codes "Via: SIP/2.0/UDP a"
    ++ (crlf
        ++ (codes "From: <sip:a>;tag=1"
            ++ (crlf
                ++ (codes "To: <sip:b>"
                    ++ (crlf
                        ++ (codes "Call-ID: 7@a"
                            ++ (crlf ++ (codes "CSeq: 1 INVITE" ++ (crlf ++ crlf)))))))))

abbrev invite_packet : List ℕ
invite_packet = codes "INVITE sip:b SIP/2.0" ++ (crlf ++ headers)

abbrev bye_packet : List ℕ
bye_packet = codes "BYE sip:b SIP/2.0" ++ (crlf ++ headers)

abbrev call_id : List ℕ
call_id = codes "7@a"

abbrev no_dialog : SipDialog
no_dialog = record {
  stage = idle;
  via = [];
  invite_via = [];
  from_line = [];
  to_line = [];
  to_tag = [];
  call_id = [];
  call_id_value = [];
  invite_cseq = [];
  cseq = [];
}

abbrev dialog_or : Option SipDialog → SipDialog
dialog_or none = no_dialog
dialog_or (some d) = d

abbrev called : SipDialog
called = dialog_or (from_request invite_packet)

abbrev events : List Event
events = probe invite_packet (true ∷ []) ∷ ringing_due call_id true ∷ ok_due call_id true ∷ []

parsed : from_request invite_packet ≡ some called
unfolding from_request scanned_text sip_uses_crlf_line_endings crlf_from is_utf8 utf8_from utf8_lead
    take_lines lines lines_from sip_header_line take_line starts_with_ignore_case to_ascii_lowercase
    checked is_missing any_empty_value sip_header_value behind_colon trim trim_front white_len
    begins skip_blanks dialog_of sip_dialog_tag hash_loop sip_reflected_responses_fit
    sip_response_fits sip_response_len via_len header_len to_len sip_to_has_tag behind_bracket
    tag_loop tag_here hex8 hex_digit
parsed = refl

answered : (run events none).0 ≡ some (record called { stage = established })
unfolding from_request scanned_text sip_uses_crlf_line_endings crlf_from is_utf8 utf8_from utf8_lead
    take_lines lines lines_from sip_header_line take_line starts_with_ignore_case to_ascii_lowercase
    checked is_missing any_empty_value sip_header_value behind_colon trim trim_front white_len
    begins skip_blanks dialog_of sip_dialog_tag hash_loop sip_reflected_responses_fit
    sip_response_fits sip_response_len via_len header_len to_len sip_to_has_tag behind_bracket
    tag_loop tag_here hex8 hex_digit handle_sip_probe handle_method method_of is_standalone route
    route_invite route_other immediate delivered advance any_ringing
    sip_stage_after_immediate_response invite_stage deferred_ringing deferred_ok same_call
    same_bytes stateless from_invite sip_method first_word words_from all_alphabetic
    is_ascii_whitespace is_ascii_alphabetic eq_ignore_ascii_case generate_sip_responses
    invite_responses bye_responses cancel_responses build_sip_response put_header put_via put_to
    sip_next_stage update_request_headers update_lines update_line take_over with_via with_cseq
    generate_sip_ok generate_sip_ringing
answered = refl

hung_up :
    (run (probe bye_packet (true ∷ []) ∷ []) (run events none).0).0
    ≡ some (record called { stage = terminated })
unfolding from_request scanned_text sip_uses_crlf_line_endings crlf_from is_utf8 utf8_from utf8_lead
    take_lines lines lines_from sip_header_line take_line starts_with_ignore_case to_ascii_lowercase
    checked is_missing any_empty_value sip_header_value behind_colon trim trim_front white_len
    begins skip_blanks dialog_of sip_dialog_tag hash_loop sip_reflected_responses_fit
    sip_response_fits sip_response_len via_len header_len to_len sip_to_has_tag behind_bracket
    tag_loop tag_here hex8 hex_digit handle_sip_probe handle_method method_of is_standalone route
    route_invite route_other immediate delivered advance any_ringing
    sip_stage_after_immediate_response invite_stage deferred_ringing deferred_ok same_call
    same_bytes stateless from_invite sip_method first_word words_from all_alphabetic
    is_ascii_whitespace is_ascii_alphabetic eq_ignore_ascii_case generate_sip_responses
    invite_responses bye_responses cancel_responses build_sip_response put_header put_via put_to
    sip_next_stage update_request_headers update_lines update_line take_over with_via with_cseq
    generate_sip_ok generate_sip_ringing
hung_up = refl

-- Three packets were sent.
three_sent : length (run events none).1 ≡ 3
unfolding from_request scanned_text sip_uses_crlf_line_endings crlf_from is_utf8 utf8_from utf8_lead
    take_lines lines lines_from sip_header_line take_line starts_with_ignore_case to_ascii_lowercase
    checked is_missing any_empty_value sip_header_value behind_colon trim trim_front white_len
    begins skip_blanks dialog_of sip_dialog_tag hash_loop sip_reflected_responses_fit
    sip_response_fits sip_response_len via_len header_len to_len sip_to_has_tag behind_bracket
    tag_loop tag_here hex8 hex_digit handle_sip_probe handle_method method_of is_standalone route
    route_invite route_other immediate delivered advance any_ringing
    sip_stage_after_immediate_response invite_stage deferred_ringing deferred_ok same_call
    same_bytes stateless from_invite sip_method first_word words_from all_alphabetic
    is_ascii_whitespace is_ascii_alphabetic eq_ignore_ascii_case generate_sip_responses
    invite_responses bye_responses cancel_responses build_sip_response put_header put_via put_to
    sip_next_stage update_request_headers update_lines update_line take_over with_via with_cseq
    generate_sip_ok generate_sip_ringing
three_sent = refl

in_the_end : Established called.call_id_value (run events none).0
unfolding from_request scanned_text sip_uses_crlf_line_endings crlf_from is_utf8 utf8_from utf8_lead
    take_lines lines lines_from sip_header_line take_line starts_with_ignore_case to_ascii_lowercase
    checked is_missing any_empty_value sip_header_value behind_colon trim trim_front white_len
    begins skip_blanks dialog_of sip_dialog_tag hash_loop sip_reflected_responses_fit
    sip_response_fits sip_response_len via_len header_len to_len sip_to_has_tag behind_bracket
    tag_loop tag_here hex8 hex_digit handle_sip_probe handle_method method_of is_standalone route
    route_invite route_other immediate delivered advance any_ringing
    sip_stage_after_immediate_response invite_stage deferred_ringing deferred_ok same_call
    same_bytes stateless from_invite sip_method first_word words_from all_alphabetic
    is_ascii_whitespace is_ascii_alphabetic eq_ignore_ascii_case generate_sip_responses
    invite_responses bye_responses cancel_responses build_sip_response put_header put_via put_to
    sip_next_stage update_request_headers update_lines update_line take_over with_via with_cseq
    generate_sip_ok generate_sip_ringing
in_the_end = (refl, refl)

run-Established_example : WasAnswered called.call_id_value events none
run-Established_example = run-Established events called.call_id_value in_the_end

run-IsBounded_example : All IsBounded (run events none).1
run-IsBounded_example = run-IsBounded events

length-generate_sip_trying_example : length (generate_sip_trying invite_packet) ≤ 512
length-generate_sip_trying_example = length-generate_sip_trying invite_packet
