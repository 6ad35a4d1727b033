-- ===== src/Proxy/Responder/Sip/Length.antt =====
-- The length of a SIP response of src/proxy/responder.rs, and when the measured ones are bounded.
use awg_easy_rs.Prelude.{
  ℕ, ◌≤◌, ◌≡◌, refl, List, [], ◌∷◌, ◌++◌, Bool, true, false, length, length-append, arith,
}
use awg_easy_rs.Proxy.Responder.Sip.{
  SipDialog, crlf, content_length, put_header, put_via, put_to, build_sip_response, header_len,
  via_len, to_len, sip_response_len, sip_response_fits, sip_reflected_responses_fit, trying,
  ringing_line, ok, request_terminated,
}
use awg_easy_rs.Proxy.Responder.Sip.Stage.{invite_dialog}

length-put_header : (line : List ℕ) → length (put_header line) ≡ header_len line
unfolding put_header header_len
length-put_header [] = refl
length-put_header (b ∷ line) = omega (arith, length-append line crlf)

length-put_via : (via : List (List ℕ)) → length (put_via via) ≡ via_len via
unfolding put_via via_len
length-put_via [] = refl
length-put_via (v ∷ via) = omega (arith, length-append v (crlf ++ put_via via), length-put_via via)

length-put_to : (d : SipDialog) (tagged : Bool) → length (put_to d tagged) ≡ to_len d tagged
unfolding put_to to_len
length-put_to d tagged = ground (
  arith,
  length-append d.to_line crlf,
  length-append d.to_line (0x3B ∷ 0x74 ∷ 0x61 ∷ 0x67 ∷ 0x3D ∷ (d.to_tag ++ crlf)),
  length-append d.to_tag crlf,
)

-- The length that is computed before a response is built is the length of the response.
pub length-build_sip_response :
    (d : SipDialog) (status : List ℕ) (tagged : Bool)
    → length (build_sip_response d status tagged) ≡ sip_response_len d status tagged
unfolding build_sip_response sip_response_len
length-build_sip_response d status tagged =
    let cseq = put_header d.cseq ++ content_length in
    let call = put_header d.call_id ++ cseq in
    let to = put_to d tagged ++ call in
    let from = put_header d.from_line ++ to in
    let via = put_via d.via ++ from in
    omega (
      arith,
      length-append status (crlf ++ via),
      length-append (put_via d.via) from,
      length-append (put_header d.from_line) to,
      length-append (put_to d tagged) call,
      length-append (put_header d.call_id) cseq,
      length-append (put_header d.cseq) content_length,
      length-put_via d.via,
      length-put_header d.from_line,
      length-put_to d tagged,
      length-put_header d.call_id,
      length-put_header d.cseq,
    )

abbrev pub IsBounded : List ℕ → Type 0
IsBounded response = length response ≤ 512

-- The four responses that the code measures are bounded, those of the INVITE too.
pub record IsReflectable (d : SipDialog) : Type 0 where
  pub fits : sip_reflected_responses_fit d ≡ true
  pub invite_fits : sip_reflected_responses_fit (invite_dialog d) ≡ true

pub record Fits (d : SipDialog) : Type 0 where
  pub trying_fits : IsBounded (build_sip_response d trying false)
  pub ringing_fits : IsBounded (build_sip_response d ringing_line true)
  pub ok_fits : IsBounded (build_sip_response d ok true)
  pub terminated_fits : IsBounded (build_sip_response d request_terminated true)

measured :
    (d : SipDialog) (status : List ℕ) (tagged : Bool)
    → sip_response_fits d status tagged ≡ true
    → IsBounded (build_sip_response d status tagged)
unfolding sip_response_fits
measured d status tagged h = ground (arith, length-build_sip_response d status tagged)

pub reflected-Fits : (d : SipDialog) → sip_reflected_responses_fit d ≡ true → Fits d
unfolding sip_reflected_responses_fit
reflected-Fits d h = record {
  trying_fits = measured d trying false (ground (arith, h));
  ringing_fits = measured d ringing_line true (ground (arith, h));
  ok_fits = measured d ok true (ground (arith, h));
  terminated_fits = measured d request_terminated true (ground (arith, h));
}

-- Without the tag a response is not longer.
pub untagged_le :
    (d : SipDialog) (status : List ℕ) (tagged : Bool)
    → length (build_sip_response d status tagged) ≤ length (build_sip_response d status true)
unfolding sip_response_len to_len
untagged_le d status tagged =
    ground
      (arith, length-build_sip_response d status tagged, length-build_sip_response d status true)
