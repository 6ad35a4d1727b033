-- ===== src/Proxy/Responder/Sip.antt =====
-- src/proxy/responder.rs: the SIP dialog of a client and its answers.
pub mod Lines
pub mod Request
pub mod Stage
pub mod Trying
pub mod Length
pub mod Bounds
use awg_easy_rs.Prelude.{
  ℕ, ◌+◌, ◌*◌, ◌%◌, ◌^◌, List, [], ◌∷◌, ◌++◌, Bool, true, false, ◌&&◌, ◌||◌, not, ◌==◌, leb,
  if◌then◌else◌, length, codes, bit_xor, hex8,
}
use awg_easy_rs.Proxy.Responder.Sip.Lines.{is_empty, skip_blanks}
use awg_easy_rs.Proxy.Responder.Detect.{starts_with_ignore_case}

pub data SipDialogStage : Type 0 where
  idle : SipDialogStage
  invited : SipDialogStage
  ringing : SipDialogStage
  established : SipDialogStage
  terminated : SipDialogStage

pub record SipDialog : Type 0 where
  pub stage : SipDialogStage
  pub via : List (List ℕ)
  pub invite_via : List (List ℕ)
  pub from_line : List ℕ
  pub to_line : List ℕ
  pub to_tag : List ℕ
  pub call_id : List ℕ
  pub call_id_value : List ℕ
  pub invite_cseq : List ℕ
  pub cseq : List ℕ

abbrev pub sip_max_response_size : ℕ
sip_max_response_size = 512

abbrev pub crlf : List ℕ
crlf = 0x0D ∷ 0x0A ∷ []

abbrev pub content_length : List ℕ
content_length = codes "Content-Length: 0" ++ (crlf ++ crlf)

-- `tag`, blanks and `=` behind a semicolon.
unfoldable pub tag_here : List ℕ → Bool
tag_here (t ∷ a ∷ g ∷ rest) =
    starts_with_ignore_case (codes "tag") (t ∷ a ∷ g ∷ [])
    && starts_with_ignore_case (codes "=") (skip_blanks rest)
tag_here _ = false

-- The loop; what stands up to the next semicolon is passed over.
unfoldable pub tag_loop : List ℕ → Bool
tag_loop [] = false
tag_loop (b ∷ bytes) =
    let rest = tag_loop bytes in if b == 0x3B then tag_here (skip_blanks bytes) || rest else rest

-- What is behind the first `>`, or else all of it.
unfoldable pub behind_bracket : List ℕ → List ℕ → List ℕ
behind_bracket whole [] = whole
behind_bracket whole (b ∷ bytes) = if b == 0x3E then bytes else behind_bracket whole bytes

unfoldable pub sip_to_has_tag : List ℕ → Bool
sip_to_has_tag to = tag_loop (behind_bracket to to)

unfoldable pub hash_loop : ℕ → List ℕ → ℕ
hash_loop h [] = h
hash_loop h (b ∷ bytes) = hash_loop (bit_xor h b * 0x01000193 % 2 ^ 32) bytes

unfoldable pub sip_dialog_tag : List ℕ → List ℕ
sip_dialog_tag call_id = hex8 (hash_loop 0x811C9DC5 call_id)

-- A header line when it is not empty.
unfoldable pub put_header : List ℕ → List ℕ
put_header line = if is_empty line then [] else line ++ crlf

unfoldable pub put_via : List (List ℕ) → List ℕ
put_via [] = []
put_via (v ∷ via) = v ++ (crlf ++ put_via via)

unfoldable pub put_to : SipDialog → Bool → List ℕ
put_to dialog add_to_tag =
    if is_empty dialog.to_line
    then []
    else (if add_to_tag && not (sip_to_has_tag dialog.to_line)
        then dialog.to_line ++ (codes ";tag=" ++ (dialog.to_tag ++ crlf))
        else dialog.to_line ++ crlf)

unfoldable pub build_sip_response : SipDialog → List ℕ → Bool → List ℕ
build_sip_response dialog status_line add_to_tag =
    status_line
    ++ (crlf
        ++ (put_via dialog.via
            ++ (put_header dialog.from_line
                ++ (put_to dialog add_to_tag
                    ++ (put_header dialog.call_id ++ (put_header dialog.cseq ++ content_length))))))

-- The length of a header line when it is not empty.
unfoldable pub header_len : List ℕ → ℕ
header_len line = if is_empty line then 0 else length line + 2

unfoldable pub via_len : List (List ℕ) → ℕ
via_len [] = 0
via_len (v ∷ via) = length v + 2 + via_len via

unfoldable pub to_len : SipDialog → Bool → ℕ
to_len dialog add_to_tag =
    if is_empty dialog.to_line
    then 0
    else (if add_to_tag && not (sip_to_has_tag dialog.to_line)
        then length dialog.to_line + (5 + length dialog.to_tag) + 2
        else length dialog.to_line + 2)

unfoldable pub sip_response_len : SipDialog → List ℕ → Bool → ℕ
sip_response_len dialog status_line add_to_tag =
    length status_line
    + 2
    + via_len dialog.via
    + header_len dialog.from_line
    + to_len dialog add_to_tag
    + header_len dialog.call_id
    + header_len dialog.cseq
    + 21

unfoldable pub sip_response_fits : SipDialog → List ℕ → Bool → Bool
sip_response_fits dialog status_line add_to_tag =
    leb (sip_response_len dialog status_line add_to_tag) sip_max_response_size

abbrev pub trying : List ℕ
trying = codes "SIP/2.0 100 Trying"

abbrev pub ringing_line : List ℕ
ringing_line = codes "SIP/2.0 180 Ringing"

abbrev pub ok : List ℕ
ok = codes "SIP/2.0 200 OK"

abbrev pub request_terminated : List ℕ
request_terminated = codes "SIP/2.0 487 Request Terminated"

unfoldable pub sip_reflected_responses_fit : SipDialog → Bool
sip_reflected_responses_fit dialog =
    sip_response_fits dialog trying false
    && (sip_response_fits dialog ringing_line true
        && (sip_response_fits dialog ok true && sip_response_fits dialog request_terminated true))
