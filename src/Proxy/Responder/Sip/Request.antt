-- ===== src/Proxy/Responder/Sip/Request.antt =====
-- src/proxy/responder.rs: a SIP dialog from a request, and what a later request changes in it.
use awg_easy_rs.Prelude.{
  ℕ, ◌+◌, List, [], ◌∷◌, ◌++◌, Option, none, some, Bool, true, false, ◌&&◌, ◌||◌, ◌==◌, ltb,
  if◌then◌else◌, length, take, min, codes, ◌>>=◌,
}
use awg_easy_rs.Proxy.Responder.Detect.{starts_with_ignore_case, is_utf8}
use awg_easy_rs.Proxy.Responder.Sip.{
  SipDialog, idle, sip_max_response_size, sip_dialog_tag, sip_reflected_responses_fit,
}
use awg_easy_rs.Proxy.Responder.Sip.Lines.{
  is_empty, sip_header_line, sip_uses_crlf_line_endings, lines, sip_header_value, words_from,
  all_alphabetic,
}

abbrev pub sip_scan_limit : ℕ
sip_scan_limit = 2048

-- The variables of `from_request`.
pub record Headers : Type 0 where
  pub via : List (List ℕ)
  pub reflected_via_bytes : ℕ
  pub from_line : List ℕ
  pub to_line : List ℕ
  pub call_id : List ℕ
  pub cseq : List ℕ

abbrev pub no_headers : Headers
no_headers = record {
  via = [];
  reflected_via_bytes = 0;
  from_line = [];
  to_line = [];
  call_id = [];
  cseq = [];
}

unfoldable pub take_line : List ℕ → Headers → Option Headers
take_line t h =
    let next = h.reflected_via_bytes + (length t + 2) in
    if starts_with_ignore_case (codes "via:") t
    then (if ltb sip_max_response_size next
        then none
        else some (record h { via = h.via ++ (t ∷ []); reflected_via_bytes = next }))
    else (if is_empty h.from_line && starts_with_ignore_case (codes "from:") t
        then some (record h { from_line = t })
        else (if is_empty h.to_line && starts_with_ignore_case (codes "to:") t
            then some (record h { to_line = t })
            else (if is_empty h.call_id && starts_with_ignore_case (codes "call-id:") t
                then some (record h { call_id = t })
                else (if is_empty h.cseq && starts_with_ignore_case (codes "cseq:") t
                    then some (record h { cseq = t })
                    else some h))))

-- The loop over the lines, up to an empty one.
unfoldable pub take_lines : List (List ℕ) → Headers → Option Headers
take_lines [] h = some h
take_lines (line ∷ rest) h =
    let t = sip_header_line line in
    if is_empty t then some h else (take_line t h >>= λ h'. take_lines rest h')

unfoldable pub any_empty_value : List (List ℕ) → Bool
any_empty_value [] = false
any_empty_value (line ∷ rest) = is_empty (sip_header_value line) || any_empty_value rest

unfoldable pub is_missing : Headers → Bool
is_missing h =
    elim h.via [ [] ↦ true | _ ∷ _ ↦ false ]
    || (is_empty h.from_line
        || (is_empty h.to_line
            || (is_empty h.call_id
                || (is_empty h.cseq
                    || (any_empty_value h.via
                        || any_empty_value (h.from_line ∷ h.to_line ∷ h.call_id ∷ h.cseq ∷ []))))))

unfoldable pub dialog_of : Headers → SipDialog
dialog_of h =
    let call_id_value = sip_header_value h.call_id in
    record {
      stage = idle;
      via = h.via;
      invite_via = h.via;
      from_line = h.from_line;
      to_line = h.to_line;
      to_tag = sip_dialog_tag call_id_value;
      call_id = h.call_id;
      call_id_value = call_id_value;
      invite_cseq = h.cseq;
      cseq = h.cseq;
    }

-- The part that is scanned, when its lines and its text are as they should be.
unfoldable pub scanned_text : List ℕ → Option (List ℕ)
scanned_text incoming =
    let scanned = take (min (length incoming) sip_scan_limit) incoming in
    if sip_uses_crlf_line_endings scanned && is_utf8 scanned then some scanned else none

unfoldable pub checked : Headers → Option SipDialog
checked h =
    let dialog = dialog_of h in
    if is_missing h
    then none
    else (if sip_reflected_responses_fit dialog then some dialog else none)

unfoldable pub from_request : List ℕ → Option SipDialog
from_request incoming =
    scanned_text incoming >>= λ text. take_lines (lines text) no_headers >>= λ h. checked h

unfoldable pub first_word : List (List ℕ) → Option (List ℕ)
first_word [] = none
first_word (word ∷ words) = if all_alphabetic word then some word else none

unfoldable pub sip_method : List ℕ → Option (List ℕ)
sip_method packet =
    let text = take (min (length packet) 32) packet in
    if is_utf8 text then first_word (words_from [] text) else none

unfoldable pub eq_ignore_ascii_case : List ℕ → List ℕ → Bool
eq_ignore_ascii_case word text = length word == length text && starts_with_ignore_case word text

unfoldable pub from_invite : List ℕ → Option SipDialog
from_invite incoming = sip_method incoming >>= λ method.
    if eq_ignore_ascii_case (codes "INVITE") method then from_request incoming else none

-- What a request brings: its `Via` lines, and its first `CSeq` line.
abbrev pub Update : Type 0
Update = List (List ℕ) × Option (List ℕ)

unfoldable pub update_line : List ℕ → Update → Option Update
update_line t (via, cseq) =
    if starts_with_ignore_case (codes "via:") t
    then (if is_empty (sip_header_value t) then none else some (via ++ (t ∷ []), cseq))
    else elim cseq [
      | some line ↦ some (via, some line)
      | none ↦
          if starts_with_ignore_case (codes "cseq:") t
          then (if is_empty (sip_header_value t) then none else some (via, some t))
          else some (via, none)
    ]

-- `none` where the function returns from the loop.
unfoldable pub update_lines : List (List ℕ) → Update → Option Update
update_lines [] u = some u
update_lines (line ∷ rest) u =
    let t = sip_header_line line in
    if is_empty t then some u else (update_line t u >>= λ u'. update_lines rest u')

unfoldable pub with_via : List (List ℕ) → SipDialog → SipDialog
with_via [] dialog = dialog
with_via (v ∷ via) dialog = record dialog { via = v ∷ via }

unfoldable pub with_cseq : Option (List ℕ) → SipDialog → SipDialog
with_cseq none dialog = dialog
with_cseq (some cseq) dialog = record dialog { cseq = cseq }

-- Only `via` and `cseq` of the candidate are taken over.
unfoldable pub take_over : SipDialog → SipDialog → SipDialog
take_over candidate dialog =
    if sip_reflected_responses_fit candidate
    then record dialog { via = candidate.via; cseq = candidate.cseq }
    else dialog

-- With neither a `Via` nor a `CSeq` line the candidate is the dialog itself.
unfoldable pub update_request_headers : List ℕ → SipDialog → SipDialog
update_request_headers incoming dialog = elim (scanned_text incoming) [
  | none ↦ dialog
  | some text ↦ elim (update_lines (lines text) ([], none)) [
    | none ↦ dialog
    | some (via, cseq) ↦ take_over (with_cseq cseq (with_via via dialog)) dialog
  ]
]
