-- ===== src/Proxy/Responder/Sip/Stage.antt =====
-- src/proxy/responder.rs: which answers a request gets, and the stage behind it.
use awg_easy_rs.Prelude.{
  ◌||◌, ℕ, List, [], ◌∷◌, ◌++◌, none, some, Bool, true, false, if◌then◌else◌, ◌&&◌, codes,
}
use awg_easy_rs.Proxy.Responder.Sip.Request.{eq_ignore_ascii_case}
use awg_easy_rs.Proxy.Responder.Sip.{
  SipDialogStage, idle, invited, ringing, established, terminated, SipDialog, build_sip_response,
  trying, ringing_line, ok, request_terminated,
}
use awg_easy_rs.Proxy.Responder.Sip.Lines.{sip_cseq_method}

-- The methods that the code tells apart, REGISTER, OPTIONS, NOTIFY, SUBSCRIBE, MESSAGE and INFO as
-- `standalone`; each other one is `other`.
pub data Method : Type 0 where
  invite : Method
  ack : Method
  bye : Method
  cancel : Method
  standalone : Method
  other : Method

unfoldable pub is_standalone : List ℕ → Bool
is_standalone word =
    eq_ignore_ascii_case (codes "REGISTER") word
    || (eq_ignore_ascii_case (codes "OPTIONS") word
        || (eq_ignore_ascii_case (codes "NOTIFY") word
            || (eq_ignore_ascii_case (codes "SUBSCRIBE") word
                || (eq_ignore_ascii_case (codes "MESSAGE") word
                    || eq_ignore_ascii_case (codes "INFO") word))))

-- The word is put in upper case and compared.
unfoldable pub method_of : List ℕ → Method
method_of word =
    if eq_ignore_ascii_case (codes "INVITE") word
    then invite
    else (if eq_ignore_ascii_case (codes "ACK") word
        then ack
        else (if eq_ignore_ascii_case (codes "BYE") word
            then bye
            else (if eq_ignore_ascii_case (codes "CANCEL") word
                then cancel
                else (if is_standalone word then standalone else other))))

unfoldable pub invite_responses : SipDialogStage → SipDialog → List (List ℕ)
invite_responses idle d = build_sip_response d trying false ∷ []
invite_responses terminated d = build_sip_response d trying false ∷ []
invite_responses invited d =
    build_sip_response d trying false ∷ build_sip_response d ringing_line true ∷ []
invite_responses ringing d = build_sip_response d ringing_line true ∷ []
invite_responses established d = build_sip_response d ok true ∷ []

unfoldable pub bye_responses : SipDialogStage → SipDialog → List (List ℕ)
bye_responses established d = build_sip_response d ok true ∷ []
bye_responses _ d = []

abbrev pub invite_in_progress : SipDialogStage → Bool
invite_in_progress invited = true
invite_in_progress ringing = true
invite_in_progress _ = false

abbrev pub in_dialog : SipDialogStage → Bool
in_dialog invited = true
in_dialog ringing = true
in_dialog established = true
in_dialog _ = false

-- The dialog of the INVITE transaction.
unfoldable pub invite_dialog : SipDialog → SipDialog
invite_dialog d = record d { via = d.invite_via; cseq = d.invite_cseq }

unfoldable pub is_invite_cseq : List ℕ → Bool
is_invite_cseq cseq = elim (sip_cseq_method cseq) [
  | none ↦ false
  | some method ↦ eq_ignore_ascii_case (codes "INVITE") method
]

unfoldable pub cancel_responses : SipDialog → List (List ℕ)
cancel_responses d =
    let responses = build_sip_response d ok true ∷ [] in
    if invite_in_progress d.stage && is_invite_cseq (invite_dialog d).cseq
    then responses ++ (build_sip_response (invite_dialog d) request_terminated true ∷ [])
    else responses

unfoldable pub generate_sip_responses : SipDialog → Method → List (List ℕ)
generate_sip_responses d invite = invite_responses d.stage d
generate_sip_responses d ack = []
generate_sip_responses d bye = bye_responses d.stage d
generate_sip_responses d cancel = cancel_responses d
generate_sip_responses d standalone = build_sip_response d ok (in_dialog d.stage) ∷ []
generate_sip_responses d other = build_sip_response d ok (in_dialog d.stage) ∷ []

unfoldable pub sip_next_stage : SipDialogStage → Method → SipDialogStage
sip_next_stage idle invite = invited
sip_next_stage terminated invite = invited
sip_next_stage invited invite = ringing
sip_next_stage current invite = current
sip_next_stage idle bye = idle
sip_next_stage current bye = terminated
sip_next_stage invited cancel = terminated
sip_next_stage ringing cancel = terminated
sip_next_stage current cancel = current
sip_next_stage current _ = current

unfoldable pub generate_sip_ringing : SipDialog → List ℕ
generate_sip_ringing d = build_sip_response d ringing_line true

unfoldable pub generate_sip_ok : SipDialog → List ℕ
generate_sip_ok d = build_sip_response d ok true
