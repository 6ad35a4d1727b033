-- ===== src/Proxy/Responder/Sip/Bounds.antt =====
-- No answer to a SIP dialog is longer than 512 bytes, whatever requests made and changed it.
use awg_easy_rs.Prelude.{
  ℕ, ◌≡◌, refl, List, [], ◌∷◌, Option, none, some, true, Bool-cases, Option-cases, inl, inr, ◌&&◌,
  All, arith, ◌∙◌,
}
use mathlib.Core.Path.{subst}
use awg_easy_rs.Proxy.Responder.Sip.{
  SipDialogStage, idle, invited, ringing, established, terminated, SipDialog,
  sip_reflected_responses_fit, sip_response_fits, sip_response_len, to_len, ok,
}
use awg_easy_rs.Proxy.Responder.Sip.Length.{
  IsBounded, IsReflectable, Fits, reflected-Fits, untagged_le,
}
use awg_easy_rs.Proxy.Responder.Sip.Lines.{lines}
use awg_easy_rs.Proxy.Responder.Sip.Request.{
  Headers, dialog_of, checked, from_request, scanned_text, take_lines, no_headers, update_lines,
  take_over, with_via, with_cseq, update_request_headers,
}
use awg_easy_rs.Proxy.Responder.Sip.Stage.{
  Method, invite, ack, bye, cancel, standalone, other, invite_responses, bye_responses,
  cancel_responses, in_dialog, invite_in_progress, is_invite_cseq, invite_dialog,
  generate_sip_responses, generate_sip_ringing, generate_sip_ok,
}

checked-IsReflectable : (h : Headers) (d : SipDialog) → checked h ≡ some d → IsReflectable d
unfolding checked dialog_of invite_dialog
checked-IsReflectable h d e =
    let made : dialog_of h ≡ d = ground (arith, e) in
    let fit : sip_reflected_responses_fit (dialog_of h) ≡ true = ground (arith, e) in
    subst IsReflectable made (record { fits = fit; invite_fits = fit })

from_request-IsReflectable :
    (incoming : List ℕ) (d : SipDialog) → from_request incoming ≡ some d → IsReflectable d
unfolding from_request
from_request-IsReflectable incoming d e = elim (Option-cases (scanned_text incoming)) [
  | inl none_there ↦ absurd (ground (arith, e))
  | inr (text, t) ↦ elim (Option-cases (take_lines (lines text) no_headers)) [
    | inl refused ↦ absurd (ground (arith, e, t))
    | inr (h, taken) ↦ checked-IsReflectable h d (rw (t, taken) at e)
  ]
]

take_over-IsReflectable :
    (candidate d : SipDialog)
    → IsReflectable d
    → sip_reflected_responses_fit (record d { via = candidate.via; cseq = candidate.cseq })
      ≡ sip_reflected_responses_fit candidate
    → IsReflectable (take_over candidate d)
unfolding take_over invite_dialog
take_over-IsReflectable candidate d r same =
    elim (Bool-cases (sip_reflected_responses_fit candidate)) [
      | inl fit ↦ rw (fit, take_over) (record { fits = same ∙ fit; invite_fits = r.invite_fits })
      | inr long ↦ rw (long, take_over) r
    ]

-- The candidate differs from the dialog in what is taken over alone.
candidate-same :
    (via : List (List ℕ)) (cseq : Option (List ℕ)) (d : SipDialog)
    → sip_reflected_responses_fit (record d {
      via = (with_cseq cseq (with_via via d)).via;
      cseq = (with_cseq cseq (with_via via d)).cseq;
    })
      ≡ sip_reflected_responses_fit (with_cseq cseq (with_via via d))
unfolding with_via with_cseq
candidate-same [] none d = refl
candidate-same [] (some c) d = refl
candidate-same (v ∷ via) none d = refl
candidate-same (v ∷ via) (some c) d = refl

update-IsReflectable :
    (incoming : List ℕ) (d : SipDialog)
    → IsReflectable d
    → IsReflectable (update_request_headers incoming d)
unfolding update_request_headers
update-IsReflectable incoming d r = elim (Option-cases (scanned_text incoming)) [
  | inl unread ↦ rw (unread, update_request_headers) r
  | inr (text, t) ↦ elim (Option-cases (update_lines (lines text) ([], none))) [
    | inl bad ↦ rw (t, update_request_headers, bad) r
    | inr ((via, cseq), read) ↦
        rw (t, update_request_headers, read)
          (take_over-IsReflectable (with_cseq cseq (with_via via d)) d r
            (candidate-same via cseq d))
  ]
]

-- The stage stands in no response.
staged-IsReflectable :
    (s : SipDialogStage) (d : SipDialog) → IsReflectable d → IsReflectable (record d { stage = s })
unfolding sip_reflected_responses_fit sip_response_fits sip_response_len to_len invite_dialog
staged-IsReflectable s d r = record { fits = r.fits; invite_fits = r.invite_fits }

-- The dialogs that the proxy holds: made by a request, changed by later requests, in any stage.
pub data Held : SipDialog → Type 0 where
  made : (incoming : List ℕ) {d : SipDialog} → from_request incoming ≡ some d → Held d
  updated : (incoming : List ℕ) {d : SipDialog} → Held d → Held (update_request_headers incoming d)
  staged : (s : SipDialogStage) {d : SipDialog} → Held d → Held (record d { stage = s })

Held-IsReflectable : {d : SipDialog} → Held d → IsReflectable d
Held-IsReflectable (made incoming e) = from_request-IsReflectable incoming _ e
Held-IsReflectable (updated incoming h) = update-IsReflectable incoming _ (Held-IsReflectable h)
Held-IsReflectable (staged s h) = staged-IsReflectable s _ (Held-IsReflectable h)

invite_responses-IsBounded :
    (s : SipDialogStage) (d : SipDialog) → Fits d → All IsBounded (invite_responses s d)
unfolding invite_responses
invite_responses-IsBounded idle d f = (f.trying_fits, tt)
invite_responses-IsBounded terminated d f = (f.trying_fits, tt)
invite_responses-IsBounded invited d f = (f.trying_fits, (f.ringing_fits, tt))
invite_responses-IsBounded ringing d f = (f.ringing_fits, tt)
invite_responses-IsBounded established d f = (f.ok_fits, tt)

bye_responses-IsBounded :
    (s : SipDialogStage) (d : SipDialog) → Fits d → All IsBounded (bye_responses s d)
unfolding bye_responses
bye_responses-IsBounded established d f = (f.ok_fits, tt)
bye_responses-IsBounded idle d f = tt
bye_responses-IsBounded invited d f = tt
bye_responses-IsBounded ringing d f = tt
bye_responses-IsBounded terminated d f = tt

cancel_responses-IsBounded :
    (d : SipDialog) → Fits d → Fits (invite_dialog d) → All IsBounded (cancel_responses d)
unfolding cancel_responses
cancel_responses-IsBounded d f g =
    elim (Bool-cases (invite_in_progress d.stage && is_invite_cseq (invite_dialog d).cseq)) [
      | inl both ↦ rw both (f.ok_fits, (g.terminated_fits, tt))
      | inr alone ↦ rw alone (f.ok_fits, tt)
    ]

responses-IsBounded :
    (d : SipDialog) (m : Method)
    → Fits d
    → Fits (invite_dialog d)
    → All IsBounded (generate_sip_responses d m)
unfolding generate_sip_responses
responses-IsBounded d invite f g = invite_responses-IsBounded d.stage d f
responses-IsBounded d ack f g = tt
responses-IsBounded d bye f g = bye_responses-IsBounded d.stage d f
responses-IsBounded d cancel f g = cancel_responses-IsBounded d f g
responses-IsBounded d standalone f g =
    (omega (arith, untagged_le d ok (in_dialog d.stage), f.ok_fits), tt)
responses-IsBounded d other f g =
    (omega (arith, untagged_le d ok (in_dialog d.stage), f.ok_fits), tt)

-- Every answer to any method, the deferred 180 and 200 too, has at most 512 bytes, for every dialog
-- that a request made and that other requests changed, in any stage.
pub generate_sip_responses-IsBounded :
    (d : SipDialog) (m : Method)
    → Held d
    → All IsBounded (generate_sip_responses d m)
      × IsBounded (generate_sip_ringing d)
      × IsBounded (generate_sip_ok d)
unfolding generate_sip_ringing generate_sip_ok
generate_sip_responses-IsBounded d m held =
    let r = Held-IsReflectable held in
    let f = reflected-Fits d r.fits in
    (
      responses-IsBounded d m f (reflected-Fits (invite_dialog d) r.invite_fits),
      f.ringing_fits,
      f.ok_fits,
    )
