-- ===== src/Proxy/Call/Entry.antt =====
-- A SIP call is established neither by a datagram of the client nor by the deferred ringing.
use awg_easy_rs.Prelude.{
  ℕ, ◌≡◌, refl, sym, ap, ◌∙◌, List, [], Option, none, some, Bool, Bool-cases, Option-cases, inl,
  inr, ◌&&◌, ◌||◌, not, arith,
}
use awg_easy_rs.Proxy.Responder.Sip.{
  idle, ringing, established, SipDialog, sip_reflected_responses_fit,
}
use awg_easy_rs.Proxy.Responder.Sip.Lines.{lines}
use awg_easy_rs.Proxy.Responder.Sip.Request.{
  Headers, checked, dialog_of, from_request, from_invite, sip_method, scanned_text, take_lines,
  no_headers, update_lines, take_over, with_via, with_cseq, update_request_headers,
}
use awg_easy_rs.Proxy.Responder.Sip.Stage.{
  method_of, Method, invite, ack, bye, cancel, standalone, other,
}
use awg_easy_rs.Proxy.Call.{
  is_invited, immediate, delivered, sent_of, Sent, advance, handle_sip_probe, handle_method,
  deferred_ringing,
}
use awg_easy_rs.Proxy.Call.Routing.{
  is_over, same_call, same_bytes, Routed, route_invite, route_other, route,
}
use awg_easy_rs.Proxy.Call.Laws.{after-established}

-- The entry is an established call with this Call-ID.
abbrev pub Established : List ℕ → Option SipDialog → Type 0
Established c none = ⊥
Established c (some d) = (d.stage ≡ established) × (d.call_id_value ≡ c)

idle_apart : idle ≡ established → ⊥
idle_apart e = cc

ringing_apart : ringing ≡ established → ⊥
ringing_apart e = cc

checked-idle : (h : Headers) (d : SipDialog) → checked h ≡ some d → d.stage ≡ idle
unfolding checked dialog_of
checked-idle h d q = let made : dialog_of h ≡ d = ground (arith, q) in sym (ap (λ x. x.stage) made)

from_request-idle :
    (packet : List ℕ) (d : SipDialog) → from_request packet ≡ some d → d.stage ≡ idle
unfolding from_request
from_request-idle packet d e = elim (Option-cases (scanned_text packet)) [
  | inl unread ↦ absurd (ground (arith, e))
  | inr (text, t) ↦ elim (Option-cases (take_lines (lines text) no_headers)) [
    | inl refused ↦ absurd (ground (arith, e, t))
    | inr (h, taken) ↦ checked-idle h d (rw (t, taken) at e)
  ]
]

-- The dialog stays in its stage and keeps its Call-ID.
abbrev SameCall : SipDialog → SipDialog → Type 0
SameCall d e = (d.stage ≡ e.stage) × (d.call_id_value ≡ e.call_id_value)

take_over-SameCall : (candidate d : SipDialog) → SameCall (take_over candidate d) d
unfolding take_over
take_over-SameCall candidate d = elim (Bool-cases (sip_reflected_responses_fit candidate)) [
  | inl fit ↦ rw (fit, take_over) (refl, refl)
  | inr long ↦ rw (long, take_over) (refl, refl)
]

update-SameCall : (packet : List ℕ) (d : SipDialog) → SameCall (update_request_headers packet d) d
unfolding update_request_headers
update-SameCall packet d = elim (Option-cases (scanned_text packet)) [
  | inl unread ↦ rw (unread, update_request_headers) (refl, refl)
  | inr (text, t) ↦ elim (Option-cases (update_lines (lines text) ([], none))) [
    | inl bad ↦ rw (t, update_request_headers, bad) (refl, refl)
    | inr ((via, cseq), read) ↦
        rw (t, update_request_headers, read)
          (take_over-SameCall (with_cseq cseq (with_via via d)) d)
  ]
]

moved :
    (c : List ℕ) (d e : SipDialog) → SameCall d e → Established c (some d) → Established c (some e)
moved c d e (s, i) (st, id) = (sym s ∙ st, sym i ∙ id)

module _ (c : List ℕ) where
  route_invite-Established :
      (packet : List ℕ) (stored : Option SipDialog) (dialog : SipDialog)
      → dialog.stage ≡ idle
      → Established c (route_invite packet stored dialog).stored
      → Established c stored
  unfolding route_invite
  route_invite-Established packet none dialog i e = cc
  route_invite-Established packet (some d) dialog i e =
      elim (Bool-cases (is_over d.stage || not (same_call d dialog))) [
        | inl new ↦
            let k : Established c (some dialog) = rw new at e in absurd (idle_apart (sym i ∙ k.0))
        | inr again ↦
            moved c (update_request_headers packet d) d (update-SameCall packet d) (rw again at e)
      ]

  route_other-Established :
      (packet : List ℕ) (stored parsed : Option SipDialog)
      → Established c (route_other packet stored parsed).stored
      → Established c stored
  unfolding route_other
  route_other-Established packet none parsed e = e
  route_other-Established packet (some d) none e = e
  route_other-Established packet (some d) (some dialog) e = elim (Bool-cases (same_call d dialog)) [
    | inl same ↦
        moved c (update_request_headers packet d) d (update-SameCall packet d) (rw same at e)
    | inr another ↦ rw another at e
  ]

  from_invite-idle :
      (packet : List ℕ) (d : SipDialog) → from_invite packet ≡ some d → d.stage ≡ idle
  unfolding from_invite
  from_invite-idle packet d e = elim (Option-cases (sip_method packet)) [
    | inl no_method ↦ absurd (ground (arith, e))
    | inr (method, m) ↦ from_request-idle packet d (ground (arith, e, m))
  ]

  route-Established :
      (packet : List ℕ) (m : Method) (stored : Option SipDialog)
      → Established c (route packet m stored).stored
      → Established c stored
  unfolding route
  route-Established packet invite stored e = elim (Option-cases (from_invite packet)) [
    | inl unread ↦ absurd (rw (unread, route) at e)
    | inr (d, made) ↦
        route_invite-Established packet stored d (from_invite-idle packet d made)
          (rw (made, route) at e)
  ]
  route-Established packet ack stored e =
      route_other-Established packet stored (from_request packet) e
  route-Established packet bye stored e =
      route_other-Established packet stored (from_request packet) e
  route-Established packet cancel stored e =
      route_other-Established packet stored (from_request packet) e
  route-Established packet standalone stored e =
      route_other-Established packet stored (from_request packet) e
  route-Established packet other stored e =
      route_other-Established packet stored (from_request packet) e

  advance-Established :
      (r : Routed) (m : Method) (s : Sent) (entry : Option SipDialog)
      → Established c (advance r m s entry)
      → Established c entry
  unfolding advance
  advance-Established r m s none e = e
  advance-Established r m s (some d) e = elim (Bool-cases r.use_stored_dialog) [
    | inl stored ↦
        let (st, id) = rw stored at e in (after-established d.stage (some d.stage) m s st, id)
    | inr beside ↦ rw beside at e
  ]

  pub ringing-Established :
      (call : List ℕ) (sent : Bool) (entry : Option SipDialog)
      → Established c (deferred_ringing call sent entry).0
      → Established c entry
  unfolding deferred_ringing
  ringing-Established call sent none e = e
  ringing-Established call sent (some d) e =
      elim (Bool-cases (is_invited d.stage && (same_bytes d.call_id_value call && sent))) [
        | inl goes ↦
            let k : Established c (some (record d { stage = ringing })) = rw goes at e in
            absurd (ringing_apart k.0)
        | inr stays ↦ rw stays at e
      ]

  handle_method-Established :
      (packet : List ℕ) (m : Method) (outcomes : List Bool) (entry : Option SipDialog)
      → Established c (handle_method packet m outcomes entry).entry
      → Established c entry
  unfolding handle_method
  handle_method-Established packet m outcomes entry k =
      let r = route packet m entry in
      let responses = immediate packet m r in
      route-Established packet m entry
        (advance-Established r m (sent_of responses (delivered responses outcomes)) r.stored k)

  pub handle_sip_probe-Established :
      (packet : List ℕ) (outcomes : List Bool) (entry : Option SipDialog)
      → Established c (handle_sip_probe packet outcomes entry).entry
      → Established c entry
  unfolding handle_sip_probe
  handle_sip_probe-Established packet outcomes entry k = elim (Option-cases (sip_method packet)) [
    | inl unread ↦ rw (unread, handle_sip_probe) at k
    | inr (word, w) ↦
        handle_method-Established packet (method_of word) outcomes entry
          (rw (w, handle_sip_probe) at k)
  ]
