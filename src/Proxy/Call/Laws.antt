-- ===== src/Proxy/Call/Laws.antt =====
-- A SIP call of src/proxy/proxy.rs: its answers are bounded, and only a sent 200 OK establishes it.
use awg_easy_rs.Prelude.{
  ℕ, ◌≡◌, refl, List, [], ◌∷◌, Option, none, some, Bool, true, false, Bool-cases, Option-cases, inl,
  inr, ◌||◌, not, All, arith,
}
use awg_easy_rs.Proxy.Responder.Sip.{SipDialogStage, established, SipDialog}
use awg_easy_rs.Proxy.Responder.Sip.Length.{IsBounded}
use awg_easy_rs.Proxy.Responder.Sip.Bounds.{
  Held, made, updated, staged, generate_sip_responses-IsBounded,
}
use awg_easy_rs.Proxy.Responder.Sip.Request.{from_request, from_invite, sip_method}
use awg_easy_rs.Proxy.Responder.Sip.Stage.{
  Method, invite, ack, bye, cancel, standalone, other, sip_next_stage,
}
use awg_easy_rs.Proxy.Responder.Sip.Trying.{length-generate_sip_trying}
use awg_easy_rs.Proxy.Call.{
  Sent, invite_stage, stage_or, sip_stage_after_immediate_response, stateless, from_dialog,
  immediate, delivered, advance,
}
use awg_easy_rs.Proxy.Call.Routing.{is_over, Routed, same_call, route_invite, route_other, route}

next-established :
    (current : SipDialogStage) (m : Method)
    → sip_next_stage current m ≡ established
    → current ≡ established
unfolding sip_next_stage
next-established current m h = ground arith

invite-established :
    (before current : SipDialogStage) (s : Sent)
    → invite_stage before current s ≡ established
    → current ≡ established
unfolding invite_stage
invite-established before current s h = ground arith

-- No request establishes a call by its answers: the stage behind them is established only if it
-- was before, whatever another task made of the stage in between.
pub after-established :
    (current : SipDialogStage) (before : Option SipDialogStage) (m : Method) (s : Sent)
    → sip_stage_after_immediate_response current before m s ≡ established
    → current ≡ established
unfolding sip_stage_after_immediate_response
after-established current before invite s h =
    invite-established (stage_or current before) current s h
after-established current before cancel s h = next-established current cancel h
after-established current before ack s h = next-established current ack h
after-established current before bye s h = ground (arith, next-established current bye)
after-established current before standalone s h =
    ground (arith, next-established current standalone)
after-established current before other s h = ground (arith, next-established current other)

-- An entry that the proxy can hold.
abbrev pub EntryHeld : Option SipDialog → Type 0
EntryHeld none = Unit
EntryHeld (some d) = Held d

from_invite-Held : (packet : List ℕ) (d : SipDialog) → from_invite packet ≡ some d → Held d
unfolding from_invite
from_invite-Held packet d e = elim (Option-cases (sip_method packet)) [
  | inl no_method ↦ absurd (ground (arith, e))
  | inr (method, m) ↦ made packet (ground (arith, e, m))
]

pub record RoutedHeld (r : Routed) : Type 0 where
  pub stored_held : EntryHeld r.stored
  pub request_held : EntryHeld r.request_dialog

route_invite-Held :
    (packet : List ℕ) (stored : Option SipDialog) (dialog : SipDialog)
    → EntryHeld stored
    → Held dialog
    → RoutedHeld (route_invite packet stored dialog)
unfolding route_invite
route_invite-Held packet none dialog h k = record { stored_held = k; request_held = tt }
route_invite-Held packet (some d) dialog h k =
    elim (Bool-cases (is_over d.stage || not (same_call d dialog))) [
      | inl new ↦ rw new (record { stored_held = k; request_held = tt })
      | inr again ↦ rw again (record { stored_held = updated packet h; request_held = tt })
    ]

route_other-Held :
    (packet : List ℕ) (stored parsed : Option SipDialog)
    → EntryHeld stored
    → EntryHeld parsed
    → RoutedHeld (route_other packet stored parsed)
unfolding route_other
route_other-Held packet none parsed h k = record { stored_held = tt; request_held = k }
route_other-Held packet (some d) none h k = record { stored_held = h; request_held = tt }
route_other-Held packet (some d) (some dialog) h k = elim (Bool-cases (same_call d dialog)) [
  | inl same ↦ rw same (record { stored_held = updated packet h; request_held = tt })
  | inr another ↦ rw another (record { stored_held = h; request_held = k })
]

parsed-Held :
    (packet : List ℕ) (parsed : Option SipDialog) → from_request packet ≡ parsed → EntryHeld parsed
parsed-Held packet none e = tt
parsed-Held packet (some d) e = made packet e

pub route-Held :
    (packet : List ℕ) (m : Method) (stored : Option SipDialog)
    → EntryHeld stored
    → RoutedHeld (route packet m stored)
unfolding route
route-Held packet invite stored h = elim (Option-cases (from_invite packet)) [
  | inl unread ↦ rw (unread, route) (record { stored_held = tt; request_held = tt })
  | inr (d, e) ↦ rw (e, route) (route_invite-Held packet stored d h (from_invite-Held packet d e))
]
route-Held packet ack stored h =
    route_other-Held packet stored (from_request packet) h (parsed-Held packet _ refl)
route-Held packet bye stored h =
    route_other-Held packet stored (from_request packet) h (parsed-Held packet _ refl)
route-Held packet cancel stored h =
    route_other-Held packet stored (from_request packet) h (parsed-Held packet _ refl)
route-Held packet standalone stored h =
    route_other-Held packet stored (from_request packet) h (parsed-Held packet _ refl)
route-Held packet other stored h =
    route_other-Held packet stored (from_request packet) h (parsed-Held packet _ refl)

from_dialog-IsBounded :
    (entry : Option SipDialog) (m : Method) (otherwise : List (List ℕ))
    → EntryHeld entry
    → All IsBounded otherwise
    → All IsBounded (from_dialog entry m otherwise)
from_dialog-IsBounded none m otherwise h k = k
from_dialog-IsBounded (some d) m otherwise h k = (generate_sip_responses-IsBounded d m h).0

stateless-IsBounded : (packet : List ℕ) (m : Method) → All IsBounded (stateless packet m)
unfolding stateless
stateless-IsBounded packet invite = (length-generate_sip_trying packet, tt)
stateless-IsBounded packet ack = tt
stateless-IsBounded packet bye = tt
stateless-IsBounded packet cancel = tt
stateless-IsBounded packet standalone = elim (Option-cases (from_request packet)) [
  | inl unread ↦ rw (unread, stateless) tt
  | inr (d, e) ↦ rw (e, stateless) (generate_sip_responses-IsBounded d standalone (made packet e)).0
]
stateless-IsBounded packet other = (length-generate_sip_trying packet, tt)

pub immediate-IsBounded :
    (packet : List ℕ) (m : Method) (r : Routed)
    → RoutedHeld r
    → All IsBounded (immediate packet m r)
unfolding immediate
immediate-IsBounded packet m r h = elim (Bool-cases r.use_stored_dialog) [
  | inl stored ↦ rw (stored, immediate) (from_dialog-IsBounded r.stored m [] h.stored_held tt)
  | inr beside ↦
      rw (beside, immediate)
        (from_dialog-IsBounded r.request_dialog m (stateless packet m) h.request_held
          (stateless-IsBounded packet m))
]

pub delivered-IsBounded :
    (packets : List (List ℕ)) (outcomes : List Bool)
    → All IsBounded packets
    → All IsBounded (delivered packets outcomes)
unfolding delivered
delivered-IsBounded [] outcomes h = tt
delivered-IsBounded (p ∷ packets) [] h = tt
delivered-IsBounded (p ∷ packets) (true ∷ outcomes) h =
    (h.0, delivered-IsBounded packets outcomes h.1)
delivered-IsBounded (p ∷ packets) (false ∷ outcomes) h = delivered-IsBounded packets outcomes h.1

pub advance-Held :
    (r : Routed) (m : Method) (s : Sent) (entry : Option SipDialog)
    → EntryHeld entry
    → EntryHeld (advance r m s entry)
unfolding advance
advance-Held r m s none h = tt
advance-Held r m s (some d) h = elim (Bool-cases r.use_stored_dialog) [
  | inl stored ↦ rw (stored, advance) (staged _ h)
  | inr beside ↦ rw (beside, advance) h
]
