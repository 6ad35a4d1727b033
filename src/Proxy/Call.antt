-- ===== src/Proxy/Call.antt =====
-- src/proxy/proxy.rs: a client's SIP call, in `handle_sip_probe` and its deferred task. The state is
-- the client's entry of `sip_dialogs`; which sends succeed, the rate limit included, is an argument.
pub mod Routing
pub mod Laws
pub mod Runs
pub mod Entry
pub mod Answered
mod Tests
use awg_easy_rs.Prelude.{
  ℕ, suc, List, [], ◌∷◌, ◌++◌, Option, none, some, Bool, true, false, ◌&&◌, ◌||◌, not, ◌==◌,
  if◌then◌else◌, length,
}
use awg_easy_rs.Proxy.Responder.Sip.{
  SipDialogStage, idle, invited, ringing, established, terminated, SipDialog, ringing_line,
}
use awg_easy_rs.Proxy.Responder.Sip.Lines.{begins}
use awg_easy_rs.Proxy.Responder.Sip.Request.{
  from_request, from_invite, sip_method, update_request_headers,
}
use awg_easy_rs.Proxy.Responder.Sip.Stage.{
  method_of, Method, invite, ack, bye, cancel, standalone, other, generate_sip_responses,
  sip_next_stage, generate_sip_ringing, generate_sip_ok,
}
use awg_easy_rs.Proxy.Responder.Sip.Trying.{generate_sip_trying}
use awg_easy_rs.Proxy.Call.Routing.{
  is_over, Routed, same_bytes, same_call, fresh_call, known_call, beside, route_invite, route_other,
  route,
}

abbrev pub is_invited : SipDialogStage → Bool
is_invited invited = true
is_invited _ = false

abbrev pub is_early : SipDialogStage → Bool
is_early invited = true
is_early ringing = true
is_early _ = false

-- What was sent of the responses: how many there were, how many went out, and a 180 among them.
pub record Sent : Type 0 where
  pub responses_len : ℕ
  pub sent_response_count : ℕ
  pub sent_ringing : Bool

abbrev pub sent_any_response : Sent → Bool
sent_any_response s = not (s.sent_response_count == 0)

unfoldable pub invite_stage : SipDialogStage → SipDialogStage → Sent → SipDialogStage
invite_stage before current s =
    if is_over before && (is_over current && sent_any_response s)
    then invited
    else (if is_invited before && (is_invited current && s.sent_ringing) then ringing else current)

-- The stage before the responses is the current one where there is none.
abbrev pub stage_or : SipDialogStage → Option SipDialogStage → SipDialogStage
stage_or current none = current
stage_or current (some before) = before

unfoldable pub sip_stage_after_immediate_response :
    SipDialogStage → Option SipDialogStage → Method → Sent → SipDialogStage
sip_stage_after_immediate_response current before invite s =
    invite_stage (stage_or current before) current s
sip_stage_after_immediate_response current before cancel s = sip_next_stage current cancel
sip_stage_after_immediate_response current before ack s = sip_next_stage current ack
sip_stage_after_immediate_response current before method s =
    if not (s.responses_len == 0) && s.sent_response_count == s.responses_len
    then sip_next_stage current method
    else current

-- Without any dialog.
unfoldable pub stateless : List ℕ → Method → List (List ℕ)
stateless packet ack = []
stateless packet bye = []
stateless packet cancel = []
stateless packet standalone = elim (from_request packet) [
  | none ↦ []
  | some dialog ↦ generate_sip_responses dialog standalone
]
stateless packet _ = generate_sip_trying packet ∷ []

abbrev pub from_dialog : Option SipDialog → Method → List (List ℕ) → List (List ℕ)
from_dialog none method otherwise = otherwise
from_dialog (some d) method otherwise = generate_sip_responses d method

unfoldable pub immediate : List ℕ → Method → Routed → List (List ℕ)
immediate packet method r =
    if r.use_stored_dialog
    then from_dialog r.stored method []
    else from_dialog r.request_dialog method (stateless packet method)

-- The responses that go out, by what happens to each; one without an outcome does not.
unfoldable pub delivered : List (List ℕ) → List Bool → List (List ℕ)
delivered [] outcomes = []
delivered (p ∷ packets) [] = []
delivered (p ∷ packets) (o ∷ outcomes) =
    let rest = delivered packets outcomes in if o then p ∷ rest else rest

unfoldable pub any_ringing : List (List ℕ) → Bool
any_ringing [] = false
any_ringing (p ∷ packets) = begins ringing_line p || any_ringing packets

abbrev pub sent_of : List (List ℕ) → List (List ℕ) → Sent
sent_of responses out = record {
  responses_len = length responses;
  sent_response_count = length out;
  sent_ringing = any_ringing out;
}

unfoldable pub advance : Routed → Method → Sent → Option SipDialog → Option SipDialog
advance r method s none = none
advance r method s (some d) =
    if r.use_stored_dialog
    then some
        (record d { stage = sip_stage_after_immediate_response d.stage (some d.stage) method s })
    else some d

-- The entry afterwards, what was sent, and whether the deferred task was started.
pub record Handled : Type 0 where
  pub entry : Option SipDialog
  pub out : List (List ℕ)
  pub deferred : Bool

unfoldable pub handle_method : List ℕ → Method → List Bool → Option SipDialog → Handled
handle_method packet method outcomes stored =
    let r = route packet method stored in
    let responses = immediate packet method r in
    let out = delivered responses outcomes in
    let s = sent_of responses out in
    record {
      entry = advance r method s r.stored;
      out = out;
      deferred = r.is_fresh_invite && sent_any_response s;
    }

-- A message whose first word is no method is answered without a dialog.
unfoldable pub handle_sip_probe : List ℕ → List Bool → Option SipDialog → Handled
handle_sip_probe packet outcomes stored = elim (sip_method packet) [
  | none ↦ record {
    entry = stored;
    out = delivered (generate_sip_trying packet ∷ []) outcomes;
    deferred = false;
  }
  | some word ↦ handle_method packet (method_of word) outcomes stored
]

-- The deferred task's two sends, each under the entry's guard and with the outcome of the send.
abbrev pub Deferred : Type 0
Deferred = Option SipDialog × List (List ℕ)

unfoldable pub deferred_ringing : List ℕ → Bool → Option SipDialog → Deferred
deferred_ringing expected_call_id sent none = (none, [])
deferred_ringing expected_call_id sent (some d) =
    if is_invited d.stage && (same_bytes d.call_id_value expected_call_id && sent)
    then (some (record d { stage = ringing }), generate_sip_ringing d ∷ [])
    else (some d, [])

unfoldable pub deferred_ok : List ℕ → Bool → Option SipDialog → Deferred
deferred_ok expected_call_id sent none = (none, [])
deferred_ok expected_call_id sent (some d) =
    if is_early d.stage && (same_bytes d.call_id_value expected_call_id && sent)
    then (some (record d { stage = established }), generate_sip_ok d ∷ [])
    else (some d, [])
