-- ===== src/Proxy/Call/Routing.antt =====
-- src/proxy/proxy.rs: which dialog a client's SIP request belongs to.
use awg_easy_rs.Prelude.{
  ℕ, List, [], ◌∷◌, Option, none, some, Bool, true, false, ◌&&◌, ◌||◌, not, ◌==◌, if◌then◌else◌,
}
use awg_easy_rs.Proxy.Responder.Sip.{SipDialogStage, idle, terminated, SipDialog}
use awg_easy_rs.Proxy.Responder.Sip.Request.{from_request, from_invite, update_request_headers}
use awg_easy_rs.Proxy.Responder.Sip.Stage.{Method, invite}

abbrev pub is_over : SipDialogStage → Bool
is_over idle = true
is_over terminated = true
is_over _ = false

-- Which dialog answers: the client's entry afterwards, whether it is the one to use, another one
-- made from the request, and whether the INVITE began a new call.
pub record Routed : Type 0 where
  pub stored : Option SipDialog
  pub use_stored_dialog : Bool
  pub request_dialog : Option SipDialog
  pub is_fresh_invite : Bool

unfoldable pub same_bytes : List ℕ → List ℕ → Bool
same_bytes [] [] = true
same_bytes (x ∷ xs) (y ∷ ys) = x == y && same_bytes xs ys
same_bytes _ _ = false

unfoldable pub same_call : SipDialog → SipDialog → Bool
same_call d e = same_bytes d.call_id_value e.call_id_value

abbrev pub fresh_call : SipDialog → Routed
fresh_call dialog = record {
  stored = some dialog;
  use_stored_dialog = true;
  request_dialog = none;
  is_fresh_invite = true;
}

abbrev pub known_call : SipDialog → Routed
known_call d = record {
  stored = some d;
  use_stored_dialog = true;
  request_dialog = none;
  is_fresh_invite = false;
}

abbrev pub beside : Option SipDialog → Option SipDialog → Routed
beside stored dialog = record {
  stored = stored;
  use_stored_dialog = false;
  request_dialog = dialog;
  is_fresh_invite = false;
}

unfoldable pub route_invite : List ℕ → Option SipDialog → SipDialog → Routed
route_invite packet none dialog = fresh_call dialog
route_invite packet (some d) dialog =
    if is_over d.stage || not (same_call d dialog)
    then fresh_call dialog
    else known_call (update_request_headers packet d)

unfoldable pub route_other : List ℕ → Option SipDialog → Option SipDialog → Routed
route_other packet none parsed = beside none parsed
route_other packet (some d) none = beside (some d) none
route_other packet (some d) (some dialog) =
    if same_call d dialog
    then known_call (update_request_headers packet d)
    else beside (some d) (some dialog)

unfoldable pub route : List ℕ → Method → Option SipDialog → Routed
route packet invite stored = elim (from_invite packet) [
  | some dialog ↦ route_invite packet stored dialog
  | none ↦ beside none none
]
route packet method stored = route_other packet stored (from_request packet)
