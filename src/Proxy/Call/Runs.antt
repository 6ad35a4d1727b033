-- ===== src/Proxy/Call/Runs.antt =====
-- Runs of a client's SIP call: requests, the two deferred sends, and the removal of the entry.
use awg_easy_rs.Prelude.{
  Option-cases, ℕ, List, [], ◌∷◌, ◌++◌, Option, none, some, Bool, Bool-cases, inl, inr, ◌&&◌, All,
}
use awg_easy_rs.Proxy.Responder.Sip.{ringing, established, SipDialog}
use awg_easy_rs.Proxy.Responder.Sip.Length.{IsBounded}
use awg_easy_rs.Proxy.Responder.Sip.Bounds.{staged, generate_sip_responses-IsBounded}
use awg_easy_rs.Proxy.Responder.Sip.Stage.{method_of, Method, ack}
use awg_easy_rs.Proxy.Call.{
  Handled, handle_method, is_invited, is_early, immediate, sent_of, delivered, handle_sip_probe,
  deferred_ringing, deferred_ok,
}
use awg_easy_rs.Proxy.Call.Routing.{same_bytes, route}
use awg_easy_rs.Proxy.Responder.Sip.Request.{sip_method}
use awg_easy_rs.Proxy.Responder.Sip.Trying.{generate_sip_trying, length-generate_sip_trying}
use awg_easy_rs.Proxy.Call.Laws.{
  EntryHeld, route-Held, immediate-IsBounded, delivered-IsBounded, advance-Held,
}

pub data Event : Type 0 where
  probe : List ℕ → List Bool → Event
  ringing_due : List ℕ → Bool → Event
  ok_due : List ℕ → Bool → Event
  expired : Event

-- The entry afterwards, and what was sent.
abbrev pub step : Event → Option SipDialog → Option SipDialog × List (List ℕ)
step (probe packet outcomes) entry =
    let h = handle_sip_probe packet outcomes entry in (h.entry, h.out)
step (ringing_due call sent) entry = deferred_ringing call sent entry
step (ok_due call sent) entry = deferred_ok call sent entry
step expired entry = (none, [])

abbrev pub run : List Event → Option SipDialog → Option SipDialog × List (List ℕ)
run [] entry = (entry, [])
run (e ∷ events) entry =
    let (entry', out) = step e entry in let (last, more) = run events entry' in (last, out ++ more)

All-append :
    (xs ys : List (List ℕ)) → All IsBounded xs → All IsBounded ys → All IsBounded (xs ++ ys)
All-append [] ys h k = k
All-append (x ∷ xs) ys h k = (h.0, All-append xs ys h.1 k)

record StepHeld (e : Event) (entry : Option SipDialog) : Type 0 where
  entry_held : EntryHeld (step e entry).0
  out_bounded : All IsBounded (step e entry).1

ringing-Held :
    (call : List ℕ) (sent : Bool) (entry : Option SipDialog)
    → EntryHeld entry
    → StepHeld (ringing_due call sent) entry
unfolding deferred_ringing
ringing-Held call sent none h = record { entry_held = tt; out_bounded = tt }
ringing-Held call sent (some d) h =
    let (responses, ringing_fits, ok_fits) = generate_sip_responses-IsBounded d ack h in
    elim (Bool-cases (is_invited d.stage && (same_bytes d.call_id_value call && sent))) [
      | inl goes ↦ record {
        entry_held = rw (goes, deferred_ringing) (staged ringing h);
        out_bounded = rw (goes, deferred_ringing) (ringing_fits, tt);
      }
      | inr stays ↦ record {
        entry_held = rw (stays, deferred_ringing) h;
        out_bounded = rw (stays, deferred_ringing) tt;
      }
    ]

ok-Held :
    (call : List ℕ) (sent : Bool) (entry : Option SipDialog)
    → EntryHeld entry
    → StepHeld (ok_due call sent) entry
unfolding deferred_ok
ok-Held call sent none h = record { entry_held = tt; out_bounded = tt }
ok-Held call sent (some d) h =
    let (responses, ringing_fits, ok_fits) = generate_sip_responses-IsBounded d ack h in
    elim (Bool-cases (is_early d.stage && (same_bytes d.call_id_value call && sent))) [
      | inl goes ↦ record {
        entry_held = rw (goes, deferred_ok) (staged established h);
        out_bounded = rw (goes, deferred_ok) (ok_fits, tt);
      }
      | inr stays ↦ record {
        entry_held = rw (stays, deferred_ok) h;
        out_bounded = rw (stays, deferred_ok) tt;
      }
    ]

record HandledHeld (h : Handled) : Type 0 where
  entry_held : EntryHeld h.entry
  out_bounded : All IsBounded h.out

handle_method-Held :
    (packet : List ℕ) (m : Method) (outcomes : List Bool) (entry : Option SipDialog)
    → EntryHeld entry
    → HandledHeld (handle_method packet m outcomes entry)
unfolding handle_method
handle_method-Held packet m outcomes entry h =
    let r = route packet m entry in
    let held = route-Held packet m entry h in
    let responses = immediate packet m r in
    record {
      entry_held =
          advance-Held r m (sent_of responses (delivered responses outcomes)) r.stored
            held.stored_held;
      out_bounded = delivered-IsBounded responses outcomes (immediate-IsBounded packet m r held);
    }

handle_sip_probe-Held :
    (packet : List ℕ) (outcomes : List Bool) (entry : Option SipDialog)
    → EntryHeld entry
    → HandledHeld (handle_sip_probe packet outcomes entry)
unfolding handle_sip_probe
handle_sip_probe-Held packet outcomes entry h = elim (Option-cases (sip_method packet)) [
  | inl unread ↦
      rw (unread, handle_sip_probe)
        (record {
          entry_held = h;
          out_bounded =
              delivered-IsBounded (generate_sip_trying packet ∷ []) outcomes
                (length-generate_sip_trying packet, tt);
        })
  | inr (word, w) ↦
      rw (w, handle_sip_probe) (handle_method-Held packet (method_of word) outcomes entry h)
]

step-Held : (e : Event) (entry : Option SipDialog) → EntryHeld entry → StepHeld e entry
step-Held (probe packet outcomes) entry h =
    let held = handle_sip_probe-Held packet outcomes entry h in
    record { entry_held = held.entry_held; out_bounded = held.out_bounded }
step-Held (ringing_due call sent) entry h = ringing-Held call sent entry h
step-Held (ok_due call sent) entry h = ok-Held call sent entry h
step-Held expired entry h = record { entry_held = tt; out_bounded = tt }

run-Held :
    (events : List Event) (entry : Option SipDialog)
    → EntryHeld entry
    → All IsBounded (run events entry).1
run-Held [] entry h = tt
run-Held (e ∷ events) entry h =
    let s = step-Held e entry h in
    All-append (step e entry).1 (run events (step e entry).0).1 s.out_bounded
      (run-Held events (step e entry).0 s.entry_held)

-- Whatever requests a client sends, in whatever order with the deferred answers and with whatever
-- sends that fail, no SIP packet that the proxy sends to it has more than 512 bytes.
pub run-IsBounded : (events : List Event) → All IsBounded (run events none).1
run-IsBounded events = run-Held events none tt
