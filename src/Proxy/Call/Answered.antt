-- ===== src/Proxy/Call/Answered.antt =====
-- A SIP call is established only by a 200 OK that was sent.
use awg_easy_rs.Prelude.{
  ℕ, ◌≡◌, ◌⊎◌, refl, ap, List, [], ◌∷◌, ◌++◌, codes, Option, none, some, Bool, ◌≢◌, Bool-cases, inl,
  inr, true, false, ◌&&◌, arith,
}
use awg_easy_rs.Proxy.Responder.Sip.{SipDialogStage, established, SipDialog, build_sip_response}
use awg_easy_rs.Proxy.Responder.Sip.Stage.{generate_sip_ok}
use awg_easy_rs.Proxy.Call.{is_early, deferred_ok}
use awg_easy_rs.Proxy.Call.Routing.{same_bytes}
use awg_easy_rs.Proxy.Call.Runs.{Event, probe, ringing_due, ok_due, expired, step, run}
use awg_easy_rs.Proxy.Call.Entry.{Established, ringing-Established, handle_sip_probe-Established}

module _ (c : List ℕ) where
  -- A datagram with the status line of a 200 OK is sent now, to a dialog with this Call-ID that was
  -- not established yet.
  abbrev pub IsAnswered : Event → Option SipDialog → Type 0
  IsAnswered e entry =
      (d : SipDialog) × (rest : List ℕ) × (entry ≡ some d)
      × (d.stage ≢ established)
      × (d.call_id_value ≡ c)
      × ((step e entry).1 ≡ generate_sip_ok d ∷ [])
      × (generate_sip_ok d ≡ codes "SIP/2.0 200 OK" ++ (0x0D ∷ 0x0A ∷ rest))

  both : (a b : Bool) → (a && b) ≡ true → a ≡ true
  both true b h = refl
  both false b h = h

  early : (t : SipDialogStage) → is_early t ≡ true → t ≢ established
  early t h e = ground (arith, h, e)

  ok-Established :
      (call : List ℕ) (sent : Bool) (entry : Option SipDialog)
      → Established c (deferred_ok call sent entry).0
      → Established c entry ⊎ IsAnswered (ok_due call sent) entry
  unfolding deferred_ok generate_sip_ok build_sip_response
  ok-Established call sent none e = inl e
  ok-Established call sent (some d) e =
      elim (Bool-cases (is_early d.stage && (same_bytes d.call_id_value call && sent))) [
        | inl goes ↦
            let k : Established c (some (record d { stage = established })) = rw goes at e in
            inr (d, _, refl, early d.stage (both _ _ goes), k.1, rw (goes, deferred_ok) refl, refl)
        | inr stays ↦ inl (rw stays at e)
      ]

  step-Established :
      (e : Event) (entry : Option SipDialog)
      → Established c (step e entry).0
      → Established c entry ⊎ IsAnswered e entry
  step-Established (probe packet outcomes) entry k =
      inl (handle_sip_probe-Established c packet outcomes entry k)
  step-Established (ringing_due call sent) entry k = inl (ringing-Established c call sent entry k)
  step-Established (ok_due call sent) entry k = ok-Established call sent entry k
  step-Established expired entry k = absurd k

  -- The entry is this established call from here on, through all the events.
  abbrev pub Stays : List Event → Option SipDialog → Type 0
  Stays [] entry = Established c entry
  Stays (e ∷ events) entry = Established c entry × Stays events (step e entry).0

  first :
      (events : List Event) (entry : Option SipDialog) → Stays events entry → Established c entry
  first [] entry h = h
  first (e ∷ events) entry h = h.0

  -- Among the events is one that sends the 200 OK of the call, and the call stays from there on.
  abbrev pub WasAnswered : List Event → Option SipDialog → Type 0
  WasAnswered events entry =
      (before : List Event) × (e : Event) × (after : List Event) × (events ≡ before ++ (e ∷ after))
      × IsAnswered e (run before entry).0
      × Stays after (step e (run before entry).0).0

  run-from :
      (events : List Event) (entry : Option SipDialog)
      → Established c (run events entry).0
      → Stays events entry ⊎ WasAnswered events entry
  run-from [] entry k = inl k
  run-from (e ∷ events) entry k = elim (run-from events (step e entry).0 k) [
    | inl stays ↦ elim (step-Established e entry (first events (step e entry).0 stays)) [
      | inl before ↦ inl (before, stays)
      | inr now ↦ inr ([], e, events, refl, now, stays)
    ]
    | inr (before, e', after, split, now, stays) ↦
        inr (e ∷ before, e', after, ap (λ l. e ∷ l) split, now, stays)
  ]

-- Whatever a client sends, and in whatever order with the deferred answers: where a call is
-- established, one of the events has sent the 200 OK of a dialog with that call's Call-ID that was
-- not established before, and the entry has been that established call ever since.
pub run-Established :
    (events : List Event) (c : List ℕ)
    → Established c (run events none).0
    → WasAnswered c events none
run-Established events c k = elim (run-from c events none k) [
  | inl stays ↦ absurd (first c events none stays)
  | inr answered ↦ answered
]
