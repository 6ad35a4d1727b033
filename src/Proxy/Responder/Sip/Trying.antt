-- ===== src/Proxy/Responder/Sip/Trying.antt =====
-- src/proxy/responder.rs: the stateless `100 Trying`.
use awg_easy_rs.Prelude.{
  ℕ, ◌+◌, ◌≤◌, List, [], ◌∷◌, ◌++◌, none, some, Option-cases, Bool, inl, inr, ◌||◌, ltb,
  if◌then◌else◌, length, length-append, codes, arith,
}
use awg_easy_rs.Proxy.Responder.Detect.{starts_with_ignore_case}
use awg_easy_rs.Proxy.Responder.Sip.{crlf, content_length, sip_max_response_size, trying}
use awg_easy_rs.Proxy.Responder.Sip.Lines.{is_empty, sip_header_line, lines, trim}
use awg_easy_rs.Proxy.Responder.Sip.Request.{scanned_text}

unfoldable pub is_echoed : List ℕ → Bool
is_echoed t =
    starts_with_ignore_case (codes "via:") t
    || (starts_with_ignore_case (codes "from:") t
        || (starts_with_ignore_case (codes "to:") t
            || (starts_with_ignore_case (codes "call-id:") t
                || starts_with_ignore_case (codes "cseq:") t)))

-- The loop over the lines. A line that does not fit ends the answer.
unfoldable pub echo_lines : List (List ℕ) → List ℕ → List ℕ
echo_lines [] buf = buf
echo_lines (line ∷ rest) buf =
    let trimmed = trim (sip_header_line line) in
    let echoed = is_echoed trimmed in
    let next = echo_lines rest (if echoed then buf ++ (trimmed ++ crlf) else buf) in
    if is_empty trimmed
    then buf
    else (if echoed
        then (if ltb sip_max_response_size (length buf + (length trimmed + 2) + 21)
            then buf
            else next)
        else next)

unfoldable pub generate_sip_trying : List ℕ → List ℕ
generate_sip_trying incoming = elim (scanned_text incoming) [
  | none ↦ trying ++ (crlf ++ content_length)
  | some text ↦ echo_lines (lines text) (trying ++ crlf) ++ content_length
]

echo_lines-length :
    (ls : List (List ℕ)) (buf : List ℕ)
    → length buf + 21 ≤ 512
    → length (echo_lines ls buf) + 21 ≤ 512
unfolding echo_lines
echo_lines-length [] buf h = h
echo_lines-length (line ∷ ls) buf h =
    let t = trim (sip_header_line line) in
    ground (
      arith,
      echo_lines-length ls buf h,
      echo_lines-length ls (buf ++ (t ++ crlf)),
      length-append buf (t ++ crlf),
      length-append t crlf,
    )

-- The stateless answer has at most 512 bytes, whatever arrived.
pub length-generate_sip_trying : (incoming : List ℕ) → length (generate_sip_trying incoming) ≤ 512
unfolding generate_sip_trying
length-generate_sip_trying incoming = elim (Option-cases (scanned_text incoming)) [
  | inl unread ↦ rw (unread, generate_sip_trying) (omega arith)
  | inr (text, t) ↦
      rw (t, generate_sip_trying)
        (omega (
          arith,
          length-append (echo_lines (lines text) (trying ++ crlf)) content_length,
          echo_lines-length (lines text) (trying ++ crlf) (omega arith),
        ))
]
