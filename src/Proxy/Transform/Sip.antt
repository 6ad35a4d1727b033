-- ===== src/Proxy/Transform/Sip.antt =====
-- src/proxy/transform.rs: SIP padding, a response with the header lines that fit.
pub mod Laws
pub mod Length
pub mod Framing
use awg_easy_rs.Prelude.{
  ℕ, zero, suc, ◌+◌, ◌-◌, ◌*◌, ◌/◌, ◌%◌, min, List, [], ◌∷◌, ◌++◌, Option, none, some, Bool, true,
  false, ltb, leb, ◌==◌, if◌then◌else◌, length, take, drop, get_or, copy_at, fill_from, ◌>>=◌,
  codes, decimal, hex8,
}
use awg_easy_rs.Proxy.Transform.Random.{fnv1a_seed, lcg_step}

-- `while value >= 10 { value /= 10; digits += 1; }` with fuel above the value.
unfoldable pub digits_loop : ℕ → ℕ → ℕ → ℕ
digits_loop zero value digits = digits
digits_loop (suc f) value digits =
    let rest = digits_loop f (value / 10) (digits + 1) in if leb 10 value then rest else digits

unfoldable pub decimal_digits : ℕ → ℕ
unfolding digits_loop
decimal_digits value = digits_loop (suc value) value 1

-- `SliceWriter::write_str` on each piece in turn: what was written, and whether all of it fits.
unfoldable pub write_pieces : ℕ → List ℕ → List (List ℕ) → List ℕ × Bool
write_pieces cap out [] = (out, true)
write_pieces cap out (p ∷ ps) =
    if leb (length out + length p) cap then write_pieces cap (out ++ p) ps else (out, false)

abbrev pub statuses : List (List ℕ)
statuses = codes "100 Trying" ∷ codes "180 Ringing" ∷ codes "200 OK" ∷ []

abbrev pub methods : List (List ℕ)
methods = codes "INVITE" ∷ codes "OPTIONS" ∷ codes "REGISTER" ∷ []

abbrev pub labels : List (List ℕ)
labels =
    codes "voip"
    ∷ codes "sip"
    ∷ codes "pbx"
    ∷ codes "call"
    ∷ codes "trunk"
    ∷ codes "edge"
    ∷ codes "rtc"
    ∷ codes "sbc"
    ∷ []

abbrev pub tlds : List (List ℕ)
tlds = codes "net" ∷ codes "com" ∷ codes "io" ∷ codes "org" ∷ codes "cloud" ∷ codes "tel" ∷ []

abbrev pub crlf : List ℕ
crlf = 13 ∷ 10 ∷ []

-- The values drawn for one packet, in the order of the draws.
pub record Draws : Type 0 where
  pub status_idx : ℕ
  pub host : List ℕ
  pub method : List ℕ
  pub branch : ℕ
  pub from_tag : ℕ
  pub to_tag : ℕ
  pub call_id : ℕ
  pub cseq : ℕ

unfoldable pub draw : List ℕ → Draws
unfolding write_pieces
draw payload =
    let s0 = fnv1a_seed payload in
    let s1 = lcg_step s0 in
    let s2 = lcg_step s1 in
    let s3 = lcg_step s2 in
    let s4 = lcg_step s3 in
    let s5 = lcg_step s4 in
    let s6 = lcg_step s5 in
    let s7 = lcg_step s6 in
    let s8 = lcg_step s7 in
    let s9 = lcg_step s8 in
    let host_pieces =
      get_or labels (s1 % 8) [] ∷ decimal (s2 % 1000) ∷ codes "." ∷ get_or tlds (s3 % 6) [] ∷ [] in
    record {
      status_idx = s0 % 3;
      host = (write_pieces 40 [] host_pieces).0;
      method = get_or methods (s4 % 3) [];
      branch = s5;
      from_tag = s6;
      to_tag = s7;
      call_id = s8;
      cseq = 1 + s9 % 100_000;
    }

-- The padding and the write position.
pub record SipBuf : Type 0 where
  pub buf : List ℕ
  pub pos : ℕ

-- The macro `put_line!`: a line is formatted into 128 bytes of scratch and appended if it and the
-- closing blank line fit. The result tells whether it was written.
unfoldable pub put_line : List (List ℕ) → SipBuf → Option (SipBuf × Bool)
put_line pieces b =
    let (line, fits) = write_pieces 128 [] pieces in
    if fits
    then (if leb (b.pos + length line + 2) (length b.buf)
        then (do
          buf ← copy_at b.pos line b.buf
          some (record { buf = buf; pos = b.pos + length line }, true))
        else some (b, false))
    else some (b, false)

-- `put_line!(..) && put_line!(..) && ..`
unfoldable pub put_lines : List (List (List ℕ)) → SipBuf → Option (SipBuf × Bool)
put_lines [] b = some (b, true)
put_lines (l ∷ ls) b =
    put_line l b >>= λ (b', written). if written then put_lines ls b' else some (b', false)

-- The loop over the statuses, from the chosen one on: the list holds the values of `k` left.
unfoldable pub put_status : List ℕ → ℕ → SipBuf → Option (SipBuf × Bool)
put_status [] status_idx b = some (b, false)
put_status (k ∷ ks) status_idx b =
    put_line (codes "SIP/2.0 " ∷ get_or statuses ((status_idx + k) % 3) [] ∷ crlf ∷ []) b
    >>= λ (b', written). if written then some (b', true) else put_status ks status_idx b'

-- The status-line fragment of a padding that holds no status line.
unfoldable pub put_fragment : List ℕ → Option (List ℕ)
put_fragment padding = do
  let len = length padding
  let frag = codes "SIP/2.0 100 Trying" ++ crlf
  let n = min (length frag) len
  p1 ← copy_at 0 (take n frag) padding
  p2 ← fill_from n 0x20 p1
  if leb 2 len then copy_at (len - 2) crlf p2 else some p2

unfoldable pub mandatory : Draws → List (List (List ℕ))
mandatory d =
    (codes "Via: SIP/2.0/UDP "
      ∷ d.host
      ∷ codes ":5060;branch=z9hG4bK"
      ∷ hex8 d.branch
      ∷ codes ";rport"
      ∷ crlf
      ∷ [])
    ∷ (codes "From: <sip:caller@" ∷ d.host ∷ codes ">;tag=" ∷ hex8 d.from_tag ∷ crlf ∷ [])
    ∷ (codes "To: <sip:callee@" ∷ d.host ∷ codes ">;tag=" ∷ hex8 d.to_tag ∷ crlf ∷ [])
    ∷ (codes "Call-ID: " ∷ hex8 d.call_id ∷ codes "@" ∷ d.host ∷ crlf ∷ [])
    ∷ (codes "CSeq: " ∷ decimal d.cseq ∷ codes " " ∷ d.method ∷ crlf ∷ [])
    ∷ []

-- The loop over the digit counts: the rounds left, the count of this round. The result is the
-- `header_end` of a width that agrees with the length that it declares.
unfoldable pub find_width : ℕ → ℕ → ℕ → ℕ → ℕ → ℕ → Option ℕ
find_width zero digits sws pos len total = none
find_width (suc rounds) digits sws pos len total =
    let rest = find_width rounds (digits + 1) sws pos len total in
    let header_end = pos + 15 + sws + digits + 4 in
    if ltb len header_end
    then none
    else (if decimal_digits (total - header_end) == digits then some header_end else rest)

unfoldable pub length_line : ℕ → ℕ → List (List ℕ)
length_line sws body =
    (if sws == 1 then codes "Content-Length: " else codes "Content-Length:  ")
    ∷ decimal body
    ∷ crlf
    ∷ []

-- The loop over one and two spaces; it ends at the first width found.
unfoldable pub put_length : List ℕ → ℕ → SipBuf → Option SipBuf
unfolding length_line
put_length [] total b = some b
put_length (sws ∷ more) total b =
    elim (find_width (decimal_digits total) 1 sws b.pos (length b.buf) total) [
      | none ↦ put_length more total b
      | some header_end ↦ put_line (length_line sws (total - header_end)) b >>= λ r. some r.0
    ]

-- The closing blank line and the spaces behind it.
unfoldable pub put_end : SipBuf → Option (List ℕ)
put_end b =
    if leb (b.pos + 2) (length b.buf)
    then (do buf ← copy_at b.pos crlf b.buf; fill_from (b.pos + 2) 0x20 buf)
    else fill_from b.pos 0x20 b.buf

-- Behind the status line: the headers, the length if all of them fit, and the end.
unfoldable pub put_headers : Draws → ℕ → SipBuf → Option (List ℕ)
put_headers d total b = do
  (b₂, all_mandatory) ← put_lines (mandatory d) b
  b₃ ← (if all_mandatory then put_length (1 ∷ 2 ∷ []) total b₂ else some b₂)
  put_end b₃

unfoldable pub sip_padding : List ℕ → List ℕ → Option (List ℕ)
sip_padding padding payload = do
  let d = draw payload
  let total = length padding + length payload
  (b, written) ← put_status (0 ∷ 1 ∷ 2 ∷ []) d.status_idx (record { buf = padding; pos = 0 })
  (if written then put_headers d total b else put_fragment padding)

unfoldable pub apply_sip_padding : List ℕ → ℕ → Option (List ℕ)
apply_sip_padding packet pad_size =
    if leb pad_size (length packet)
    then (if length (take pad_size packet) == 0 then some packet else (do
      p ← sip_padding (take pad_size packet) (drop pad_size packet)
      some (p ++ drop pad_size packet)))
    else none
