-- ===== src/Proxy/Transform/Sip/Laws.antt =====
-- The SIP padding: no write out of range, and a true Content-Length.
use awg_easy_rs.Prelude.{
  ℕ, ◌+◌, ◌-◌, ◌≤◌, ◌≡◌, refl, ◌∙◌, min, inl, inr, List, [], ◌∷◌, ◌++◌, Option, some, Bool, true,
  false, Bool-cases, Option-cases, leb, leb→le, ◌==◌, length, take, drop, arith, length-take,
  copy_at-length, fill_from-length, take-append-drop, ◌>>=◌, codes,
}
use awg_easy_rs.Proxy.Transform.Sip.{
  decimal_digits, write_pieces, crlf, Draws, draw, SipBuf, put_line, put_lines, put_status,
  put_fragment, mandatory, find_width, length_line, put_length, put_end, put_headers, sip_padding,
  apply_sip_padding,
}

-- A position inside a buffer of n bytes.
pub record IsAt (n : ℕ) (b : SipBuf) : Type 0 where
  pub sized : length b.buf ≡ n
  pub inside : b.pos ≤ n

-- A step that returns keeps the buffer's size and the position inside it.
abbrev Keeps : ℕ → Option (SipBuf × Bool) → Type 0
Keeps n r = (b : SipBuf) × (w : Bool) × (r ≡ some (b, w)) × IsAt n b

put_line-Keeps :
    (pieces : List (List ℕ)) (n : ℕ) (b : SipBuf) → IsAt n b → Keeps n (put_line pieces b)
unfolding put_line
put_line-Keeps pieces n b v = elim (Bool-cases (write_pieces 128 [] pieces).1) [
  | inr no_fit ↦ (b, false, rw no_fit, v)
  | inl fits ↦
      elim (Bool-cases (leb (b.pos + length (write_pieces 128 [] pieces).0 + 2) (length b.buf))) [
        | inr full ↦ (b, false, rw (fits, full), v)
        | inl room ↦
            let line = (write_pieces 128 [] pieces).0 in
            let (buf, e, l) = copy_at-length b.pos line b.buf (omega (arith, leb→le _ _ room)) in
            (
              record { buf = buf; pos = b.pos + length line },
              true,
              rw (fits, room, e),
              record { sized = l ∙ v.sized; inside = omega (arith, leb→le _ _ room, v.sized) },
            )
      ]
]

-- A step behind another.
Keeps-bind :
    (n : ℕ) (m : Option (SipBuf × Bool)) (f : SipBuf × Bool → Option (SipBuf × Bool))
    → Keeps n m
    → ((b : SipBuf) (w : Bool) → IsAt n b → Keeps n (f (b, w)))
    → Keeps n (m >>= f)
Keeps-bind n m f (b, w, e, v) next = rw e (next b w v)

put_lines-Keeps :
    (ls : List (List (List ℕ))) (n : ℕ) (b : SipBuf) → IsAt n b → Keeps n (put_lines ls b)
unfolding put_lines
put_lines-Keeps [] n b v = (b, true, refl, v)
put_lines-Keeps (l ∷ ls) n b v = Keeps-bind n (put_line l b) _ (put_line-Keeps l n b v) λ b' w v'.
    elim (Bool-cases w) [
      | inl y ↦ rw y (put_lines-Keeps ls n b' v')
      | inr no_more ↦ rw no_more (b', false, refl, v')
    ]

put_status-Keeps : (ks : List ℕ) (i n : ℕ) (b : SipBuf) → IsAt n b → Keeps n (put_status ks i b)
unfolding put_status
put_status-Keeps [] i n b v = (b, false, refl, v)
put_status-Keeps (k ∷ ks) i n b v = Keeps-bind n _ _ (put_line-Keeps _ n b v) λ b' w v'.
    elim (Bool-cases w) [
      | inl y ↦ rw y (b', true, refl, v')
      | inr more ↦ rw more (put_status-Keeps ks i n b' v')
    ]

put_length-IsAt :
    (sws : List ℕ) (total n : ℕ) (b : SipBuf)
    → IsAt n b
    → (b' : SipBuf) × (put_length sws total b ≡ some b') × IsAt n b'
unfolding put_length
put_length-IsAt [] total n b v = (b, refl, v)
put_length-IsAt (sws ∷ more) total n b v =
    elim (Option-cases (find_width (decimal_digits total) 1 sws b.pos (length b.buf) total)) [
      | inl nothing ↦
          let (b', e, v') = put_length-IsAt more total n b v in (b', rw (nothing, put_length) e, v')
      | inr (header_end, found) ↦
          let (b', w, e, v') = put_line-Keeps (length_line sws (total - header_end)) n b v in
          (b', rw (found, put_length, e), v')
    ]

put_end-length :
    (n : ℕ) (b : SipBuf) → IsAt n b → (out : List ℕ) × (put_end b ≡ some out) × (length out ≡ n)
unfolding put_end
put_end-length n b v = elim (Bool-cases (leb (b.pos + 2) (length b.buf))) [
  | inl room ↦
      let (buf, e, l) = copy_at-length b.pos crlf b.buf (leb→le _ _ room) in
      let (out, e', l') = fill_from-length (b.pos + 2) 0x20 buf (omega (arith, leb→le _ _ room)) in
      (out, rw (room, e, e'), l' ∙ l ∙ v.sized)
  | inr full ↦
      let (out, e, l) = fill_from-length b.pos 0x20 b.buf (omega (arith, v.sized, v.inside)) in
      (out, rw (full, e), l ∙ v.sized)
]

put_headers-length :
    (d : Draws) (total n : ℕ) (b : SipBuf)
    → IsAt n b
    → (out : List ℕ) × (put_headers d total b ≡ some out) × (length out ≡ n)
unfolding put_headers
put_headers-length d total n b v =
    let (b₂, w, e, v₂) = put_lines-Keeps (mandatory d) n b v in
    elim (Bool-cases w) [
      | inl y ↦
          let (b₃, e₃, v₃) = put_length-IsAt (1 ∷ 2 ∷ []) total n b₂ v₂ in
          let (out, e₄, l) = put_end-length n b₃ v₃ in (out, rw (e, y, e₃, e₄), l)
      | inr cut ↦ let (out, e₄, l) = put_end-length n b₂ v₂ in (out, rw (e, cut, e₄), l)
    ]

put_fragment-length :
    (padding : List ℕ)
    → (out : List ℕ) × (put_fragment padding ≡ some out) × (length out ≡ length padding)
unfolding put_fragment
put_fragment-length padding =
    let frag = codes "SIP/2.0 100 Trying" ++ crlf in
    let n = min 20 (length padding) in
    let (p₁, e₁, l₁) = copy_at-length 0 (take n frag) padding (omega (arith, length-take n frag)) in
    let (p₂, e₂, l₂) = fill_from-length n 0x20 p₁ (omega arith) in
    elim (Bool-cases (leb 2 (length padding))) [
      | inl room ↦
          let (p₃, e₃, l₃) =
            copy_at-length (length padding - 2) crlf p₂ (omega (arith, leb→le _ _ room)) in
          (p₃, rw (e₁, e₂, room, e₃), l₃ ∙ l₂ ∙ l₁)
      | inr short ↦ (p₂, rw (e₁, e₂, short), l₂ ∙ l₁)
    ]

sip_padding-length :
    (padding payload : List ℕ)
    → (out : List ℕ) × (sip_padding padding payload ≡ some out) × (length out ≡ length padding)
unfolding sip_padding
sip_padding-length padding payload =
    let n = length padding in
    let d = draw payload in
    let start : IsAt n (record { buf = padding; pos = 0 }) = record {
      sized = refl;
      inside = omega arith;
    } in
    let (b, w, e, v) = put_status-Keeps (0 ∷ 1 ∷ 2 ∷ []) d.status_idx n _ start in
    elim (Bool-cases w) [
      | inl y ↦
          let (out, e', l) = put_headers-length d (n + length payload) n b v in
          (out, rw (e, y, e'), l)
      | inr none_fits ↦
          let (out, e', l) = put_fragment-length padding in (out, rw (e, none_fits, e'), l)
    ]

-- SIP padding rewrites exactly the padding, on every packet and padding size within it.
pub apply_sip_padding-total :
    (packet : List ℕ) (n : ℕ)
    → n ≤ length packet
    → (p : List ℕ) × (apply_sip_padding packet n ≡ some (p ++ drop n packet)) × (length p ≡ n)
unfolding apply_sip_padding
apply_sip_padding-total packet n h =
    let (p, e, l) = sip_padding-length (take n packet) (drop n packet) in
    let same : length (take n packet) ≡ n = omega (arith, length-take n packet) in
    elim (Bool-cases (length (take n packet) == 0)) [
      | inl z ↦ (take n packet, ground (arith, take-append-drop n packet), same)
      | inr nz ↦ (p, ground (arith, e), l ∙ same)
    ]
