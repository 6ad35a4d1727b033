-- ===== src/Proxy/Transform/Sip/Framing.antt =====
-- What the Content-Length step writes.
use awg_easy_rs.Prelude.{
  ℕ, ◌+◌, ◌-◌, ◌≤◌, ◌<◌, ◌≡◌, refl, sym, ◌⊎◌, inl, inr, List, [], ◌∷◌, ◌++◌, some, true,
  Option-cases, if◌then◌else◌, ◌==◌, length, take, drop, replicate, arith, length-append,
  length-take, copy_at, codes, decimal, take-append, append_assoc,
}
use awg_easy_rs.Proxy.Transform.Sip.{
  decimal_digits, write_pieces, crlf, SipBuf, put_line, find_width, length_line, put_length,
}
use awg_easy_rs.Proxy.Transform.Sip.Length.{
  length-decimal, decimal_digits-Ranges, find_width_sound, find_width_finds,
}

write_pieces-three :
    (cap : ℕ) (a b c : List ℕ)
    → length a + length b + length c ≤ cap
    → write_pieces cap [] (a ∷ b ∷ c ∷ []) ≡ (a ++ (b ++ c), true)
unfolding write_pieces
write_pieces-three cap a b c h = ground (arith, length-append a b, append_assoc a b c)

-- A line of three pieces that fits is appended at the position.
put_line-three :
    (a b c : List ℕ) (s : SipBuf)
    → length a + length b + length c ≤ 128
    → s.pos + (length a + length b + length c) + 2 ≤ length s.buf
    → (s' : SipBuf) × (put_line (a ∷ b ∷ c ∷ []) s ≡ some (s', true))
      × (s'.pos ≡ s.pos + (length a + length b + length c))
      × (take s'.pos s'.buf ≡ take s.pos s.buf ++ (a ++ (b ++ c)))
unfolding put_line copy_at
put_line-three a b c s h room =
    let line = a ++ (b ++ c) in
    let n : length line ≡ length a + length b + length c =
      omega (arith, length-append a (b ++ c), length-append b c) in
    let rest = drop (s.pos + length line) s.buf in
    let front : length (take s.pos s.buf ++ line) ≡ s.pos + length line =
      omega (arith, length-append (take s.pos s.buf) line, length-take s.pos s.buf) in
    (
      record { buf = take s.pos s.buf ++ (line ++ rest); pos = s.pos + length line },
      ground (arith, n, write_pieces-three 128 a b c),
      omega (arith, n),
      rw (← append_assoc (take s.pos s.buf) line rest)
          (take-append (s.pos + length line) (take s.pos s.buf ++ line) rest (sym front)),
    )

-- What the step leaves behind: the line stands at the old position, and the length in it counts
-- what is left of the packet behind the line and the closing blank line.
pub record Declares (total : ℕ) (b b' : SipBuf) : Type 0 where
  pub sws : ℕ
  pub spaces : (sws ≡ 1) ⊎ (sws ≡ 2)
  pub body : ℕ
  pub line :
      take b'.pos b'.buf
      ≡ take b.pos b.buf
        ++ ((codes "Content-Length:" ++ replicate sws 32) ++ (decimal body ++ (0x0D ∷ 0x0A ∷ [])))
  pub counts : b'.pos + 2 + body ≡ total
  pub room : b'.pos + 2 ≤ length b.buf

decimal-short : (v : ℕ) → v < 65536 → length (decimal v) ≤ 5
decimal-short v h = ground (arith, length-decimal v, decimal_digits-Ranges v (omega arith))

-- The line for a width that was found.
found-Declares :
    (sws header_end total : ℕ) (b : SipBuf)
    → (sws ≡ 1) ⊎ (sws ≡ 2)
    → length b.buf ≤ total
    → total < 65536
    → find_width (decimal_digits total) 1 sws b.pos (length b.buf) total ≡ some header_end
    → (b' : SipBuf) × (put_line (length_line sws (total - header_end)) b ≡ some (b', true))
      × Declares total b b'
unfolding length_line
found-Declares sws header_end total b spaces k small found =
    let body = total - header_end in
    let (inside, width) = find_width_sound _ 1 sws b.pos (length b.buf) total header_end found in
    let name = codes "Content-Length:" ++ replicate sws 32 in
    let (same, n) = the_name spaces in
    let ld = length-decimal body in
    let (b', e, at, line) =
      put_line-three name (decimal body) crlf b (omega (arith, n, decimal-short body (omega arith)))
        (omega (arith, n, ld)) in
    (
      b',
      rw same e,
      record {
        sws = sws;
        spaces = spaces;
        body = body;
        line = line;
        counts = omega (arith, n, ld);
        room = omega (arith, n, ld);
      },
    )
  where
    the_name :
        (sws ≡ 1) ⊎ (sws ≡ 2)
        → ((if sws == 1 then codes "Content-Length: " else codes "Content-Length:  ")
            ≡ codes "Content-Length:" ++ replicate sws 32)
          × (length (codes "Content-Length:" ++ replicate sws 32) ≡ 15 + sws)
    the_name (inl one) = rw one (refl, refl)
    the_name (inr two) = rw two (refl, refl)

-- With 26 bytes left behind the mandatory headers, the step writes a Content-Length line, with
-- one or two spaces, whose value is the number of bytes of the packet behind the blank line that
-- closes the header.
pub put_length-Declares :
    (total : ℕ) (b : SipBuf)
    → b.pos + 26 ≤ length b.buf
    → length b.buf ≤ total
    → total < 65536
    → (b' : SipBuf) × (put_length (1 ∷ 2 ∷ []) total b ≡ some b') × Declares total b b'
unfolding put_length
put_length-Declares total b h k small =
    elim (Option-cases (find_width (decimal_digits total) 1 1 b.pos (length b.buf) total)) [
      | inr (header_end, found) ↦
          let (b', e, v) = found-Declares 1 header_end total b (inl refl) k small found in
          (b', rw (found, put_length, e), v)
      | inl nothing ↦
          elim (Option-cases (find_width (decimal_digits total) 1 2 b.pos (length b.buf) total)) [
            | inr (header_end, found) ↦
                let (b', e, v) = found-Declares 2 header_end total b (inr refl) k small found in
                (b', rw (nothing, put_length, found, put_length, e), v)
            | inl nothing' ↦ elim (find_width_finds b.pos (length b.buf) total h k small) [
              | inl one ↦ absurd (one nothing)
              | inr two ↦ absurd (two nothing')
            ]
          ]
    ]
