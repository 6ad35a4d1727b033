-- ===== src/Proxy/Transform/Stun/Tlvs.antt =====
-- The attributes of a STUN padding: a writer that holds whole attributes keeps them.
use awg_easy_rs.Prelude.{
  ℕ, zero, suc, ◌+◌, ◌-◌, ◌/◌, ◌%◌, ◌^◌, ◌≤◌, ◌≡◌, refl, sym, ap, min, List, [], ◌∷◌, ◌++◌, some,
  leb, if◌then◌else◌, length, take, drop, arith, length-append, length-take, length-drop, copy_at,
  copy_at-append, append_assoc, append-nil, u16_to_be_bytes, u32_to_be_bytes, bit_xor, Bool-cases,
  inl, inr, leb→le, drop-drop,
}
use awg_easy_rs.Proxy.Transform.Random.{lcg_step}
use awg_easy_rs.Proxy.Transform.Stun.{
  cookie, stun_body, xor_mapped, software_value, software, Writer, put_address, put_software,
}

-- Attributes in type-length-value form, each with a length that is a multiple of 4, up to the end.
pub data Tlvs : List ℕ → Type 0 where
  done : Tlvs []
  attr :
      (kind : ℕ) (value rest all : List ℕ)
      → length value % 4 ≡ 0
      → all ≡ (u16_to_be_bytes kind ++ u16_to_be_bytes (length value)) ++ (value ++ rest)
      → Tlvs rest
      → Tlvs all

length-software_value : (n s : ℕ) → length (software_value n s) ≡ n
unfolding software_value
length-software_value zero s = refl
length-software_value (suc n) s = ap suc (length-software_value n (lcg_step s))

pub length-software : (n s : ℕ) → length (software n s) ≡ n + 4
unfolding software
length-software n s = omega (arith, length-software_value n s)

length-xor_mapped : (port addr : ℕ) → length (xor_mapped port addr) ≡ 12
unfolding xor_mapped
length-xor_mapped port addr = refl

-- A writer of an n-byte padding: what it wrote stands behind the first 20 bytes.
pub record Holds (padding : List ℕ) (w : Writer) (attrs : List ℕ) : Type 0 where
  pub layout : w.buf ≡ take 20 padding ++ (attrs ++ drop (length attrs) (drop 20 padding))
  pub counted : w.written ≡ length attrs
  pub framed : Tlvs attrs
  pub inside : length attrs ≤ stun_body (length padding)

pub stun_body-fits : (n : ℕ) → 20 ≤ n → (20 + stun_body n ≤ n) × (stun_body n % 4 ≡ 0)
unfolding stun_body
stun_body-fits n h = ground arith

Tlvs-append : {a b : List ℕ} → Tlvs a → Tlvs b → Tlvs (a ++ b)
Tlvs-append done t = t
Tlvs-append {b = b} (attr kind value rest all h e r) t =
    attr kind value (rest ++ b) (all ++ b) h (rw e (simp append_assoc)) (Tlvs-append r t)

Tlvs-aligned : {a : List ℕ} → Tlvs a → length a % 4 ≡ 0
Tlvs-aligned done = refl
Tlvs-aligned (attr kind value rest all h e r) =
    omega (arith, ap length e, length-append value rest, Tlvs-aligned r)

Tlvs-xor_mapped : (port addr : ℕ) → Tlvs (xor_mapped port addr)
unfolding xor_mapped
Tlvs-xor_mapped port addr =
    attr 0x0020
      (0x00
        ∷ 0x01
        ∷ (u16_to_be_bytes (bit_xor port (cookie / 2 ^ 16))
            ++ u32_to_be_bytes (bit_xor addr cookie)))
      [] _ refl refl done

Tlvs-software : (n s : ℕ) → n % 4 ≡ 0 → Tlvs (software n s)
unfolding software
Tlvs-software n s h =
    attr 0x8022 (software_value n s) [] _ (rw (length-software_value n s) h)
      (rw (length-software_value n s, append-nil (software_value n s))) done

write_attr :
    (padding attrs src : List ℕ)
    → 20 + length attrs + length src ≤ length padding
    → copy_at
        (20 + length attrs)
        src
        (take 20 padding ++ (attrs ++ drop (length attrs) (drop 20 padding)))
      ≡ some (take 20 padding ++ ((attrs ++ src) ++ drop (length (attrs ++ src)) (drop 20 padding)))
write_attr padding attrs src h =
    let pre = take 20 padding in
    let rest = drop (length attrs) (drop 20 padding) in
    let l = length-take 20 padding in
    let e =
      copy_at-append (20 + length attrs) src (pre ++ attrs) rest
        (omega (arith, length-append pre attrs))
        (omega (arith, length-drop (length attrs) (drop 20 padding), length-drop 20 padding)) in
    let d = drop-drop (length attrs) (length src) (drop 20 padding) in
    rw (← append_assoc pre attrs rest, e, d, length-append attrs src) (simp append_assoc)

-- The attributes that the two steps add.
abbrev pub address_attr : ℕ → ℕ → List ℕ
address_attr body s = if leb 12 body then xor_mapped (s / 2 ^ 16 % 2 ^ 16) (lcg_step s) else []

abbrev pub software_attr : ℕ → ℕ → List ℕ
software_attr remaining s = if leb 4 remaining then software (min (remaining - 4) 124) s else []

-- One attribute written behind those that stand there.
put_attr :
    (padding attrs src : List ℕ) (w : Writer) (s : ℕ)
    → 20 ≤ length padding
    → Holds padding w attrs
    → Tlvs src
    → length attrs + length src ≤ stun_body (length padding)
    → (buf : List ℕ) × (copy_at (20 + w.written) src w.buf ≡ some buf)
      × ((n : ℕ)
          → n ≡ length src
          → Holds padding (record { buf = buf; written = w.written + n; state = s }) (attrs ++ src))
put_attr padding attrs src w s h held t fits = (
  take 20 padding ++ ((attrs ++ src) ++ drop (length (attrs ++ src)) (drop 20 padding)),
  rw (held.layout, held.counted)
      (write_attr padding attrs src (omega (arith, stun_body-fits (length padding) h))),
  λ n e. record {
    layout = refl;
    counted = omega (arith, held.counted, length-append attrs src);
    framed = Tlvs-append held.framed t;
    inside = omega (arith, length-append attrs src);
  },
)

pub put_address_lem :
    (padding : List ℕ) (w : Writer)
    → 20 ≤ length padding
    → Holds padding w []
    → (w' : Writer) × (put_address (stun_body (length padding)) w ≡ some w')
      × Holds padding w' (address_attr (stun_body (length padding)) w.state)
unfolding put_address
put_address_lem padding w h held =
    let body = stun_body (length padding) in
    let src = xor_mapped (w.state / 2 ^ 16 % 2 ^ 16) (lcg_step w.state) in
    let zero_written : w.written ≡ 0 = held.counted in
    elim (Bool-cases (leb 12 body)) [
      | inl y ↦
          let (buf, e, next) =
            put_attr padding [] src w (lcg_step (lcg_step w.state)) h held
              (Tlvs-xor_mapped (w.state / 2 ^ 16 % 2 ^ 16) (lcg_step w.state))
              (omega (
                arith,
                leb→le 12 body y,
                length-xor_mapped (w.state / 2 ^ 16 % 2 ^ 16) (lcg_step w.state),
              )) in
          (
            record { buf = buf; written = w.written + 12; state = lcg_step (lcg_step w.state) },
            ground (arith, e),
            rw y (next 12 (sym (length-xor_mapped _ _))),
          )
      | inr n ↦ (w, ground arith, rw n held)
    ]

pub put_software_lem :
    (padding attrs : List ℕ) (w : Writer)
    → 20 ≤ length padding
    → Holds padding w attrs
    → (w' : Writer) × (put_software (stun_body (length padding)) w ≡ some w')
      × Holds padding w'
          (attrs ++ software_attr (stun_body (length padding) - length attrs) w.state)
unfolding put_software
put_software_lem padding attrs w h held =
    let body = stun_body (length padding) in
    let vlen = min (body - length attrs - 4) 124 in
    let src = software vlen w.state in
    let counted : w.written ≡ length attrs = held.counted in
    let aligned : vlen % 4 ≡ 0 =
      omega (arith, Tlvs-aligned held.framed, stun_body-fits (length padding) h) in
    elim (Bool-cases (leb 4 (body - length attrs))) [
      | inl y ↦
          let (buf, e, next) =
            put_attr padding attrs src w w.state h held (Tlvs-software vlen w.state aligned)
              (omega (arith, leb→le _ _ y, length-software vlen w.state)) in
          (
            record w { buf = buf; written = w.written + (4 + vlen) },
            ground (arith, e),
            rw y (next (4 + vlen) (omega (arith, length-software vlen w.state))),
          )
      | inr n ↦ (w, ground arith, rw (n, append-nil attrs) held)
    ]
