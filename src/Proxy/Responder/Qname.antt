-- ===== src/Proxy/Responder/Qname.antt =====
-- src/proxy/responder.rs: the walk over an uncompressed DNS name.
pub mod Laws
use awg_easy_rs.Prelude.{
  ℕ, zero, suc, ◌+◌, List, Option, none, some, ◌==◌, ltb, not, if◌then◌else◌, length, get_elem?,
  ◌>>=◌, bit_and,
}

-- The loop from a position, with the length so far. A round moves the position on, so the bytes
-- of the packet and one are fuel enough.
unfoldable pub qname_loop : ℕ → List ℕ → ℕ → ℕ → Option ℕ
qname_loop zero bytes pos qname_len = none
qname_loop (suc rounds) bytes pos qname_len = get_elem? bytes pos >>= λ label_len.
    let rest = qname_loop rounds bytes (pos + (1 + label_len)) (qname_len + (1 + label_len)) in
    if not (bit_and label_len 0xC0 == 0)
    then none
    else (if label_len == 0
        then some (pos + 1)
        else (if ltb 63 label_len
            then none
            else (if ltb 255 (qname_len + (1 + label_len) + 1) then none else rest)))

unfoldable pub dns_qname_end : List ℕ → ℕ → Option ℕ
dns_qname_end bytes start = qname_loop (suc (length bytes)) bytes start 0
