-- ===== src/Proxy/Metrics/Tests.antt =====
-- Examples of the metrics of src/proxy/metrics.rs.
use awg_easy_rs.Prelude.{◌*◌, ◌≤◌, ◌≡◌, refl, List, [], ◌∷◌, none, ltb→lt, ◌^◌, ◌↔◌}
use awg_easy_rs.Proxy.Metrics.{
  ClientMetrics, new_client, try_acquire_at, try_acquire_against, pack, record_in_bytes, snapshot,
}
use awg_easy_rs.Proxy.Metrics.Bucket.{
  spend_all, Spends, spend_all-new_client, try_acquire_at-Spends, try_acquire_against-granted,
}
use awg_easy_rs.Proxy.Metrics.Store.{
  Op, get_or_create_op, remove_op, apply_all, new, get, get_or_create, len, refused-apply_all-new,
}

-- Two tokens a second, at second 7.
abbrev client : ClientMetrics
client = new_client 7 2

two_then_refused : (spend_all (0 ∷ 0 ∷ 0 ∷ []) client).1 ≡ 2
unfolding try_acquire_at awg_easy_rs.Proxy.Metrics.refilled awg_easy_rs.Proxy.Metrics.unpack
    new_client pack
two_then_refused = refl

refilled_later : (spend_all (0 ∷ 0 ∷ 0 ∷ 1 ∷ []) client).1 ≡ 3
unfolding try_acquire_at awg_easy_rs.Proxy.Metrics.refilled awg_easy_rs.Proxy.Metrics.unpack
    new_client pack
refilled_later = refl

-- A call that is late with its time sets the stamp back, and the same second refills again.
late_call : (try_acquire_at 6 (try_acquire_at 7 (new_client 6 1)).0).0.rate_state ≡ pack 0 6
unfolding pack try_acquire_at awg_easy_rs.Proxy.Metrics.refilled awg_easy_rs.Proxy.Metrics.unpack
    new_client
late_call = refl

try_acquire_at-Spends_example :
    Spends 7 client (try_acquire_at 7 client).0 (try_acquire_at 7 client).1
try_acquire_at-Spends_example = try_acquire_at-Spends 7 client (ltb→lt 7 (2 ^ 32) refl)

spend_all-new_client_example : (spend_all (0 ∷ 0 ∷ 0 ∷ 1 ∷ []) (new_client 7 2)).1 ≤ 2 * 2
spend_all-new_client_example =
    spend_all-new_client (0 ∷ 0 ∷ 0 ∷ 1 ∷ []) 7 2 (ltb→lt 8 (2 ^ 32) refl)

try_acquire_against-granted_example :
    try_acquire_against 7 (pack 1500 7 ∷ pack 1200 7 ∷ []) client
    ≡ try_acquire_at 7 (record client { rate_state = pack 1200 7 })
unfolding try_acquire_against pack new_client try_acquire_at awg_easy_rs.Proxy.Metrics.refilled
    awg_easy_rs.Proxy.Metrics.unpack
try_acquire_against-granted_example =
    try_acquire_against-granted 7 (pack 1500 7 ∷ pack 1200 7 ∷ []) client refl

abbrev calls : List Op
calls = get_or_create_op 7 30 ∷ get_or_create_op 7 31 ∷ remove_op 30 ∷ get_or_create_op 8 32 ∷ []

refused-apply_all-new_example :
    (len (apply_all calls (new 5 2)) ≤ 2)
    × (((get_or_create 9 33 (apply_all calls (new 5 2))).1 ≡ none)
        ↔ ((get 33 (apply_all calls (new 5 2)) ≡ none) × (len (apply_all calls (new 5 2)) ≡ 2)))
refused-apply_all-new_example = refused-apply_all-new calls 9 33 5 2
