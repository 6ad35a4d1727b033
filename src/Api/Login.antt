-- ===== src/Api/Login.antt =====
-- src/api/session.rs: the limits on login attempts. The map is a list of entries; its order is not
-- observed. The time is in seconds.
pub mod Store
pub mod Sweep
pub mod Limit
pub mod Attempts
mod Tests
use awg_easy_rs.Prelude.{
  ℕ, zero, suc, ◌-◌, List, [], ◌∷◌, ◌++◌, Option, none, some, Bool, true, false, ◌&&◌, not, ltb,
  leb, if◌then◌else◌, length, codes,
}
use awg_easy_rs.Prelude.Strings.{same_text}
use awg_easy_rs.Proxy.Responder.Sip.Lines.{is_empty}

abbrev pub AttemptStore : Type 0
AttemptStore = List (List ℕ × List ℕ)

abbrev pub max_rate_limit_keys : ℕ
max_rate_limit_keys = 16384

abbrev pub rate_limit_subject_max : ℕ
rate_limit_subject_max = 64

-- `chars().take(n)` on UTF-8: a continuation byte belongs to the character before it.
unfoldable pub take_chars : ℕ → List ℕ → List ℕ
take_chars n [] = []
take_chars zero (b ∷ text) =
    let rest = take_chars zero text in if leb 0x80 b && leb b 0xBF then b ∷ rest else []
take_chars (suc n) (b ∷ text) =
    let same = take_chars (suc n) text in
    let next = take_chars n text in if leb 0x80 b && leb b 0xBF then b ∷ same else b ∷ next

unfoldable pub rate_limit_key : List ℕ → List ℕ → List ℕ
rate_limit_key prefix subject = prefix ++ (0x3A ∷ take_chars rate_limit_subject_max subject)

-- What `retain` keeps of a window.
unfoldable pub recent : ℕ → List ℕ → List ℕ
recent now [] = []
recent now (t ∷ window) =
    let rest = recent now window in if ltb (now - t) 60 then t ∷ rest else rest

unfoldable pub sweep : ℕ → AttemptStore → AttemptStore
sweep now [] = []
sweep now ((key, window) ∷ attempts) =
    let rest = sweep now attempts in
    if is_empty (recent now window) then rest else (key, recent now window) ∷ rest

-- `entry(key).or_default()`: the window of a key, and the map with another window for it.
unfoldable pub window_of : List ℕ → AttemptStore → List ℕ
window_of key [] = []
window_of key ((k, window) ∷ attempts) =
    let rest = window_of key attempts in if same_text k key then window else rest

unfoldable pub put : List ℕ → List ℕ → AttemptStore → AttemptStore
put key new [] = (key, new) ∷ []
put key new ((k, window) ∷ attempts) =
    let rest = put key new attempts in
    if same_text k key then (k, new) ∷ attempts else (k, window) ∷ rest

-- `attempts.get(&key).is_some_and(|w| w.is_empty())` with the removal behind it.
unfoldable pub remove_if_empty : List ℕ → AttemptStore → AttemptStore
remove_if_empty key [] = []
remove_if_empty key ((k, window) ∷ attempts) =
    let rest = remove_if_empty key attempts in
    if same_text k key
    then (if is_empty window then attempts else (k, window) ∷ attempts)
    else (k, window) ∷ rest

pub data Verdict : Type 0 where
  allowed flooded user_limited ip_limited : Verdict

unfoldable pub ip_bucket : ℕ → List ℕ → List ℕ → AttemptStore → AttemptStore × Verdict
ip_bucket now user_key ip attempts =
    let key = rate_limit_key (codes "ip") ip in
    let window = recent now (window_of key attempts) in
    if leb 50 (length window)
    then (remove_if_empty user_key (put key window attempts), ip_limited)
    else (put key (window ++ (now ∷ [])) attempts, allowed)

unfoldable pub source_bucket : ℕ → List ℕ → Option (List ℕ) → AttemptStore → AttemptStore × Verdict
source_bucket now user_key none attempts = (attempts, allowed)
source_bucket now user_key (some ip) attempts = ip_bucket now user_key ip attempts

unfoldable pub user_bucket : ℕ → List ℕ → Option (List ℕ) → AttemptStore → AttemptStore × Verdict
user_bucket now user_key client_ip attempts =
    let window = recent now (window_of user_key attempts) in
    if leb 10 (length window)
    then (put user_key window attempts, user_limited)
    else source_bucket now user_key client_ip (put user_key (window ++ (now ∷ [])) attempts)

unfoldable pub bounded : ℕ → AttemptStore → AttemptStore
bounded now attempts =
    if ltb max_rate_limit_keys (length attempts) then sweep now attempts else attempts

-- The block that holds the lock.
unfoldable pub check_attempt : ℕ → List ℕ → Option (List ℕ) → AttemptStore → AttemptStore × Verdict
check_attempt now username client_ip attempts =
    let swept = bounded now attempts in
    if ltb max_rate_limit_keys (length swept)
    then (swept, flooded)
    else user_bucket now (rate_limit_key (codes "user") username) client_ip swept
