-- ===== src/Api/Login/Attempts.antt =====
-- src/api/session.rs: sequences of login attempts against the limit of a username.
use awg_easy_rs.Prelude.{
  ℕ, ◌≤◌, ◌≡◌, refl, sym, ap, ◌∙◌, inl, inr, List, [], ◌∷◌, ◌++◌, append-nil, Option, none, some,
  Bool, Bool-cases, true, false, ltb, leb, if◌then◌else◌, length, codes, arith,
}
use mathlib.Core.Path.{subst}
use awg_easy_rs.Prelude.Strings.{same_text}
use awg_easy_rs.Prelude.Strings.Laws.{same_text_iff}
use awg_easy_rs.Api.Login.{
  AttemptStore, max_rate_limit_keys, rate_limit_key, recent, window_of, put, Verdict, flooded,
  user_limited, ip_bucket, source_bucket, user_bucket, bounded, check_attempt,
}
use awg_easy_rs.Api.Login.Limit.{
  Request, passed, user_key, counted, log_after, Ordered, Kept, bounded-Kept, put_other-Kept,
  remove-Kept, put-recent-Kept, push-Kept,
}

-- The key of an address is not the key of a username.
ip_key_other :
    (ip name : List ℕ) → same_text (rate_limit_key (codes "ip") ip) (user_key name) ≡ false
unfolding same_text rate_limit_key
ip_key_other ip name = refl

abbrev Outcome : List ℕ → ℕ → List ℕ → AttemptStore × Verdict → Type 0
Outcome name now log (s, v) = Kept (user_key name) now log s × (passed v ≡ true)

ip_bucket-Outcome :
    (name : List ℕ) (now : ℕ) (log key ip : List ℕ) (s : AttemptStore)
    → Kept (user_key name) now log s
    → Outcome name now log (ip_bucket now key ip s)
unfolding ip_bucket
ip_bucket-Outcome name now log key ip s k =
    let other = rate_limit_key (codes "ip") ip in
    let w = recent now (window_of other s) in
    elim (Bool-cases (leb 50 (length w))) [
      | inl y ↦ rw y (
        remove-Kept (user_key name) key now log (put other w s)
            (put_other-Kept (user_key name) other w now log s (ip_key_other ip name) k),
        refl,
      )
      | inr n ↦ rw n (
        put_other-Kept (user_key name) other (w ++ (now ∷ [])) now log s (ip_key_other ip name) k,
        refl,
      )
    ]

source_bucket-Outcome :
    (name : List ℕ) (now : ℕ) (log key : List ℕ) (ip : Option (List ℕ)) (s : AttemptStore)
    → Kept (user_key name) now log s
    → Outcome name now log (source_bucket now key ip s)
unfolding source_bucket
source_bucket-Outcome name now log key none s k = (k, refl)
source_bucket-Outcome name now log key (some ip) s k = ip_bucket-Outcome name now log key ip s k

-- What a request adds to the log.
abbrev added : Bool → ℕ → Verdict → List ℕ
added same now v = if same then (if passed v then now ∷ [] else []) else []

abbrev After : List ℕ → ℕ → List ℕ → Bool → AttemptStore × Verdict → Type 0
After name now log same (s, v) = Kept (user_key name) now (log ++ added same now v) s

unlogged :
    (name : List ℕ) (now : ℕ) (log : List ℕ) (same : Bool) (r : AttemptStore × Verdict)
    → added same now r.1 ≡ []
    → Kept (user_key name) now log r.0
    → After name now log same r
unlogged name now log same (s, v) e k =
    subst (λ l. Kept (user_key name) now l s) (sym (ap (λ t. log ++ t) e ∙ append-nil log)) k

logged :
    (name : List ℕ) (now : ℕ) (log : List ℕ) (r : AttemptStore × Verdict)
    → Outcome name now (log ++ (now ∷ [])) r
    → After name now log true r
logged name now log (s, v) (k, p) =
    subst (λ l. Kept (user_key name) now l s) (ap (λ t. log ++ t) (sym (shown p))) k
  where
    shown : passed v ≡ true → added true now v ≡ now ∷ []
    shown q = ap (λ t. if t then now ∷ [] else []) q

user_bucket-same :
    (name : List ℕ) (now : ℕ) (log : List ℕ) (ip : Option (List ℕ)) (s : AttemptStore)
    → Kept (user_key name) now log s
    → After name now log true (user_bucket now (user_key name) ip s)
unfolding user_bucket
user_bucket-same name now log ip s k =
    let w = recent now (window_of (user_key name) s) in
    elim (Bool-cases (leb 10 (length w))) [
      | inl y ↦ rw y (
          unlogged name now log true (put (user_key name) w s, user_limited) refl
            (put-recent-Kept (user_key name) now log s k))
      | inr n ↦ rw n (
          logged name now log
            (source_bucket now (user_key name) ip (put (user_key name) (w ++ (now ∷ [])) s))
            (source_bucket-Outcome name now (log ++ (now ∷ [])) (user_key name) ip
              (put (user_key name) (w ++ (now ∷ [])) s)
              (push-Kept (user_key name) now log s (ground arith) k)))
    ]

user_bucket-other :
    (name key : List ℕ) (now : ℕ) (log : List ℕ) (ip : Option (List ℕ)) (s : AttemptStore)
    → same_text key (user_key name) ≡ false
    → Kept (user_key name) now log s
    → After name now log false (user_bucket now key ip s)
unfolding user_bucket
user_bucket-other name key now log ip s o k =
    let w = recent now (window_of key s) in
    elim (Bool-cases (leb 10 (length w))) [
      | inl y ↦ rw y (
          unlogged name now log false (put key w s, user_limited) refl
            (put_other-Kept (user_key name) key w now log s o k))
      | inr n ↦ rw n (
          unlogged name now log false (source_bucket now key ip (put key (w ++ (now ∷ [])) s)) refl
            (source_bucket-Outcome name now log key ip (put key (w ++ (now ∷ [])) s)
              (put_other-Kept (user_key name) key (w ++ (now ∷ [])) now log s o k)).0)
    ]

user_bucket-After :
    (name key : List ℕ) (now : ℕ) (log : List ℕ) (ip : Option (List ℕ)) (s : AttemptStore)
    → Kept (user_key name) now log s
    → After name now log (same_text key (user_key name)) (user_bucket now key ip s)
user_bucket-After name key now log ip s k = elim (Bool-cases (same_text key (user_key name))) [
  | inl y ↦ rw y (
      subst (λ t. After name now log true (user_bucket now t ip s))
        (sym ((same_text_iff key (user_key name)).0 y)) (user_bucket-same name now log ip s k))
  | inr n ↦ rw n (user_bucket-other name key now log ip s n k)
]

never_logged : (same : Bool) (now : ℕ) → added same now flooded ≡ []
never_logged true now = refl
never_logged false now = refl

check_attempt-After :
    (name : List ℕ) (last : ℕ) (log : List ℕ) (r : Request) (s : AttemptStore)
    → last ≤ r.now
    → Kept (user_key name) last log s
    → After name r.now log
        (same_text (user_key r.username) (user_key name))
        (check_attempt r.now r.username r.client_ip s)
unfolding check_attempt
check_attempt-After name last log r s h k =
    let swept = bounded r.now s in
    let k' = bounded-Kept (user_key name) last r.now log s h k in
    elim (Bool-cases (ltb max_rate_limit_keys (length swept))) [
      | inl y ↦ rw y (
          unlogged name r.now log (same_text (user_key r.username) (user_key name)) (swept, flooded)
            (never_logged (same_text (user_key r.username) (user_key name)) r.now) k')
      | inr n ↦ rw n (user_bucket-After name (user_key r.username) r.now log r.client_ip swept k')
    ]

log_after-few :
    (name log : List ℕ) (rs : List Request) (s : AttemptStore) (last end : ℕ)
    → Ordered last end rs
    → Kept (user_key name) last log s
    → length (recent end (log_after name log rs s)) ≤ 10
unfolding log_after
log_after-few name log [] s last end o k =
    subst (λ l. length l ≤ 10) (sym (k.agrees end o)) (k.few end o)
log_after-few name log (r ∷ rs) s last end (h, o) k =
    let (s', v) = check_attempt r.now r.username r.client_ip s in
    log_after-few name (log ++ counted name r v) rs s' r.now end o
      (check_attempt-After name last log r s h k)

-- However the attempts come, whatever their usernames and addresses and how often the map is
-- swept: in any 60 seconds at most ten of them get past the limit of a username.
pub log_after_limit :
    (name : List ℕ) (rs : List Request) (end : ℕ)
    → Ordered 0 end rs
    → length (recent end (log_after name [] rs [])) ≤ 10
unfolding recent window_of
log_after_limit name rs end o =
    log_after-few name [] rs [] 0 end o
      (record { distinct = tt; agrees = λ n l. refl; few = λ n l. omega arith })
