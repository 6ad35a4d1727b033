-- ===== src/Api/Login/Limit.antt =====
-- src/api/session.rs: the limit on the attempts against one username.
use awg_easy_rs.Prelude.{
  ℕ, ◌≤◌, ◌<◌, ◌≡◌, refl, sym, ap, ◌∙◌, inl, inr, List, [], ◌∷◌, ◌++◌, Option, Bool, Bool-cases,
  true, false, ltb, if◌then◌else◌, length, length-append, codes, arith,
}
use mathlib.Core.Path.{subst}
use awg_easy_rs.Prelude.Strings.{same_text}
use awg_easy_rs.Api.Login.{
  AttemptStore, max_rate_limit_keys, rate_limit_key, recent, sweep, window_of, put, remove_if_empty,
  Verdict, allowed, flooded, user_limited, ip_limited, bounded, check_attempt,
}
use awg_easy_rs.Api.Login.Store.{
  recent-recent, recent-append, length-recent, Distinct, window_of-put, window_of-put_other,
  Distinct-put,
}
use awg_easy_rs.Api.Login.Sweep.{
  Distinct-sweep, window_of-sweep, Distinct-remove_if_empty, window_of-remove_if_empty,
}

pub record Request : Type 0 where
  pub now : ℕ
  pub username : List ℕ
  pub client_ip : Option (List ℕ)

-- An attempt that its username's limit let through.
abbrev pub passed : Verdict → Bool
passed allowed = true
passed ip_limited = true
passed flooded = false
passed user_limited = false

abbrev pub user_key : List ℕ → List ℕ
user_key name = rate_limit_key (codes "user") name

-- The times of such attempts against the username's key.
abbrev pub counted : List ℕ → Request → Verdict → List ℕ
counted name r v =
    if same_text (rate_limit_key (codes "user") r.username) (rate_limit_key (codes "user") name)
    then (if passed v then r.now ∷ [] else [])
    else []

unfoldable pub log_after : List ℕ → List ℕ → List Request → AttemptStore → List ℕ
log_after name log [] s = log
log_after name log (r ∷ rs) s =
    let (s', v) = check_attempt r.now r.username r.client_ip s in
    log_after name (log ++ counted name r v) rs s'

-- Requests in the order of their times, the last of them not later than the second number.
abbrev pub Ordered : ℕ → ℕ → List Request → Type 0
Ordered last end [] = last ≤ end
Ordered last end (r ∷ rs) = (last ≤ r.now) × Ordered r.now end rs

-- From a time on, the window of the key has what is recent of the log, and that is not too much.
pub record Kept (key : List ℕ) (last : ℕ) (log : List ℕ) (s : AttemptStore) : Type 0 where
  pub distinct : Distinct s
  pub agrees : (n : ℕ) → last ≤ n → recent n log ≡ recent n (window_of key s)
  pub few : (n : ℕ) → last ≤ n → length (recent n (window_of key s)) ≤ 10

-- A map with a window that is as recent as before.
same_window :
    (key : List ℕ) (last now : ℕ) (log : List ℕ) (s s' : AttemptStore)
    → last ≤ now
    → Distinct s'
    → ((n : ℕ) → now ≤ n → recent n (window_of key s') ≡ recent n (window_of key s))
    → Kept key last log s
    → Kept key now log s'
same_window key last now log s s' h d w k = record {
  distinct = d;
  agrees = λ n l. k.agrees n (omega arith) ∙ sym (w n l);
  few = λ n l. subst (λ ws. length ws ≤ 10) (sym (w n l)) (k.few n (omega arith));
}

pub bounded-Kept :
    (key : List ℕ) (last now : ℕ) (log : List ℕ) (s : AttemptStore)
    → last ≤ now
    → Kept key last log s
    → Kept key now log (bounded now s)
unfolding bounded
bounded-Kept key last now log s h k = elim (Bool-cases (ltb max_rate_limit_keys (length s))) [
  | inl y ↦ rw y (
      same_window key last now log s (sweep now s) h (Distinct-sweep now s k.distinct)
        (λ n l. window_of-sweep key now n s l k.distinct) k)
  | inr n ↦ rw n (same_window key last now log s s h k.distinct (λ n l. refl) k)
]

pub put_other-Kept :
    (key other new : List ℕ) (now : ℕ) (log : List ℕ) (s : AttemptStore)
    → same_text other key ≡ false
    → Kept key now log s
    → Kept key now log (put other new s)
put_other-Kept key other new now log s h k =
    same_window key now now log s (put other new s) (omega arith)
      (Distinct-put other new s k.distinct)
      (λ n l. ap (recent n) (window_of-put_other key other new s h)) k

pub remove-Kept :
    (key other : List ℕ) (now : ℕ) (log : List ℕ) (s : AttemptStore)
    → Kept key now log s
    → Kept key now log (remove_if_empty other s)
remove-Kept key other now log s k =
    same_window key now now log s (remove_if_empty other s) (omega arith)
      (Distinct-remove_if_empty other s k.distinct)
      (λ n l. ap (recent n) (window_of-remove_if_empty key other s k.distinct)) k

-- An attempt that is refused leaves the recent part of the window.
pub put-recent-Kept :
    (key : List ℕ) (now : ℕ) (log : List ℕ) (s : AttemptStore)
    → Kept key now log s
    → Kept key now log (put key (recent now (window_of key s)) s)
put-recent-Kept key now log s k =
    let new = recent now (window_of key s) in
    same_window key now now log s (put key new s) (omega arith) (Distinct-put key new s k.distinct)
      (λ n l. ap (recent n) (window_of-put key new s) ∙ recent-recent now n (window_of key s) l) k

-- An attempt that passes is pushed.
pub push-Kept :
    (key : List ℕ) (now : ℕ) (log : List ℕ) (s : AttemptStore)
    → length (recent now (window_of key s)) < 10
    → Kept key now log s
    → Kept key now (log ++ (now ∷ [])) (put key (recent now (window_of key s) ++ (now ∷ [])) s)
push-Kept key now log s h k =
    let w = recent now (window_of key s) in
    let new = w ++ (now ∷ []) in
    record {
      distinct = Distinct-put key new s k.distinct;
      agrees = λ n l.
          recent-append n log (now ∷ [])
          ∙ ap (λ t. t ++ recent n (now ∷ []))
              (k.agrees n l ∙ sym (recent-recent now n (window_of key s) l))
          ∙ sym (recent-append n w (now ∷ []))
          ∙ ap (recent n) (sym (window_of-put key new s));
      few = λ n l.
          subst (λ ws. length (recent n ws) ≤ 10) (sym (window_of-put key new s))
            (omega (arith, length-recent n new, length-append w (now ∷ [])));
    }
