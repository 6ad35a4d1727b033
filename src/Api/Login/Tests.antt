-- ===== src/Api/Login/Tests.antt =====
-- Runs of the limits on login attempts.
use awg_easy_rs.Prelude.{
  ℕ, zero, suc, ◌+◌, ◌≤◌, ◌≡◌, refl, List, [], ◌∷◌, ◌++◌, none, some, length, replicate, codes,
  arith,
}
use awg_easy_rs.Api.Login.{
  AttemptStore, rate_limit_key, recent, user_limited, allowed, check_attempt,
}
use awg_easy_rs.Api.Login.Limit.{Request, log_after, Ordered}
use awg_easy_rs.Api.Login.Attempts.{log_after_limit}

abbrev at : ℕ → Request
at now = record { now = now; username = codes "admin"; client_ip = some (codes "10.0.0.7") }

-- Eleven attempts in one second, and one a minute later.
abbrev attempts : List Request
attempts = replicate 11 (at 100) ++ (at 160 ∷ [])

abbrev one_left : AttemptStore
one_left = (codes "user:admin", replicate 10 100) ∷ []

eleventh : (check_attempt 159 (codes "admin") none one_left).1 ≡ user_limited
unfolding check_attempt awg_easy_rs.Api.Login.bounded awg_easy_rs.Api.Login.user_bucket recent
    awg_easy_rs.Api.Login.window_of awg_easy_rs.Prelude.Strings.same_text rate_limit_key
    awg_easy_rs.Api.Login.take_chars
eleventh = refl

a_minute_later :
    (check_attempt 160 (codes "admin") none one_left)
    ≡ ((codes "user:admin", 160 ∷ []) ∷ [], allowed)
unfolding check_attempt awg_easy_rs.Api.Login.bounded awg_easy_rs.Api.Login.user_bucket recent
    awg_easy_rs.Api.Login.window_of awg_easy_rs.Prelude.Strings.same_text rate_limit_key
    awg_easy_rs.Api.Login.take_chars awg_easy_rs.Api.Login.source_bucket awg_easy_rs.Api.Login.put
a_minute_later = refl

-- A name is cut after 64 characters.
long_name : rate_limit_key (codes "ip") (replicate 70 0x61) ≡ codes "ip:" ++ replicate 64 0x61
unfolding rate_limit_key awg_easy_rs.Api.Login.take_chars
long_name = refl

log_after_limit_example : length (recent 160 (log_after (codes "admin") [] attempts [])) ≤ 10
log_after_limit_example = log_after_limit (codes "admin") attempts 160 ordered
  where
    ordered : Ordered 0 160 attempts
    ordered = (
      omega arith,
      (
        omega arith,
        (
          omega arith,
          (
            omega arith,
            (
              omega arith,
              (
                omega arith,
                (
                  omega arith,
                  (
                    omega arith,
                    (omega arith, (omega arith, (omega arith, (omega arith, omega arith)))),
                  ),
                ),
              ),
            ),
          ),
        ),
      ),
    )
