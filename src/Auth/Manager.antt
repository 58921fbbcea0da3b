-- ===== src/Auth/Manager.antt =====
-- pkg/auth/manager.go. A time is a count of nanoseconds, read from the clock by the caller; the text
-- of a new token comes from the random source, or an error does.
pub mod History
use docker_faas.Base.{
  ℕ, ◌+◌, ◌*◌, ◌^◌, String, Option, none, some, [], ltb, if◌then◌else◌, ◌==◌, Result, ok, err,
  nat_eq, string_eq, bool_eq,
}
use docker_faas.Base.Int.{ℤ, pos, negsuc, int_eq}
use docker_faas.Base.Assoc.{Assoc, lookup, erase, insert}

pub record TokenInfo : Type 0 where
  pub username : String
  pub issued_at : ℕ
  pub expires_at : ℕ
  pub last_seen : ℕ

pub record Manager : Type 0 where
  pub ttl : ℕ
  pub tokens : Assoc String TokenInfo

abbrev pub default_ttl : ℕ
default_ttl = 30 * 60 * 10 ^ 9

unfoldable pub new_manager : ℤ → Manager
new_manager (pos n) = record { ttl = if n == 0 then default_ttl else n; tokens = [] }
new_manager (negsuc n) = record { ttl = default_ttl; tokens = [] }

unfoldable pub issue : Result String → ℕ → String → Manager → Result (String × ℕ) × Manager
unfolding insert
issue (err e) now username m = (err e, m)
issue (ok token) now username m =
    let info : TokenInfo = record {
      username = username;
      issued_at = now;
      expires_at = now + m.ttl;
      last_seen = now;
    } in
    (ok (token, now + m.ttl), record m { tokens = insert token info m.tokens })

check_info : ℕ → String → Option TokenInfo → Manager → Option String × Manager
check_info now token none m = (none, m)
check_info now token (some info) m =
    if ltb info.expires_at now then (none, record m { tokens = erase token m.tokens }) else (
      some info.username,
      record m { tokens = insert token (record info { last_seen = now }) m.tokens },
    )

unfoldable pub validate : ℕ → String → Manager → Option String × Manager
unfolding check_info
validate now token m =
    if token == "" then (none, m) else check_info now token (lookup token m.tokens) m

unfoldable pub revoke : String → Manager → Manager
revoke token m = if token == "" then m else record m { tokens = erase token m.tokens }
