-- ===== src/Auth/Limiter.antt =====
-- pkg/middleware/rate_limiter.go: failed logins of each client within a window. `none` is the nil
-- limiter, which limits nothing.
pub mod Window
use docker_faas.Base.{
  ℕ, suc, ◌+◌, String, Bool, true, false, Option, none, some, [], ltb, leb, if◌then◌else◌, nat_eq,
  string_eq, bool_eq,
}
use docker_faas.Base.Int.{ℤ, pos, sub_ℕ}
use docker_faas.Base.Assoc.{Assoc, lookup, erase, insert}

pub record Bucket : Type 0 where
  pub count : ℕ
  pub reset : ℕ

pub record Limiter : Type 0 where
  pub limit : ℕ
  pub window : ℕ
  pub bucket : Assoc String Bucket

unfoldable pub new_limiter : ℤ → ℤ → Option Limiter
new_limiter (pos (suc l)) (pos (suc w)) =
    some (record { limit = suc l; window = suc w; bucket = [] })
new_limiter _ _ = none

-- `allow` after the lookup: `b` is the bucket that counts now, which the map holds.
count_attempt : ℕ → String → Bucket → Limiter → (Bool × ℤ) × Limiter
count_attempt later key b l = if leb l.limit b.count then ((false, sub_ℕ b.reset later), l) else (
  (true, pos 0),
  record l { bucket = insert key (record b { count = b.count + 1 }) l.bucket },
)

-- A missing bucket, or one whose window has passed, is replaced.
unfoldable pub current : ℕ → ℕ → Option Bucket → Option Bucket
current now window none = none
current now window (some b) = if ltb b.reset now then none else some b

allow_bucket : ℕ → ℕ → String → Option Bucket → Limiter → (Bool × ℤ) × Limiter
unfolding count_attempt
allow_bucket now later key (some b) l = count_attempt later key b l
allow_bucket now later key none l =
    let b : Bucket = record { count = 0; reset = now + l.window } in
    count_attempt later key b (record l { bucket = insert key b l.bucket })

-- The clock is read twice: `now` first, and `later` for the time that is left.
unfoldable pub allow : ℕ → ℕ → String → Option Limiter → (Bool × ℤ) × Option Limiter
unfolding allow_bucket current
allow now later key none = ((true, pos 0), none)
allow now later key (some l) =
    let (answer, l') = allow_bucket now later key (current now l.window (lookup key l.bucket)) l in
    (answer, some l')

unfoldable pub reset : String → Option Limiter → Option Limiter
reset key none = none
reset key (some l) = some (record l { bucket = erase key l.bucket })
