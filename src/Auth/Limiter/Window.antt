-- ===== src/Auth/Limiter/Window.antt =====
-- How many failed logins of one client are answered within a window, whatever other clients do.
use Prim.Native.Nat.{min}
use text.Mathlib.TextPositions.{eq_refl}
use docker_faas.Base.{
  ℕ, ◌+◌, ◌-◌, ◌≤◌, String, ◌≡◌, refl, ap, ◌∙◌, ◌≢◌, inl, inr, false, ◌&&◌, Option, none, some,
  List, [], ◌∷◌, arith, eq_iff, ltb, leb, if◌then◌else◌, ◌==◌, ltb→lt, Bool-cases, nat_eq,
  string_eq, bool_eq,
}
use docker_faas.Base.Assoc.{Assoc, lookup, erase, insert, lookup-erase, lookup-insert}
use docker_faas.Auth.Limiter.{Bucket, Limiter, count_attempt, current, allow_bucket, allow, reset}

-- What reaches the limiter: a failed login, or the reset after a success.
pub data Event : Type 0 where
  failed : String → ℕ → ℕ → Event
  succeeded : String → Event

-- How many failed logins of `key` were allowed, and how many there were.
pub granted : String → List Event → Option Limiter → ℕ
granted key [] l = 0
granted key (failed j now later ∷ es) l =
    let (answer, l') = allow now later j l in
    (if j == key && answer.0 then 1 else 0) + granted key es l'
granted key (succeeded j ∷ es) l = granted key es (reset j l)

pub made : String → List Event → ℕ
made key [] = 0
made key (failed j now later ∷ es) = (if j == key then 1 else 0) + made key es
made key (succeeded j ∷ es) = made key es

abbrev pub Within : String → ℕ → List Event → Type 0
Within key end [] = Unit
Within key end (failed j now later ∷ es) = (now ≤ end) × Within key end es
Within key end (succeeded j ∷ es) = (j ≢ key) × Within key end es

abbrev limit_of : Option Limiter → ℕ
limit_of none = 0
limit_of (some l) = l.limit

abbrev window_of : Option Limiter → ℕ
window_of none = 0
window_of (some l) = l.window

abbrev bucket_of : String → Option Limiter → Option Bucket
bucket_of key none = none
bucket_of key (some l) = lookup key l.bucket

abbrev SameFor : String → Limiter → Limiter → Type 0
SameFor key l l' =
    (l'.limit ≡ l.limit) × (l'.window ≡ l.window) × (lookup key l'.bucket ≡ lookup key l.bucket)

module _ (now later : ℕ) (j key : String) (ne : j ≢ key) where
  lookup-insert_ne :
      (b : Bucket) (m : Assoc String Bucket) → lookup key (insert j b m) ≡ lookup key m
  lookup-insert_ne b m = rw lookup-insert (ground (arith, eq_iff j key))

  count-other : (b : Bucket) (l : Limiter) → SameFor key l (count_attempt later j b l).1
  unfolding count_attempt
  count-other b l = elim (Bool-cases (leb l.limit b.count)) [
    | inl e ↦ rw e (refl, refl, refl)
    | inr e ↦ rw e (refl, refl, lookup-insert_ne _ l.bucket)
  ]

  allow_bucket-other :
      (o : Option Bucket) (l : Limiter) → SameFor key l (allow_bucket now later j o l).1
  unfolding allow_bucket
  allow_bucket-other (some b) l = count-other b l
  allow_bucket-other none l =
      let b : Bucket = record { count = 0; reset = now + l.window } in
      let (limit, window, bucket) = count-other b (record l { bucket = insert j b l.bucket }) in
      (limit, window, bucket ∙ lookup-insert_ne b l.bucket)

  -- A failed login of another client.
  allow-other :
      (l : Limiter) → (l' : Limiter) × ((allow now later j (some l)).1 ≡ some l') × SameFor key l l'
  unfolding allow
  allow-other l = (
    (allow_bucket now later j (current now l.window (lookup j l.bucket)) l).1,
    refl,
    allow_bucket-other _ l,
  )

-- A live bucket counts one more failure, up to the limit.
allow_live :
    (now later : ℕ) (key : String) (l : Limiter) (b : Bucket)
    → lookup key l.bucket ≡ some b
    → now ≤ b.reset
    → ((allow now later key (some l)).0.0 ≡ ltb b.count l.limit)
      × ((allow now later key (some l)).1
          ≡ some (
              if ltb b.count l.limit
              then record l { bucket = insert key (record b { count = b.count + 1 }) l.bucket }
              else l))
unfolding allow
allow_live now later key l b e h = rw e (ground arith)

-- The next failed login of `key` itself, given what follows it.
live_step :
    (now later : ℕ) (key : String) (es : List Event) (l : Limiter) (b : Bucket) (n : ℕ)
    → lookup key l.bucket ≡ some b
    → now ≤ b.reset
    → ((l' : Limiter) (b' : Bucket)
        → l'.limit ≡ l.limit
        → b'.reset ≡ b.reset
        → lookup key l'.bucket ≡ some b'
        → granted key es (some l') ≡ min (l.limit - b'.count) n)
    → (if (allow now later key (some l)).0.0 then 1 else 0)
        + granted key es (allow now later key (some l)).1
      ≡ min (l.limit - b.count) (1 + n)
live_step now later key es l b n e t rest =
    let (answer, after) = allow_live now later key l b e t in
    rw (answer, after)
      (elim (Bool-cases (ltb b.count l.limit)) [
        | inl room ↦
            let b' : Bucket = record b { count = b.count + 1 } in
            rw room (
              omega (
                arith,
                ltb→lt b.count l.limit room,
                rest (record l { bucket = insert key b' l.bucket }) b' refl refl
                    (rw (lookup-insert, eq_refl)),
              ))
        | inr full ↦ rw full (ground (arith, rest l b refl refl e))
      ])

-- A failed login of another client, given what follows it.
other_step :
    (key : String) (es : List Event) (l : Limiter) (b : Bucket) (l' : Limiter) (n : ℕ)
    (next : Option Limiter)
    → next ≡ some l'
    → l'.limit ≡ l.limit
    → granted key es (some l') ≡ min (l'.limit - b.count) n
    → 0 + granted key es next ≡ min (l.limit - b.count) (0 + n)
other_step key es l b l' n next after limit rest =
    let same : granted key es next ≡ granted key es (some l') = ap (granted key es) after in
    omega arith

granted_live :
    (key : String) (es : List Event) (l : Limiter) (b : Bucket)
    → lookup key l.bucket ≡ some b
    → Within key b.reset es
    → granted key es (some l) ≡ min (l.limit - b.count) (made key es)
unfolding granted made reset
granted_live key [] l b e h = omega arith
granted_live key (succeeded j ∷ es) l b e (ne, h) =
    granted_live key es (record l { bucket = erase j l.bucket }) b
      (rw lookup-erase (ground (arith, eq_iff j key))) h
granted_live key (failed j now later ∷ es) l b e (t, h) = elim (Bool-cases (j == key)) [
  | inl s ↦
      rw ((eq_iff j key).0 s, eq_refl)
        (live_step now later key es l b (made key es) e t (λ l' b' same_limit same_reset e'.
          rw (← same_limit) (granted_live key es l' b' e' (rw same_reset h))))
  | inr s ↦
      let (l', after, same) = allow-other now later j key (λ p. cc ((eq_iff j key).1 p)) l in
      rw s (
        other_step key es l b l' (made key es) (allow now later j (some l)).1 after same.0
          (granted_live key es l' b (same.2 ∙ e) h))
]

abbrev opened : ℕ → String → Limiter → Limiter
opened now key l = record l {
  bucket = insert key (record { count = 0; reset = now + l.window }) l.bucket;
}

-- With no live bucket, `allow` is `allow` after a bucket was opened.
allow_fresh :
    (now later : ℕ) (key : String) (l : Limiter)
    → current now l.window (lookup key l.bucket) ≡ none
    → allow now later key (some l) ≡ allow now later key (some (opened now key l))
unfolding allow
allow_fresh now later key l fresh =
    let room : ltb (now + l.window) now ≡ false = ground arith in
    rw (fresh, lookup-insert, eq_refl) (rw (room, current) refl)

-- With no live bucket for `key` at time `now`, a failed login opens a window. Of the failed logins
-- of `key` until the window ends, with failed logins and successes of other clients in any order
-- between them and no success of `key`, the number that is allowed is the limit, or their number
-- if that is less.
pub granted-limit :
    (key : String) (now later : ℕ) (es : List Event) (l : Limiter)
    → current now l.window (lookup key l.bucket) ≡ none
    → Within key (now + l.window) es
    → granted key (failed key now later ∷ es) (some l)
      ≡ min l.limit (made key (failed key now later ∷ es))
unfolding granted made
granted-limit key now later es l fresh h =
    let live : granted key (failed key now later ∷ es) (some (opened now key l))
        ≡ min (l.limit - 0) (made key (failed key now later ∷ es)) =
      granted_live key (failed key now later ∷ es) (opened now key l)
        (record { count = 0; reset = now + l.window }) (rw (lookup-insert, eq_refl))
        (omega arith, h) in
    rw (allow_fresh now later key l fresh) (omega (arith, live))
