-- ===== src/Auth/Manager/History.antt =====
-- The token manager against the history of its calls: expired tokens are dropped lazily, and the
-- drop cannot be observed.
use mathlib.Core.Path.{subst}
use docker_faas.Base.{
  ℕ, ◌+◌, ◌≤◌, ◌<◌, String, ◌≡◌, refl, sym, ap, ◌≢◌, inl, inr, true, false, Option, none, some,
  List, [], ◌∷◌, arith, eq_iff, ltb, if◌then◌else◌, ◌==◌, ltb→lt, Bool-cases, ok, nat_eq, string_eq,
  bool_eq,
}
use docker_faas.Base.Int.{ℤ, pos, negsuc, int_eq}
use docker_faas.Base.Assoc.{lookup, erase, insert, lookup-erase, lookup-insert}
use docker_faas.Auth.Manager.{TokenInfo, Manager, new_manager, issue, check_info, validate, revoke}

-- A call of the manager, with the clock's reading.
pub data Call : Type 0 where
  issued : String → String → Call
  validated : String → Call
  revoked : String → Call

abbrev pub run_call : ℕ → Call → Manager → Manager
run_call now (issued token user) m = (issue (ok token) now user m).1
run_call now (validated token) m = (validate now token m).1
run_call now (revoked token) m = revoke token m

pub run : List (ℕ × Call) → Manager → Manager
run [] m = m
run ((now, c) ∷ cs) m = run cs (run_call now c m)

-- What was promised: the user of each token and the time until which it stands.
abbrev pub Grants : Type 0
Grants = String → Option (String × ℕ)

abbrev pub grant_call : ℕ → ℕ → Call → Grants → Grants
grant_call ttl now (issued token user) g k = if token == k then some (user, now + ttl) else g k
grant_call ttl now (validated token) g k = g k
grant_call ttl now (revoked token) g k =
    if token == "" then g k else if token == k then none else g k

pub grants : ℕ → List (ℕ × Call) → Grants → Grants
grants ttl [] g = g
grants ttl ((now, c) ∷ cs) g = grants ttl cs (grant_call ttl now c g)

abbrev pub Ordered : ℕ → List (ℕ × Call) → ℕ → Type 0
Ordered t [] end = t ≤ end
Ordered t ((now, _) ∷ cs) end = (t ≤ now) × Ordered now cs end

abbrev pub standing : ℕ → Option (String × ℕ) → Option String
standing now none = none
standing now (some (user, expiry)) = if ltb expiry now then none else some user

abbrev found : Option TokenInfo → Option (String × ℕ)
found none = none
found (some i) = some (i.username, i.expires_at)

-- The table holds each grant, or has dropped it after its expiry.
abbrev Agrees : ℕ → Option TokenInfo → Option (String × ℕ) → Type 0
Agrees t (some i) g = g ≡ some (i.username, i.expires_at)
Agrees t none none = Unit
Agrees t none (some (user, expiry)) = expiry < t

record Tracks (t : ℕ) (ttl : ℕ) (m : Manager) (g : Grants) : Type 0 where
  same_ttl : m.ttl ≡ ttl
  agrees : (k : String) → Agrees t (lookup k m.tokens) (g k)

Agrees-later :
    (t u : ℕ) (i : Option TokenInfo) (g : Option (String × ℕ)) → t ≤ u → Agrees t i g → Agrees u i g
Agrees-later t u (some i) g h a = a
Agrees-later t u none none h a = tt
Agrees-later t u none (some (user, expiry)) h a = omega arith

module _ {t now ttl : ℕ} {m : Manager} {g : Grants} (r : Tracks t ttl m g) (later : t ≤ now) where
  issue-Tracks :
      (token user : String)
      → Tracks now ttl (issue (ok token) now user m).1 (grant_call ttl now (issued token user) g)
  unfolding issue
  issue-Tracks token user = record {
    same_ttl = r.same_ttl;
    agrees = λ k. rw (lookup-insert token k _ m.tokens) (elim (Bool-cases (token == k)) [
      | inl e ↦ rw e (ap (λ d. some (user, now + d)) (sym r.same_ttl))
      | inr e ↦ rw e (Agrees-later t now _ (g k) later (r.agrees k))
    ]);
  }

  untouched : Tracks now ttl m g
  untouched = record {
    same_ttl = r.same_ttl;
    agrees = λ k. Agrees-later t now _ (g k) later (r.agrees k);
  }

  erased :
      (token : String)
      → Tracks now ttl
          (record m { tokens = erase token m.tokens })
          (λ k. if token == k then none else g k)
  erased token = record {
    same_ttl = r.same_ttl;
    agrees = λ k.
        rw (lookup-erase token k m.tokens)
          (elim (Bool-cases (token == k)) [ inl e ↦ rw e tt | inr e ↦ rw e (untouched.agrees k) ]);
  }

  revoke-Tracks :
      (token : String) → Tracks now ttl (revoke token m) (grant_call ttl now (revoked token) g)
  unfolding revoke
  revoke-Tracks token =
      elim (token == "")
        as (λ b.
          Tracks now ttl (if b then m else record m { tokens = erase token m.tokens })
            (λ k. if b then g k else if token == k then none else g k)) [
              | true ↦ untouched
              | false ↦ erased token
            ]

  dropped :
      (token : String) (i : TokenInfo)
      → lookup token m.tokens ≡ some i
      → i.expires_at < now
      → Tracks now ttl (record m { tokens = erase token m.tokens }) g
  dropped token i e late = record {
    same_ttl = r.same_ttl;
    agrees = λ k. rw (lookup-erase token k m.tokens) (elim (Bool-cases (token == k)) [
      | inl s ↦ rw s (
          rw
            (subst (λ j. g j ≡ some (i.username, i.expires_at)) ((eq_iff token k).0 s)
              (rw e at (r.agrees token)))
            late)
      | inr s ↦ rw s (untouched.agrees k)
    ]);
  }

  seen :
      (token : String) (i : TokenInfo)
      → lookup token m.tokens ≡ some i
      → Tracks now ttl
          (record m { tokens = insert token (record i { last_seen = now }) m.tokens })
          g
  seen token i e = record {
    same_ttl = r.same_ttl;
    agrees = λ k. rw (lookup-insert token k _ m.tokens) (elim (Bool-cases (token == k)) [
      | inl s ↦ rw s (
          subst (λ j. g j ≡ some (i.username, i.expires_at)) ((eq_iff token k).0 s)
            (rw e at (r.agrees token)))
      | inr s ↦ rw s (untouched.agrees k)
    ]);
  }

  check-Tracks :
      (token : String) (o : Option TokenInfo)
      → lookup token m.tokens ≡ o
      → Tracks now ttl (check_info now token o m).1 g
  unfolding check_info
  check-Tracks token none e = untouched
  check-Tracks token (some i) e = elim (Bool-cases (ltb i.expires_at now)) [
    | inl s ↦ rw s (dropped token i e (ltb→lt _ _ s))
    | inr s ↦ rw s (seen token i e)
  ]

  validate-Tracks :
      (token : String)
      → Tracks now ttl (validate now token m).1 (grant_call ttl now (validated token) g)
  unfolding validate
  validate-Tracks token = elim (Bool-cases (token == "")) [
    | inl e ↦ rw e untouched
    | inr e ↦ rw e (check-Tracks token _ refl)
  ]

call-Tracks :
    {t now ttl : ℕ} {m : Manager} {g : Grants} (c : Call)
    → Tracks t ttl m g
    → t ≤ now
    → Tracks now ttl (run_call now c m) (grant_call ttl now c g)
call-Tracks (issued token user) r h = issue-Tracks r h token user
call-Tracks (validated token) r h = validate-Tracks r h token
call-Tracks (revoked token) r h = revoke-Tracks r h token

run-Tracks :
    (t end ttl : ℕ) (cs : List (ℕ × Call)) {m : Manager} {g : Grants}
    → Tracks t ttl m g
    → Ordered t cs end
    → Tracks end ttl (run cs m) (grants ttl cs g)
unfolding run grants
run-Tracks t end ttl [] r h = untouched r h
run-Tracks t end ttl ((now, c) ∷ cs) r (h, hs) = run-Tracks now end ttl cs (call-Tracks c r h) hs

new-Tracks : (d : ℤ) → Tracks 0 (new_manager d).ttl (new_manager d) (λ k. none)
unfolding new_manager lookup
new-Tracks (pos n) = record { same_ttl = refl; agrees = λ k. tt }
new-Tracks (negsuc n) = record { same_ttl = refl; agrees = λ k. tt }

standing_of_Agrees :
    (now : ℕ) (token : String) (m : Manager) (o : Option TokenInfo) (g : Option (String × ℕ))
    → Agrees now o g
    → (check_info now token o m).0 ≡ standing now g
unfolding check_info
standing_of_Agrees now token m none none a = refl
standing_of_Agrees now token m none (some (user, expiry)) a = ground arith
standing_of_Agrees now token m (some i) g a = rw a (ground arith)

-- Whatever calls of `Issue`, `Validate` and `Revoke` were made of a new manager, at times that do
-- not decrease, `Validate` of a token that is not empty answers with the user of the last grant of
-- that token that was not revoked since, exactly up to the grant's expiry. So neither the dropping
-- of expired tokens nor the record of use shows.
pub validate-run :
    (d : ℤ) (cs : List (ℕ × Call)) (now : ℕ) (token : String)
    → Ordered 0 cs now
    → token ≢ ""
    → (validate now token (run cs (new_manager d))).0
      ≡ standing now (grants (new_manager d).ttl cs (λ k. none) token)
unfolding validate
validate-run d cs now token ordered ne = elim (Bool-cases (token == "")) [
  | inl e ↦ absurd (ne ((eq_iff token "").0 e))
  | inr e ↦ rw e (
      standing_of_Agrees now token _ _ _
        ((run-Tracks 0 now (new_manager d).ttl cs (new-Tracks d) ordered).agrees token))
]
