-- ===== src/Base/Calls.antt =====
-- A Go function that returns `(value, error)` and works on a state: the answer and the next state. A
-- block of such calls ends at the first error, as `if err != nil { return err }` does.
use mathlib.Core.Path.{◌≡◌, refl, ◌∙◌}
use mathlib.Core.Logic.{◌⊎◌, inl, inr}
use Prim.Native.String.{String}
use docker_faas.Base.Errors.{Result, ok, err, wrap}

abbrev pub Call : Type 0 → Type 0 → Type 0
Call W A = W → Result A × W

abbrev pub proceed : {W A B : Type 0} → Result A → (A → Call W B) → Call W B
proceed (ok a) f w = f a w
proceed (err e) f w = (err e, w)

infixl 5 ◌>>=◌ ◌>>◌
abbrev pub ◌>>=◌ : {W A B : Type 0} → Call W A → (A → Call W B) → Call W B
(m >>= f) w = proceed (m w).0 f (m w).1

abbrev pub ◌>>◌ : {W A B : Type 0} → Call W A → Call W B → Call W B
m >> k = m >>= λ _. k

module _ {W A : Type 0} where
  abbrev pub pure : A → Call W A
  pure a w = (ok a, w)

  abbrev pub throw : String → Call W A
  throw e w = (err e, w)

  -- A result that does not depend on the state
  abbrev pub lift : Result A → Call W A
  lift r w = (r, w)

  -- `return fmt.Errorf("context: %w", err)`
  abbrev pub context : String → Call W A → Call W A
  context msg call w = (wrap msg (call w).0, (call w).1)

  -- A call whose error the caller looks at, or ignores
  abbrev pub attempt : Call W A → Call W (Result A)
  attempt call w = (ok (call w).0, (call w).1)

  abbrev on_err : (W → W) → Result A → Call W A
  on_err f (ok a) w = (ok a, w)
  on_err f (err e) w = (err e, f w)

  -- A call after whose error the state is cleaned up
  abbrev pub or_undo : (W → W) → Call W A → Call W A
  or_undo f call w = on_err f (call w).0 (call w).1

abbrev pub effect : {W : Type 0} → (W → W) → Call W (Unit {0})
effect f w = (ok tt, f w)

-- To split on the result of a call.
pub Result-cases :
    {A : Type 0} (r : Result A) → ((a : A) × (r ≡ ok a)) ⊎ ((e : String) × (r ≡ err e))
Result-cases (ok a) = inl (a, refl)
Result-cases (err e) = inr (e, refl)

-- How a block of calls came to succeed
pub >>=-ok :
    {W A B : Type 0} (m : Call W A) (f : A → Call W B) (w : W) {b : B}
    → ((m >>= f) w).0 ≡ ok b
    → (a : A) × ((m w).0 ≡ ok a) × ((m >>= f) w ≡ f a (m w).1)
>>=-ok m f w h = elim (Result-cases (m w).0) [
  | inl (a, e) ↦ (a, e, rw e refl)
  | inr (t, e) ↦ absurd (cc (rw e at h))
]

pub context-ok :
    {W A : Type 0} (msg : String) (call : Call W A) (w : W) {a : A}
    → (context msg call w).0 ≡ ok a
    → (call w).0 ≡ ok a
context-ok msg call w h = elim (Result-cases (call w).0) [
  | inl (a, e) ↦ e ∙ (rw e at h)
  | inr (t, e) ↦ absurd (cc (rw e at h))
]

-- A call that leaves what is seen of the state as it is
abbrev pub Keeps : {W V A : Type 0} → (W → V) → Call W A → Type 0
Keeps {W = W} view call = (w : W) → view (call w).1 ≡ view w

pub Keeps-bind :
    {W V A B : Type 0} (view : W → V) (m : Call W A) (f : A → Call W B)
    → Keeps view m
    → ((a : A) → Keeps view (f a))
    → Keeps view (m >>= f)
Keeps-bind view m f h k w = elim (Result-cases (m w).0) [
  | inl (a, e) ↦ rw e (k a (m w).1 ∙ h w)
  | inr (t, e) ↦ rw e (h w)
]
