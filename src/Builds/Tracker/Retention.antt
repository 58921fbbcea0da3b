-- ===== src/Builds/Tracker/Retention.antt =====
-- What the history retains: the newest builds up to the limit, none past the retention time, and what
-- the readers see of them.
use mathlib.Core.Path.{ap₂}
use text.Mathlib.TextPositions.{eq_refl}
use docker_faas.Base.{
  ℕ, zero, suc, ◌-◌, ◌≤◌, ◌<◌, String, ◌≡◌, refl, sym, ap, ◌∙◌, ◌≢◌, ◌⊎◌, inl, inr, Bool, true,
  false, some, List, [], ◌∷◌, arith, leb, if◌then◌else◌, ◌==◌, leb→le, Bool-cases, length, take,
  keep, All, All-take, All-keep, All-keep_self, nat_eq, string_eq, bool_eq,
}
use docker_faas.Base.Int.{pos_part, is_nonpos}
use docker_faas.Base.Assoc.{lookup, insert, lookup-insert}
use docker_faas.Builds.Tracker.Index.{index_from-other, IsValid, prune-IsValid, add-IsValid}
use docker_faas.Builds.Tracker.{
  BuildEntry, BuildTracker, index_from, rebuild_index_locked, trim_locked, is_recent, prune_locked,
  broadcast_locked, add, at_index, list, finish_get, get,
}

-- The entries that a pruning at time `now` keeps.
abbrev pub retained : ℕ → BuildTracker → List BuildEntry
retained now t =
    if is_nonpos t.retention
    then t.entries
    else keep (is_recent now (pos_part t.retention)) t.entries

keep_of_empty : {A : Type 0} (p : A → Bool) (xs : List A) → (length xs == 0) ≡ true → keep p xs ≡ xs
unfolding keep
keep_of_empty p [] h = refl
keep_of_empty p (x ∷ xs) h = ground arith

take_of_le : {A : Type 0} (n : ℕ) (xs : List A) → length xs ≤ n → take n xs ≡ xs
take_of_le zero [] h = refl
take_of_le zero (x ∷ xs) h = absurd (omega arith)
take_of_le (suc n) [] h = refl
take_of_le (suc n) (x ∷ xs) h = ap (λ ys. x ∷ ys) (take_of_le n xs (omega arith))

pub entries-prune : (now : ℕ) (t : BuildTracker) → (prune_locked now t).entries ≡ retained now t
unfolding prune_locked
entries-prune now t = elim (Bool-cases (is_nonpos t.retention)) [
  | inl e ↦ rw e refl
  | inr e ↦ elim (Bool-cases (length t.entries == 0)) [
    | inl f ↦ rw (e, f) (sym (keep_of_empty _ t.entries f))
    | inr f ↦ rw (e, f) refl
  ]
]

entries-trim : (t : BuildTracker) → (trim_locked t).entries ≡ take t.limit t.entries
unfolding trim_locked
entries-trim t = elim (Bool-cases (leb (length t.entries) t.limit)) [
  | inl e ↦ rw e (sym (take_of_le t.limit t.entries (leb→le _ _ e)))
  | inr e ↦ rw e refl
]

fields-prune :
    (now : ℕ) (t : BuildTracker)
    → ((prune_locked now t).limit ≡ t.limit) × ((prune_locked now t).retention ≡ t.retention)
unfolding prune_locked
fields-prune now t = ground arith

-- `Add` puts the entry in front of those that are retained, and cuts the history to its limit.
entries-add :
    (generated : String) (now : ℕ) (entry : BuildEntry) (t : BuildTracker)
    → (add generated now entry t).1.entries
      ≡ take t.limit ((add generated now entry t).0 ∷ retained now t)
unfolding add rebuild_index_locked broadcast_locked
entries-add generated now entry t =
    entries-trim _
    ∙ ap₂ take (fields-prune now t).0
        (ap (λ es. (add generated now entry t).0 ∷ es) (entries-prune now t))

keep_first :
    {A : Type 0} (p : A → Bool) (x : A) (xs : List A) → p x ≡ true → keep p (x ∷ xs) ≡ x ∷ keep p xs
unfolding keep
keep_first p x xs h = rw h refl

take_first :
    {A : Type 0} (n : ℕ) (x : A) (xs : List A) → 0 < n → take n (x ∷ xs) ≡ x ∷ take (n - 1) xs
take_first zero x xs h = absurd (omega arith)
take_first (suc n) x xs h = let e : suc n - 1 ≡ n = omega arith in rw e refl

retention-trim : (t : BuildTracker) → (trim_locked t).retention ≡ t.retention
unfolding trim_locked
retention-trim t = ground arith

-- The newest entry, with an id that no other has.
record IsFirst (e : BuildEntry) (t : BuildTracker) : Type 0 where
  rest : List BuildEntry
  entries : t.entries ≡ e ∷ rest
  fresh : All (λ x. x.id ≢ e.id) rest

lookup_first :
    (e : BuildEntry) (t : BuildTracker) → IsValid t → IsFirst e t → lookup e.id t.index ≡ some 0
unfolding index_from
lookup_first e t v f =
    ap (lookup e.id) (v.indexed ∙ ap (λ es. index_from 0 es []) f.entries)
    ∙ index_from-other e.id 1 f.rest (insert e.id 0 []) f.fresh
    ∙ simp (lookup-insert, eq_refl)

prune-IsFirst :
    (now : ℕ) (e : BuildEntry) (t : BuildTracker)
    → IsFirst e t
    → ((is_nonpos t.retention ≡ true) ⊎ (is_recent now (pos_part t.retention) e ≡ true))
    → IsFirst e (prune_locked now t)
prune-IsFirst now e t f recent = elim (Bool-cases (is_nonpos t.retention)) [
  | inl off ↦ record {
    rest = f.rest;
    entries = entries-prune now t ∙ rw off f.entries;
    fresh = f.fresh;
  }
  | inr on ↦ record {
    rest = keep (is_recent now (pos_part t.retention)) f.rest;
    entries =
        entries-prune now t
        ∙ rw on (
            ap (keep (is_recent now (pos_part t.retention))) f.entries
            ∙ keep_first _ e f.rest (ground arith));
    fresh = All-keep (λ x. x.id ≢ e.id) _ f.rest f.fresh;
  }
]

add-IsFirst :
    (generated : String) (now : ℕ) (entry : BuildEntry) (t : BuildTracker)
    → IsValid t
    → All (λ e. e.id ≢ (add generated now entry t).0.id) (retained now t)
    → IsFirst (add generated now entry t).0 (add generated now entry t).1
add-IsFirst generated now entry t v fresh = record {
  rest = take (t.limit - 1) (retained now t);
  entries = entries-add generated now entry t ∙ take_first t.limit _ (retained now t) v.positive;
  fresh = All-take _ (t.limit - 1) (retained now t) fresh;
}

get_first :
    (now : ℕ) (e : BuildEntry) (t : BuildTracker)
    → IsValid t
    → IsFirst e t
    → ((is_nonpos t.retention ≡ true) ⊎ (is_recent now (pos_part t.retention) e ≡ true))
    → get e.id now t ≡ some (some e, prune_locked now t)
unfolding get finish_get at_index
get_first now e t v f recent =
    let after = prune-IsFirst now e t f recent in
    rw (lookup_first e t v f, lookup_first e _ (prune-IsValid now v) after, after.entries) refl

retention-add :
    (generated : String) (now : ℕ) (entry : BuildEntry) (t : BuildTracker)
    → (add generated now entry t).1.retention ≡ t.retention
unfolding add rebuild_index_locked broadcast_locked
retention-add generated now entry t = retention-trim _ ∙ (fields-prune now t).1

-- On a valid history, an entry that was added is found under its id, as long as it is recent or
-- nothing is dropped for its age, and no entry that was retained has the same id.
pub get-add :
    (generated : String) (now later : ℕ) (entry : BuildEntry) (t : BuildTracker)
    → IsValid t
    → All (λ e. e.id ≢ (add generated now entry t).0.id) (retained now t)
    → ((is_nonpos t.retention ≡ true)
        ⊎ (is_recent later (pos_part t.retention) (add generated now entry t).0 ≡ true))
    → (t' : BuildTracker) × (get
          (add generated now entry t).0.id
          later
          (add generated now entry t).1
        ≡ some (some (add generated now entry t).0, t'))
get-add generated now later entry t v fresh recent = (
  prune_locked later (add generated now entry t).1,
  get_first later _ _ (add-IsValid generated now entry v)
      (add-IsFirst generated now entry t v fresh) (rw (retention-add generated now entry t) recent),
)

-- After `List` every entry is recent, if the retention is positive, and the answer is the history.
pub list_recent :
    (now : ℕ) (t : BuildTracker)
    → ((list now t).0 ≡ (list now t).1.entries)
      × (is_nonpos t.retention ≡ false
          → All (λ e. is_recent now (pos_part t.retention) e ≡ true) (list now t).0)
unfolding list
list_recent now t = (refl, λ h. rw (entries-prune now t, h) (All-keep_self _ t.entries))
