-- ===== src/Builds/Tracker/Index.antt =====
-- The index of the build history, and what every operation keeps.
use docker_faas.Base.{
  ℕ, zero, suc, ◌+◌, ◌≤◌, ◌<◌, String, ◌≡◌, refl, sym, ap, ◌∙◌, ◌≢◌, ◌⊎◌, inl, inr, ◌||◌, Option,
  none, some, List, [], ◌∷◌, map, arith, eq_iff, leb, ◌==◌, leb→le, Bool-cases, Option-cases,
  length, get_elem?, set, length-append, length-set, length-take, All, length-keep, nat_eq,
  string_eq, bool_eq,
}
use docker_faas.Base.Int.{ℤ, pos_part, is_nonpos, int_eq}
use docker_faas.Base.Assoc.{Assoc, lookup, insert, lookup-insert}
use docker_faas.Builds.Tracker.{
  BuildEntry, BuildUpdate, BuildTracker, channel_capacity, new_build_tracker, index_from,
  rebuild_index_locked, trim_locked, is_recent, prune_locked, send, broadcast_locked, add,
  apply_update, Access, finish_update, update, finish_get, get,
}

-- Position `i` of the index, counted from `start`, holds an entry with that id.
abbrev Holds : String → ℕ → List BuildEntry → ℕ → Type 0
Holds id start es j =
    (k : ℕ) × (e : BuildEntry) × (j ≡ start + k) × (get_elem? es k ≡ some e) × (e.id ≡ id)

index_from_found :
    (id : String) (start j : ℕ) (es : List BuildEntry) (m : Assoc String ℕ)
    → lookup id (index_from start es m) ≡ some j
    → (lookup id m ≡ some j) ⊎ Holds id start es j
unfolding index_from
index_from_found id start j [] m h = inl h
index_from_found id start j (e ∷ es) m h =
    elim (index_from_found id (start + 1) j es (insert e.id start m) h) [
      | inr (k, x, at, got, same) ↦ inr (suc k, x, omega arith, got, same)
      | inl l ↦ elim (Bool-cases (e.id == id)) [
        | inl s ↦
            inr (0, e, ground (arith, lookup-insert e.id id start m), refl, (eq_iff e.id id).0 s)
        | inr s ↦ inl (ground (arith, lookup-insert e.id id start m))
      ]
    ]

pub index_from_missing :
    (id : String) (start : ℕ) (es : List BuildEntry) (m : Assoc String ℕ)
    → lookup id (index_from start es m) ≡ none
    → (lookup id m ≡ none) × All (λ e. e.id ≢ id) es
unfolding index_from
index_from_missing id start [] m h = (h, tt)
index_from_missing id start (e ∷ es) m h =
    let (l, rest) = index_from_missing id (start + 1) es (insert e.id start m) h in
    (
      ground (arith, lookup-insert e.id id start m),
      (ground (arith, lookup-insert e.id id start m, eq_iff e.id id), rest),
    )

-- Entries with other ids do not matter to the index at `id`.
pub index_from-other :
    (id : String) (start : ℕ) (es : List BuildEntry) (m : Assoc String ℕ)
    → All (λ e. e.id ≢ id) es
    → lookup id (index_from start es m) ≡ lookup id m
unfolding index_from
index_from-other id start [] m h = refl
index_from-other id start (e ∷ es) m (ne, h) =
    index_from-other id (start + 1) es (insert e.id start m) h
    ∙ ground (arith, lookup-insert e.id id start m, eq_iff e.id id)

-- A write that keeps the id leaves the index as it is.
index_from-set :
    (es : List BuildEntry) (start k : ℕ) (e e' : BuildEntry) (m : Assoc String ℕ)
    → get_elem? es k ≡ some e
    → e'.id ≡ e.id
    → index_from start (set es k e') m ≡ index_from start es m
unfolding index_from
index_from-set [] start k e e' m h same = refl
index_from-set (x ∷ es) start zero e e' m h same =
    ap (λ i. index_from (start + 1) es (insert i start m)) (same ∙ cc)
index_from-set (x ∷ es) start (suc k) e e' m h same =
    index_from-set es (start + 1) k e e' (insert x.id start m) h same

-- No channel holds more than its capacity, and the next subscriber's id is new.
abbrev pub ChannelsFit : ℕ → Assoc ℕ (List BuildEntry) → Type 0
ChannelsFit n [] = Unit
ChannelsFit n (s ∷ subs) = ((length s.1 ≤ channel_capacity) × (s.0 < n)) × ChannelsFit n subs

pub record IsValid (t : BuildTracker) : Type 0 where
  pub indexed : t.index ≡ index_from 0 t.entries []
  pub limited : length t.entries ≤ t.limit
  pub positive : 0 < t.limit
  pub channels : ChannelsFit t.next_sub_id t.subs

pub new-IsValid : (limit retention : ℤ) → IsValid (new_build_tracker limit retention)
unfolding new_build_tracker index_from
new-IsValid limit retention = record {
  indexed = refl;
  limited = omega arith;
  positive = ground arith;
  channels = tt;
}

pub prune-IsValid : (now : ℕ) {t : BuildTracker} → IsValid t → IsValid (prune_locked now t)
unfolding prune_locked
prune-IsValid now {t} v = elim (Bool-cases (is_nonpos t.retention || length t.entries == 0)) [
  | inl e ↦ rw e v
  | inr e ↦ rw e (record {
    indexed = refl;
    limited =
        omega (arith, v.limited, length-keep (is_recent now (pos_part t.retention)) t.entries);
    positive = v.positive;
    channels = v.channels;
  })
]

send_fits :
    (entry : BuildEntry) (ch : List BuildEntry)
    → length ch ≤ channel_capacity
    → length (send entry ch) ≤ channel_capacity
send_fits entry ch h = ground (arith, length-append {0} ch (entry ∷ []))

send-channels :
    (entry : BuildEntry) (n : ℕ) (subs : Assoc ℕ (List BuildEntry))
    → ChannelsFit n subs
    → ChannelsFit n (map (λ s. (s.0, send entry s.1)) subs)
send-channels entry n [] h = tt
send-channels entry n (s ∷ subs) ((fits, old), h) =
    ((send_fits entry s.1 fits, old), send-channels entry n subs h)

pub broadcast-IsValid :
    (entry : BuildEntry) {t : BuildTracker} → IsValid t → IsValid (broadcast_locked entry t)
unfolding broadcast_locked
broadcast-IsValid entry {t} v = record {
  indexed = v.indexed;
  limited = v.limited;
  positive = v.positive;
  channels = send-channels entry t.next_sub_id t.subs v.channels;
}

trim-IsValid :
    (t : BuildTracker)
    → t.index ≡ index_from 0 t.entries []
    → 0 < t.limit
    → ChannelsFit t.next_sub_id t.subs
    → IsValid (trim_locked t)
unfolding trim_locked
trim-IsValid t i p c = elim (Bool-cases (leb (length t.entries) t.limit)) [
  | inl e ↦ rw e (record { indexed = i; limited = leb→le _ _ e; positive = p; channels = c })
  | inr e ↦ rw e (record {
    indexed = refl;
    limited = omega (arith, length-take {0} t.limit t.entries);
    positive = p;
    channels = c;
  })
]

pub add-IsValid :
    (generated : String) (now : ℕ) (entry : BuildEntry) {t : BuildTracker}
    → IsValid t
    → IsValid (add generated now entry t).1
unfolding add rebuild_index_locked
add-IsValid generated now entry {t} v =
    broadcast-IsValid _
      (trim-IsValid _ refl (prune-IsValid now v).positive (prune-IsValid now v).channels)

-- The entry that the index names is there, with its id.
pub indexed_entry :
    {t : BuildTracker} (v : IsValid t) (id : String) (i : ℕ)
    → lookup id t.index ≡ some i
    → (e : BuildEntry) × (get_elem? t.entries i ≡ some e) × (e.id ≡ id)
unfolding lookup
indexed_entry {t} v id i h = elim (index_from_found id 0 i t.entries [] (rw v.indexed at h)) [
  | inl l ↦ absurd (cc l)
  | inr (k, e, at, got, same) ↦ let here : i ≡ k = omega arith in (e, rw here got, same)
]

abbrev HasId : String → Option BuildEntry → Type 0
HasId id none = Unit
HasId id (some e) = e.id ≡ id

-- An access by id ends without reading past the entries, leaves a valid history, and answers with an
-- entry of that id, if with any.
pub record Serves (id : String) (a : Access) : Type 0 where
  pub answer : Option BuildEntry
  pub after : BuildTracker
  pub runs : a ≡ some (answer, after)
  pub valid : IsValid after
  pub right : HasId id answer

module _ (id : String) where
  finish_update-Serves : (t : BuildTracker) → IsValid t → Serves id (finish_update id t)
  unfolding finish_update
  finish_update-Serves t v = elim (Option-cases (lookup id t.index)) [
    | inl e ↦ record { answer = none; after = t; runs = rw e; valid = v; right = tt }
    | inr (i, e) ↦
        let (x, got, same) = indexed_entry v id i e in
        record {
          answer = some x;
          after = broadcast_locked x t;
          runs = rw (e, got);
          valid = broadcast-IsValid x v;
          right = same;
        }
  ]

  finish_get-Serves : (t : BuildTracker) → IsValid t → Serves id (finish_get id t)
  unfolding finish_get
  finish_get-Serves t v = elim (Option-cases (lookup id t.index)) [
    | inl e ↦ record { answer = none; after = t; runs = rw e; valid = v; right = tt }
    | inr (i, e) ↦
        let (x, got, same) = indexed_entry v id i e in
        record { answer = some x; after = t; runs = rw (e, got); valid = v; right = same }
  ]

  -- `Get` on a valid history does not read past the end of the entries and leaves a valid history;
  -- where it answers with an entry, that entry has the id that was asked for.
  pub get-Serves : (now : ℕ) (t : BuildTracker) → IsValid t → Serves id (get id now t)
  unfolding get
  get-Serves now t v = elim (Option-cases (lookup id t.index)) [
    | inl e ↦ record { answer = none; after = t; runs = rw e; valid = v; right = tt }
    | inr (i, e) ↦ rw e (finish_get-Serves (prune_locked now t) (prune-IsValid now v))
  ]

  -- An entry is overwritten by its update.
  pub set-IsValid :
      (u : BuildUpdate) (t : BuildTracker) (i : ℕ) (x : BuildEntry)
      → get_elem? t.entries i ≡ some x
      → IsValid t
      → IsValid (record t { entries = set t.entries i (apply_update u x) })
  unfolding apply_update
  set-IsValid u t i x got v = record {
    indexed = v.indexed ∙ sym (index_from-set t.entries 0 i x (apply_update u x) [] got refl);
    limited = omega (arith, v.limited, length-set {0} t.entries i (apply_update u x));
    positive = v.positive;
    channels = v.channels;
  }

  -- `Update` on a valid history does not read past the end of the entries and leaves a valid history;
  -- where it answers with an entry, that entry has the id that was asked for.
  pub update-Serves :
      (u : BuildUpdate) (now : ℕ) (t : BuildTracker) → IsValid t → Serves id (update id u now t)
  unfolding update
  update-Serves u now t v = elim (Option-cases (lookup id t.index)) [
    | inl e ↦ record { answer = none; after = t; runs = rw e; valid = v; right = tt }
    | inr (i, e) ↦
        let (x, got, same) = indexed_entry v id i e in
        rw (e, got) (finish_update-Serves _ (prune-IsValid now (set-IsValid u t i x got v)))
  ]
