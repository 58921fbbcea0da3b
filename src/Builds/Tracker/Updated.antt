-- ===== src/Builds/Tracker/Updated.antt =====
-- What `Update` writes to the history.
use docker_faas.Base.{
  ℕ, zero, suc, String, ◌≡◌, refl, sym, ◌∙◌, ◌≢◌, ◌⊎◌, inl, inr, Option, none, some, List, [], ◌∷◌,
  Option-cases, on_option, get_elem?, set, All, In, nat_eq, string_eq, bool_eq,
}
use docker_faas.Base.Assoc.{lookup}
use docker_faas.Builds.Tracker.{
  BuildEntry, BuildUpdate, BuildTracker, prune_locked, broadcast_locked, apply_update, Access,
  finish_update, update,
}
use docker_faas.Builds.Tracker.Index.{
  index_from_missing, IsValid, prune-IsValid, broadcast-IsValid, indexed_entry, set-IsValid,
}
use docker_faas.Builds.Tracker.Retention.{retained, entries-prune}

-- A field after an update: the value that the update has, or the old one.
abbrev pub FieldIs : {A : Type 0} → Option A → A → A → Type 0
FieldIs none old new = new ≡ old
FieldIs (some x) old new = new ≡ x

-- Each field that an update can name has its value; the id and the start are the old ones.
abbrev pub WrittenBy : BuildUpdate → BuildEntry → BuildEntry → Type 0
WrittenBy u e new =
    (new.id ≡ e.id)
    × (new.started_at ≡ e.started_at)
    × FieldIs u.name e.name new.name
    × FieldIs u.image e.image new.image
    × FieldIs u.source_type e.source_type new.source_type
    × FieldIs u.runtime e.runtime new.runtime
    × FieldIs u.git_url e.git_url new.git_url
    × FieldIs u.git_ref e.git_ref new.git_ref
    × FieldIs u.source_path e.source_path new.source_path
    × FieldIs u.zip_name e.zip_name new.zip_name
    × FieldIs u.status e.status new.status
    × FieldIs u.finished_at e.finished_at new.finished_at
    × FieldIs u.duration_ms e.duration_ms new.duration_ms
    × FieldIs u.deployed e.deployed new.deployed
    × FieldIs u.updated e.updated new.updated
    × FieldIs u.output e.output new.output
    × FieldIs u.truncated e.truncated new.truncated
    × FieldIs u.error e.error new.error

-- An answer about an id: an entry of the history with it, or there is none.
abbrev pub Answers : String → List BuildEntry → Option BuildEntry → Type 0
Answers id entries none = All (λ e. e.id ≢ id) entries
Answers id entries (some x) = In x entries × (x.id ≡ id)

field_is : {A : Type 0} (o : Option A) (old : A) → FieldIs o old (on_option o old (λ x. x))
field_is none old = refl
field_is (some x) old = refl

apply_update-WrittenBy : (u : BuildUpdate) (e : BuildEntry) → WrittenBy u e (apply_update u e)
unfolding apply_update
apply_update-WrittenBy u e = (
  refl,
  refl,
  field_is u.name e.name,
  field_is u.image e.image,
  field_is u.source_type e.source_type,
  field_is u.runtime e.runtime,
  field_is u.git_url e.git_url,
  field_is u.git_ref e.git_ref,
  field_is u.source_path e.source_path,
  field_is u.zip_name e.zip_name,
  field_is u.status e.status,
  field_is u.finished_at e.finished_at,
  field_is u.duration_ms e.duration_ms,
  field_is u.deployed e.deployed,
  field_is u.updated e.updated,
  field_is u.output e.output,
  field_is u.truncated e.truncated,
  field_is u.error e.error,
)

In-get_elem? : {A : Type 0} (l : List A) (i : ℕ) (x : A) → get_elem? l i ≡ some x → In x l
In-get_elem? [] i x h = absurd (cc h)
In-get_elem? (y ∷ l) zero x h = inl (let same : y ≡ x = cc h in sym same)
In-get_elem? (y ∷ l) (suc i) x h = inr (In-get_elem? l i x h)

not_indexed :
    {t : BuildTracker} (v : IsValid t) (id : String)
    → lookup id t.index ≡ none
    → All (λ e. e.id ≢ id) t.entries
not_indexed {t} v id h = (index_from_missing id 0 t.entries [] (rw v.indexed at h)).1

-- How the second lookup of `Update` ends
abbrev Finished : String → BuildTracker → Access → Type 0
Finished id t a =
    (answer : Option BuildEntry) × (after : BuildTracker) × (a ≡ some (answer, after))
    × IsValid after
    × (after.entries ≡ t.entries)
    × Answers id after.entries answer

finish_update-Finished :
    (id : String) (t : BuildTracker) → IsValid t → Finished id t (finish_update id t)
unfolding finish_update broadcast_locked
finish_update-Finished id t v = elim (Option-cases (lookup id t.index)) [
  | inl e ↦ (none, t, rw e refl, v, refl, not_indexed v id e)
  | inr (i, e) ↦
      let (x, got, same) = indexed_entry v id i e in
      (
        some x,
        broadcast_locked x t,
        rw (e, got) refl,
        broadcast-IsValid x v,
        refl,
        (In-get_elem? t.entries i x got, same),
      )
]

-- `Update` on a valid history either answers "not found" and changes nothing, and then no entry has the
-- id; or it writes the fields that the update has over those of an entry of the id, and the history,
-- which is valid again, is what a pruning keeps of the entries with that one in its place. The
-- answer is then an entry of that history with the id, or "not found" if there is none.
pub update-WrittenBy :
    (id : String) (u : BuildUpdate) (now : ℕ) (t : BuildTracker)
    → IsValid t
    → ((update id u now t ≡ some (none, t)) × All (λ e. e.id ≢ id) t.entries)
      ⊎ ((i : ℕ) × (e new : BuildEntry) × (get_elem? t.entries i ≡ some e)
          × (e.id ≡ id)
          × WrittenBy u e new
          × ((answer : Option BuildEntry) × (after : BuildTracker) × (update id u now t
                ≡ some (answer, after))
              × IsValid after
              × (after.entries ≡ retained now (record t { entries = set t.entries i new }))
              × Answers id after.entries answer))
unfolding update
update-WrittenBy id u now t v = elim (Option-cases (lookup id t.index)) [
  | inl e ↦ inl (rw e refl, not_indexed v id e)
  | inr (i, e) ↦
      let (x, got, same) = indexed_entry v id i e in
      let set_t = record t { entries = set t.entries i (apply_update u x) } in
      let (answer, after, runs, valid, kept, right) =
        finish_update-Finished id (prune_locked now set_t)
          (prune-IsValid now (set-IsValid id u t i x got v)) in
      inr (
        i,
        x,
        apply_update u x,
        got,
        same,
        apply_update-WrittenBy u x,
        (answer, after, rw (e, got) runs, valid, kept ∙ entries-prune now set_t, right),
      )
]
