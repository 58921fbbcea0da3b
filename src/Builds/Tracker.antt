-- ===== src/Builds/Tracker.antt =====
-- pkg/gateway/build_tracker.go. Times are nanoseconds since Go's zero time, which is 0, and are read
-- from the clock by the caller. A read past the end of the entries, a panic in Go, is `none`.
pub mod Index
pub mod Steps
pub mod Retention
pub mod Updated
use mathlib.Core.Option
use docker_faas.Base.{
  ℕ, ◌+◌, String, Bool, ◌||◌, Option, none, some, List, [], ◌∷◌, ◌++◌, map, ltb, leb, if◌then◌else◌,
  ◌==◌, on_option, length, get_elem?, set, take, keep, nat_eq, string_eq, bool_eq,
}
use docker_faas.Base.Int.{ℤ, pos_part, is_nonpos, int_eq}
use docker_faas.Base.Assoc.{Assoc, lookup, erase, insert}

pub record BuildEntry : Type 0 where
  pub id : String
  pub name : String
  pub image : String
  pub source_type : String
  pub runtime : String
  pub git_url : String
  pub git_ref : String
  pub source_path : String
  pub zip_name : String
  pub status : String
  pub started_at : ℕ
  pub finished_at : ℕ
  pub duration_ms : ℤ
  pub deployed : Bool
  pub updated : Bool
  pub output : String
  pub truncated : Bool
  pub error : String

-- A nil pointer keeps the field.
pub record BuildUpdate : Type 0 where
  pub name : Option String
  pub image : Option String
  pub source_type : Option String
  pub runtime : Option String
  pub git_url : Option String
  pub git_ref : Option String
  pub source_path : Option String
  pub zip_name : Option String
  pub status : Option String
  pub finished_at : Option ℕ
  pub duration_ms : Option ℤ
  pub deployed : Option Bool
  pub updated : Option Bool
  pub output : Option String
  pub truncated : Option Bool
  pub error : Option String

-- A subscriber's channel is the list of the entries that wait in it.
pub record BuildTracker : Type 0 where
  pub entries : List BuildEntry
  pub index : Assoc String ℕ
  pub limit : ℕ
  pub retention : ℤ
  pub subs : Assoc ℕ (List BuildEntry)
  pub next_sub_id : ℕ

-- `make(chan BuildEntry, 10)`
abbrev pub channel_capacity : ℕ
channel_capacity = 10

unfoldable pub new_build_tracker : ℤ → ℤ → BuildTracker
new_build_tracker limit retention = record {
  entries = [];
  index = [];
  limit = if is_nonpos limit then 100 else pos_part limit;
  retention = retention;
  subs = [];
  next_sub_id = 0;
}

-- A repeated id is mapped to its last position.
unfoldable pub index_from : ℕ → List BuildEntry → Assoc String ℕ → Assoc String ℕ
index_from i [] index = index
index_from i (entry ∷ entries) index = index_from (i + 1) entries (insert entry.id i index)

unfoldable pub rebuild_index_locked : BuildTracker → BuildTracker
rebuild_index_locked t = record t { index = index_from 0 t.entries [] }

unfoldable pub trim_locked : BuildTracker → BuildTracker
unfolding rebuild_index_locked
trim_locked t =
    if leb (length t.entries) t.limit
    then t
    else rebuild_index_locked (record t { entries = take t.limit t.entries })

-- The time by which an entry is kept: its end, or its start while it runs.
abbrev pub stamp : BuildEntry → ℕ
stamp entry = if entry.finished_at == 0 then entry.started_at else entry.finished_at

-- `ts.After(cutoff)` with `cutoff = now - retention`
abbrev pub is_recent : ℕ → ℕ → BuildEntry → Bool
is_recent now retention entry = ltb now (stamp entry + retention)

unfoldable pub prune_locked : ℕ → BuildTracker → BuildTracker
unfolding rebuild_index_locked
prune_locked now t =
    if is_nonpos t.retention || length t.entries == 0
    then t
    else rebuild_index_locked
        (record t { entries = keep (is_recent now (pos_part t.retention)) t.entries })

-- A send to a full channel is skipped.
abbrev pub send : BuildEntry → List BuildEntry → List BuildEntry
send entry ch = if ltb (length ch) channel_capacity then ch ++ entry ∷ [] else ch

unfoldable pub broadcast_locked : BuildEntry → BuildTracker → BuildTracker
broadcast_locked entry t = record t { subs = map (λ s. (s.0, send entry s.1)) t.subs }

-- `generated` is the id that `generateBuildID` makes if the entry has none.
unfoldable pub add : String → ℕ → BuildEntry → BuildTracker → BuildEntry × BuildTracker
add generated now entry t =
    let entry' = record entry { id = if entry.id == "" then generated else entry.id } in
    let pruned = prune_locked now t in
    let added = rebuild_index_locked (record pruned { entries = entry' ∷ pruned.entries }) in
    (entry', broadcast_locked entry' (trim_locked added))

unfoldable pub apply_update : BuildUpdate → BuildEntry → BuildEntry
apply_update u e = record e {
  name = on_option u.name e.name (λ x. x);
  image = on_option u.image e.image (λ x. x);
  source_type = on_option u.source_type e.source_type (λ x. x);
  runtime = on_option u.runtime e.runtime (λ x. x);
  git_url = on_option u.git_url e.git_url (λ x. x);
  git_ref = on_option u.git_ref e.git_ref (λ x. x);
  source_path = on_option u.source_path e.source_path (λ x. x);
  zip_name = on_option u.zip_name e.zip_name (λ x. x);
  status = on_option u.status e.status (λ x. x);
  finished_at = on_option u.finished_at e.finished_at (λ x. x);
  duration_ms = on_option u.duration_ms e.duration_ms (λ x. x);
  deployed = on_option u.deployed e.deployed (λ x. x);
  updated = on_option u.updated e.updated (λ x. x);
  output = on_option u.output e.output (λ x. x);
  truncated = on_option u.truncated e.truncated (λ x. x);
  error = on_option u.error e.error (λ x. x);
}

-- What an access by id answers: `none` inside is the answer "not found".
abbrev pub Access : Type 0
Access = Option (Option BuildEntry × BuildTracker)

unfoldable at_index : Option ℕ → (ℕ → BuildEntry → Access) → BuildTracker → Access
at_index none found t = some (none, t)
at_index (some i) found t = on_option (get_elem? t.entries i) none (found i)

-- The second lookup of `Update`, after the pruning.
unfoldable finish_update : String → BuildTracker → Access
unfolding at_index
finish_update id t =
    at_index (lookup id t.index) (λ i entry. some (some entry, broadcast_locked entry t)) t

unfoldable pub update : String → BuildUpdate → ℕ → BuildTracker → Access
unfolding at_index finish_update
update id u now t =
    at_index (lookup id t.index)
      (λ i entry.
        finish_update id
          (prune_locked now (record t { entries = set t.entries i (apply_update u entry) })))
      t

unfoldable pub list : ℕ → BuildTracker → List BuildEntry × BuildTracker
list now t = let t' = prune_locked now t in (t'.entries, t')

finish_get : String → BuildTracker → Access
unfolding at_index
finish_get id t = at_index (lookup id t.index) (λ i entry. some (some entry, t)) t

unfoldable pub get : String → ℕ → BuildTracker → Access
unfolding finish_get
get id now t =
    on_option (lookup id t.index) (some (none, t)) (λ i. finish_get id (prune_locked now t))

unfoldable pub clear : BuildTracker → BuildTracker
clear t = record t { entries = []; index = [] }

unfoldable pub subscribe : BuildTracker → ℕ × BuildTracker
subscribe t = (
  t.next_sub_id,
  record t { subs = insert t.next_sub_id [] t.subs; next_sub_id = t.next_sub_id + 1 },
)

-- The function that `Subscribe` returns; closing the channel ends its list.
unfoldable pub cancel : ℕ → BuildTracker → BuildTracker
cancel id t = record t { subs = erase id t.subs }
