-- ===== src/Builds/Tracker/Steps.antt =====
-- The history of builds after any sequence of calls.
use docker_faas.Base.{
  ℕ, ◌+◌, String, ◌≡◌, refl, Option, some, List, [], ◌∷◌, arith, nat_eq, string_eq, bool_eq,
}
use docker_faas.Base.Int.{ℤ}
use docker_faas.Base.Assoc.{Assoc, erase, insert}
use docker_faas.Builds.Tracker.{
  BuildEntry, BuildUpdate, BuildTracker, new_build_tracker, index_from, add, Access, update, list,
  get, clear, subscribe, cancel,
}
use docker_faas.Builds.Tracker.Index.{
  ChannelsFit, IsValid, new-IsValid, prune-IsValid, add-IsValid, Serves, get-Serves, update-Serves,
}

ChannelsFit-later :
    (n : ℕ) (subs : Assoc ℕ (List BuildEntry)) → ChannelsFit n subs → ChannelsFit (n + 1) subs
ChannelsFit-later n [] h = tt
ChannelsFit-later n (s ∷ subs) ((fits, old), h) = ((fits, omega arith), ChannelsFit-later n subs h)

ChannelsFit-erase :
    (id n : ℕ) (subs : Assoc ℕ (List BuildEntry))
    → ChannelsFit n subs
    → ChannelsFit n (erase id subs)
unfolding erase
ChannelsFit-erase id n [] h = tt
ChannelsFit-erase id n (s ∷ subs) (f, h) = ground (arith, ChannelsFit-erase id n subs h)

ChannelsFit-insert :
    (n : ℕ) (subs : Assoc ℕ (List BuildEntry))
    → ChannelsFit n subs
    → ChannelsFit (n + 1) (insert n [] subs)
unfolding insert
ChannelsFit-insert n subs h =
    ((omega arith, omega arith), ChannelsFit-erase n (n + 1) subs (ChannelsFit-later n subs h))

-- One call of the tracker, with what the clock and the random source gave.
pub data Step (t : BuildTracker) : BuildTracker → Type 0 where
  added : (generated : String) (now : ℕ) (entry : BuildEntry) → Step t (add generated now entry t).1
  updated :
      {t' : BuildTracker} (id : String) (u : BuildUpdate) (now : ℕ) (o : Option BuildEntry)
      → update id u now t ≡ some (o, t')
      → Step t t'
  listed : (now : ℕ) → Step t (list now t).1
  got :
      {t' : BuildTracker} (id : String) (now : ℕ) (o : Option BuildEntry)
      → get id now t ≡ some (o, t')
      → Step t t'
  cleared : Step t (clear t)
  subscribed : Step t (subscribe t).1
  cancelled : (id : ℕ) → Step t (cancel id t)

pub data Reach (s : BuildTracker) : BuildTracker → Type 0 where
  here : Reach s s
  next : {t u : BuildTracker} → Reach s t → Step t u → Reach s u

Serves-IsValid :
    {id : String} {a : Access} {o : Option BuildEntry} {t : BuildTracker}
    → Serves id a
    → a ≡ some (o, t)
    → IsValid t
Serves-IsValid {t} s e = let same : s.after ≡ t = cc (s.runs) in rw (← same) s.valid

Step-IsValid : {t u : BuildTracker} → Step t u → IsValid t → IsValid u
unfolding list clear subscribe cancel index_from
Step-IsValid (added generated now entry) v = add-IsValid generated now entry v
Step-IsValid {t} (updated id u now o e) v = Serves-IsValid (update-Serves id u now t v) e
Step-IsValid (listed now) v = prune-IsValid now v
Step-IsValid {t} (got id now o e) v = Serves-IsValid (get-Serves id now t v) e
Step-IsValid cleared v = record {
  indexed = refl;
  limited = omega arith;
  positive = v.positive;
  channels = v.channels;
}
Step-IsValid {t} subscribed v = record {
  indexed = v.indexed;
  limited = v.limited;
  positive = v.positive;
  channels = ChannelsFit-insert t.next_sub_id t.subs v.channels;
}
Step-IsValid {t} (cancelled id) v = record {
  indexed = v.indexed;
  limited = v.limited;
  positive = v.positive;
  channels = ChannelsFit-erase id t.next_sub_id t.subs v.channels;
}

-- After any calls of a new tracker the index is the one that a full scan of the entries gives, the
-- history is within its limit, no channel holds more than ten entries, and the next subscriber's
-- id is new.
pub Reach-IsValid :
    (limit retention : ℤ) {t : BuildTracker}
    → Reach (new_build_tracker limit retention) t
    → IsValid t
Reach-IsValid limit retention here = new-IsValid limit retention
Reach-IsValid limit retention (next r s) = Step-IsValid s (Reach-IsValid limit retention r)
