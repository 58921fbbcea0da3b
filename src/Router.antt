-- ===== src/Router.antt =====
-- `selectContainer` of pkg/router/router.go: the round robin over the containers of a function. The
-- counters are machine words of 64 bits that wrap around; a division by zero is `none`.
pub mod Selection
pub mod Tests
use docker_faas.Base.{
  ℕ, ◌+◌, ◌%◌, ◌^◌, String, Bool, ◌||◌, Option, none, some, List, [], ◌∷◌, ◌==◌, on_option, length,
  get_elem?, keep, nat_eq, string_eq, bool_eq,
}
use docker_faas.Base.Assoc.{Assoc, lookup, insert}
use docker_faas.Gateway.Types.{Container}

abbrev pub Counters : Type 0
Counters = Assoc String ℕ

-- The counter of a function; a new one is 0.
abbrev pub counter_of : String → Counters → ℕ
counter_of name m = on_option (lookup name m) 0 (λ n. n)

-- `atomic.AddUint64(counter, 1)`
abbrev pub next_count : ℕ → ℕ
next_count n = (n + 1) % 2 ^ 64

unfoldable pub is_running_status : Container → Bool
is_running_status c = c.status == "running" || c.status == "Up"

unfoldable pub pick : List Container → List Container → ℕ → Option Container
pick containers [] index = get_elem? containers index
pick containers (r ∷ running) index = get_elem? (r ∷ running) (index % length (r ∷ running))

unfoldable pub select_container : String → List Container → Counters → Option (Container × Counters)
unfolding pick is_running_status
select_container name [] m = none
select_container name (c ∷ cs) m =
    let containers = c ∷ cs in
    let count = next_count (counter_of name m) in
    let index = count % length containers in
    elim (pick containers (keep is_running_status containers) index) [
      | none ↦ none
      | some chosen ↦ some (chosen, insert name count m)
    ]
