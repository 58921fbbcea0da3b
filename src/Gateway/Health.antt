-- ===== src/Gateway/Health.antt =====
-- `HandleHealthz` of pkg/gateway/handlers.go.
pub mod Checks
use docker_faas.Base.{
  ℕ, String, Bool, true, false, ◌&&◌, [], Result, ok, err, nat_eq, string_eq, bool_eq,
}
use docker_faas.Base.Calls.{Call}
use docker_faas.Base.Assoc.{Assoc, insert}
use docker_faas.Base.Text.{codes, contains_text}

-- The three checks of the store and the provider
pub record Probes (W : Type 0) : Type 0 where
  pub store_health : Call W (Unit {0})
  pub provider_health : Call W (Unit {0})
  pub check_network : Call W (Unit {0})

-- An answer in JSON, with its status text and the checks, or in plain text
pub data HealthBody : Type 0 where
  json_body : String → Assoc String String → HealthBody
  text_body : String → HealthBody

abbrev pub outcome_text : Result (Unit {0}) → String
outcome_text (ok u) = "ok"
outcome_text (err e) = e

abbrev pub passed : Result (Unit {0}) → Bool
passed (ok u) = true
passed (err e) = false

abbrev pub health_answer : Bool → Bool → Assoc String String → ℕ × HealthBody
health_answer true true checks = (200, json_body "ok" checks)
health_answer true false checks = (200, text_body "OK")
health_answer false true checks = (503, json_body "unhealthy" checks)
health_answer false false checks = (503, text_body "Unhealthy")

-- `accept` is the request's header of that name. All three checks are made.
unfoldable pub handle_healthz : {W : Type 0} → Probes W → String → W → (ℕ × HealthBody) × W
handle_healthz probes accept w =
    let (database, v) = probes.store_health w in
    let (docker, u) = probes.provider_health v in
    let (network, t) = probes.check_network u in
    let checks =
      insert "network" (outcome_text network)
        (insert "docker" (outcome_text docker) (insert "database" (outcome_text database) [])) in
    let all_passed = passed database && passed docker && passed network in
    let accepts_json = contains_text (codes accept) (codes "application/json") in
    (health_answer all_passed accepts_json checks, t)
