-- ===== src/Gateway/Health/Checks.antt =====
-- When the gateway reports itself healthy.
use docker_faas.Base.{String, ◌≡◌, refl, ◌↔◌, Bool, true, false, ◌&&◌, arith, Result, ok, err}
use docker_faas.Base.Assoc.{Assoc}
use docker_faas.Base.Text.{codes, contains_text}
use docker_faas.Gateway.Health.{Probes, passed, health_answer, handle_healthz}

passed_iff : (r : Result (Unit {0})) → (passed r ≡ true) ↔ (r ≡ ok tt)
passed_iff (ok u) = (λ h. refl, λ h. refl)
passed_iff (err e) = (λ h. cc, λ h. cc)

health_answer-200 :
    (healthy accepts : Bool) (checks : Assoc String String)
    → ((health_answer healthy accepts checks).0 ≡ 200) ↔ (healthy ≡ true)
health_answer-200 true true checks = (λ h. refl, λ h. refl)
health_answer-200 true false checks = (λ h. refl, λ h. refl)
health_answer-200 false true checks = (λ h. absurd (omega (arith, h)), λ h. cc)
health_answer-200 false false checks = (λ h. absurd (omega (arith, h)), λ h. cc)

-- The health handler answers 200 exactly if the checks of the database, of Docker and of the network,
-- made one after the other, all succeed.
pub handle_healthz-200_iff :
    {W : Type 0} (probes : Probes W) (accept : String) (w : W)
    → ((handle_healthz probes accept w).0.0 ≡ 200) ↔ (
        ((probes.store_health w).0 ≡ ok tt)
        × ((probes.provider_health (probes.store_health w).1).0 ≡ ok tt)
        × ((probes.check_network (probes.provider_health (probes.store_health w).1).1).0 ≡ ok tt))
unfolding handle_healthz
handle_healthz-200_iff probes accept w =
    let database = probes.store_health w in
    let docker = probes.provider_health database.1 in
    let network = probes.check_network docker.1 in
    let all_passed = passed database.0 && passed docker.0 && passed network.0 in
    ground (
      arith,
      health_answer-200 all_passed (contains_text (codes accept) (codes "application/json")),
      passed_iff database.0,
      passed_iff docker.0,
      passed_iff network.0,
    )
