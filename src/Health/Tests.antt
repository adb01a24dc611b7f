-- ===== src/Health/Tests.antt =====
-- The health checks of a concrete system.
use calbridge.Common.{◌≡◌, codes, [], ◌∷◌, true, ◌||◌}
use calbridge.Health.{
  healthy, degraded, Check, is_reachable, database_is_responsive, World, answered, failed,
  is_unhealthy, new_checker, check_database, check_oidc, check_all, determine_overall_status,
}
use calbridge.Common.Dict.{Dict}
use calbridge.Health.Worst.{worst, determine_overall_status-worst, check_all-unhealthy}

abbrev world : World
world = record {
  ping_ok = true;
  query_ok = true;
  discovery = λ url. answered 200;
  options = λ url. failed;
  now = 7;
}

abbrev checks : Dict Check
checks =
    (codes "oidc", record { name = codes "oidc"; status = degraded; message = is_reachable })
    ∷ (
      codes "database",
      record { name = codes "database"; status = healthy; message = database_is_responsive },
    )
    ∷ []

determine_overall_status-worst_example : determine_overall_status checks ≡ worst checks
determine_overall_status-worst_example = determine_overall_status-worst checks

check_all-unhealthy_example :
    is_unhealthy (check_all world (new_checker (codes "https://id") (codes "https://cal"))).1.status
    ≡ (is_unhealthy (check_database world).status
        || is_unhealthy
            (check_oidc world
              (new_checker (codes "https://id") (codes "https://cal")).oidc_issuer).status)
check_all-unhealthy_example =
    check_all-unhealthy world (new_checker (codes "https://id") (codes "https://cal"))
