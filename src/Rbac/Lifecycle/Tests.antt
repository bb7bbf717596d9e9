-- ===== src/Rbac/Lifecycle/Tests.antt =====
-- The theorem on the lifecycle at a concrete employment.
use wh_api_unified_service.Prelude.{[], false, none, refl, ◌∷◌, ◌≢◌}
use wh_api_unified_service.Rbac.Lifecycle.{Employment, active, invited, suspended}
use wh_api_unified_service.Rbac.Lifecycle.Acceptance.{
  administer, never_active_without_acceptance, run,
}

abbrev newcomer : Employment
newcomer = record { status = invited; joined_at = none; is_deleted = false }

never_active_without_acceptance_example :
    (run (administer false suspended ∷ administer false active ∷ []) newcomer).status ≢ active
never_active_without_acceptance_example =
    never_active_without_acceptance (administer false suspended ∷ administer false active ∷ [])
      newcomer (tt, (tt, tt)) refl (λ e. cc)
