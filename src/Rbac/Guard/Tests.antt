-- ===== src/Rbac/Guard/Tests.antt =====
-- The theorem on the guard at a concrete route.
use wh_api_unified_service.Prelude.{
  List, Option, String, [], false, none, some, true, ℕ, ◌↔◌, ◌∷◌, ◌≡◌, ◌⊎◌,
}
use wh_api_unified_service.Rbac.Guard.{Actor, RouteMetadata, allow, can_activate}
use wh_api_unified_service.Rbac.Guard.Passing.{Satisfies, can_activate-eq-allow_iff}

abbrev private_route : RouteMetadata
private_route = record { is_public = false; required = some ("a" ∷ []); any_of = none }

abbrev member : Actor
member = record { enterprise_id = some 7; permissions = "a" ∷ [] }

abbrev never_blocking : ℕ → List String → Option String
never_blocking enterprise codes = none

can_activate-eq-allow_iff_example :
    (can_activate never_blocking private_route (some member) ≡ allow) ↔ (
      (false ≡ true)
      ⊎ ((true ≡ false) × (false ≡ false))
      ⊎ ((a : Actor) × (some member ≡ some a) × Satisfies private_route a))
can_activate-eq-allow_iff_example =
    can_activate-eq-allow_iff never_blocking private_route (some member)
