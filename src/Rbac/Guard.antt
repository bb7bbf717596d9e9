-- ===== src/Rbac/Guard.antt =====
-- src/shared/guards/permissions.guard.ts: the route's declared permissions against the actor's. The
-- metadata that the reflector reads is an argument, and so is the repository's `featureBlocking`.
mod Tests
pub mod Passing
use wh_api_unified_service.Prelude.{
  ◌&&◌, Bool, List, Option, String, [], any, false, filter, if◌then◌else◌, includes, none, not,
  or_else, some, true, ℕ, ◌∷◌,
}

pub record RouteMetadata : Type 0 where
  pub is_public : Bool
  pub required : Option (List String)
  pub any_of : Option (List String)

pub record Actor : Type 0 where
  pub enterprise_id : Option ℕ
  pub permissions : List String

pub data Refusal : Type 0 where
  auth_token_invalid : Refusal
  permission_denied : List (String × String) → Refusal
  feature_not_enabled : String → Refusal

pub data Decision : Type 0 where
  allow : Decision
  refuse : Refusal → Decision

-- `Boolean(xs && xs.length > 0)`
abbrev pub declares : Option (List String) → Bool
declares none = false
declares (some []) = false
declares (some (x ∷ xs)) = true

abbrev pub details : String → List String → List (String × String)
details field [] = []
details field (x ∷ xs) = (field, x) ∷ details field xs

abbrev pub holds : Actor → String → Bool
holds actor permission = includes actor.permissions permission

module _ (feature_blocking : ℕ → List String → Option String) where
  -- `refuseWithTheRealReason`, then the throw that follows each call of it.
  abbrev refuse_with_the_real_reason : Option ℕ → List String → Refusal → Decision
  refuse_with_the_real_reason none candidates denied = refuse denied
  refuse_with_the_real_reason (some enterprise) candidates denied =
      elim (feature_blocking enterprise candidates) [
        | none ↦ refuse denied
        | some blocking ↦ refuse (feature_not_enabled blocking)
      ]

  -- The part behind `declaresAll`, over the missing codes.
  check_all : Actor → List String → Decision
  check_all actor [] = allow
  check_all actor (x ∷ xs) =
      refuse_with_the_real_reason actor.enterprise_id (x ∷ xs)
        (permission_denied (details "permission" (x ∷ xs)))

  check_declared : RouteMetadata → Actor → Decision
  unfolding check_all
  check_declared route actor =
      if declares route.any_of && not (any (holds actor) (or_else route.any_of []))
      then refuse_with_the_real_reason actor.enterprise_id (or_else route.any_of [])
          (permission_denied (details "anyPermission" (or_else route.any_of [])))
      else if not (declares route.required)
      then allow
      else check_all actor (filter (λ p. not (holds actor p)) (or_else route.required []))

  unfoldable pub can_activate : RouteMetadata → Option Actor → Decision
  unfolding check_declared
  can_activate route actor =
      if route.is_public
      then allow
      else if not (declares route.required) && not (declares route.any_of)
      then allow
      else elim actor [ none ↦ refuse auth_token_invalid | some a ↦ check_declared route a ]
