-- ===== src/Rbac/Owners/Tests.antt =====
-- The theorem on the last owner at a concrete team of two owners who suspend each other at once.
use wh_api_unified_service.Prelude.{
  List, [], false, includes, none, or_else, refl, some, str_eq, true, ◌∷◌, ◌≡◌,
}
use wh_api_unified_service.Rbac.Authority.{
  TargetRole, authority_of_employee, may_modify_employee, role_names_of,
}
use wh_api_unified_service.Rbac.Lifecycle.{
  Employment, active, may_change_status, set_status, suspended,
}
use wh_api_unified_service.Rbac.Owners.{
  Employee, assert_not_last_owner, authority_in, count_other_active_owners, find_any, held_roles,
  highest_level_for_employee, is_active_owner, is_in_status, list_role_names_for_employee,
  may_modify_in, set_employee_status, status_transaction, suspend, write_employee,
}
use wh_api_unified_service.Rbac.Owners.Others.{HasOwner}
use wh_api_unified_service.Rbac.Owners.Remaining.{
  Change, accept, an_owner_remains, move, replace, request_roles, run,
}

abbrev owner : TargetRole
owner = record { name = "owner"; level = 100; is_system = true; permission_codes = [] }

abbrev manager : TargetRole
manager = record { name = "manager"; level = 50; is_system = true; permission_codes = [] }

abbrev employed : Employment
employed = record { status = active; joined_at = some 1; is_deleted = false }

abbrev two_owners : List Employee
two_owners =
    record { id = 1; employment = employed; roles = owner ∷ [] }
    ∷ record { id = 2; employment = employed; roles = owner ∷ [] }
    ∷ []

two_owners-HasOwner : HasOwner two_owners
unfolding is_active_owner includes role_names_of str_eq
two_owners-HasOwner = refl

-- Both were read as active before either transaction began.
abbrev at_once : List Change
at_once =
    move 1 active suspend
    ∷ move 2 active suspend
    ∷ request_roles 2 2 1 (manager ∷ [])
    ∷ replace 2 (manager ∷ [])
    ∷ accept 1 5
    ∷ []

an_owner_remains_example : HasOwner (run at_once two_owners)
an_owner_remains_example = an_owner_remains at_once two_owners two_owners-HasOwner

-- The first suspension succeeds, the second is refused.
mutual_suspension :
    (status_transaction 2 active suspended
      (or_else (status_transaction 1 active suspended two_owners) two_owners))
    ≡ none
unfolding status_transaction assert_not_last_owner list_role_names_for_employee held_roles
    write_employee count_other_active_owners is_active_owner includes role_names_of str_eq
    is_in_status set_status
mutual_suspension = refl

whole_request :
    set_employee_status 1 2 suspend two_owners ≡ status_transaction 2 active suspended two_owners
unfolding set_employee_status find_any may_modify_in authority_in highest_level_for_employee
    may_modify_employee authority_of_employee held_roles may_change_status
whole_request = refl
