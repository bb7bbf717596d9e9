-- ===== src/Rbac/Owners.antt =====
-- The last owner of an enterprise: `setStatus` of src/modules/employees/employees.service.ts and
-- `setEmployeeRoles` of src/modules/roles/roles.service.ts, with what they read and write in
-- src/database/repositories/role.repository.ts. One enterprise's employments are a list; the roles
-- of a row are the active ones that its grants join.
mod Tests
pub mod Others
pub mod Transactions
pub mod Remaining
use wh_api_unified_service.Prelude.{
  ◌&&◌, ◌++◌, ◌==◌, Bool, List, Option, String, [], any, filter, if◌then◌else◌, includes, is_none,
  length, ltb, none, not, some, str_eq, true, ℕ, ◌∷◌,
}
use wh_api_unified_service.Rbac.Authority.{
  ActorAuthority, AuthorityDenial, TargetRole, authority_of_employee, highest_role_level,
  may_assign_role, may_modify_employee, owner_role, role_levels, role_names_of,
}
use wh_api_unified_service.Rbac.Lifecycle.{
  Employment, LifecycleStatus, activate, active, may_change_status, same_status, set_status,
  suspended,
}

pub record Employee : Type 0 where
  pub id : ℕ
  pub employment : Employment
  pub roles : List TargetRole

-- The roles that the grants of one employee join, `WHERE er.employee_id = $2`.
unfoldable pub held_roles : ℕ → List Employee → List TargetRole
held_roles id [] = []
held_roles id (m ∷ ms) = let rest = held_roles id ms in if m.id == id then m.roles ++ rest else rest

unfoldable pub list_role_names_for_employee : ℕ → List Employee → List String
list_role_names_for_employee id team = role_names_of (held_roles id team)

unfoldable pub highest_level_for_employee : ℕ → List Employee → Option ℕ
highest_level_for_employee id team = highest_role_level (role_levels (held_roles id team))

unfoldable pub is_active_owner : Employee → Bool
is_active_owner m =
    same_status m.employment.status active
    && not m.employment.is_deleted
    && includes (role_names_of m.roles) owner_role

unfoldable pub count_other_active_owners : ℕ → List Employee → ℕ
count_other_active_owners excluding team =
    length (filter (λ m. not (m.id == excluding) && is_active_owner m) team)

-- True where the source returns, false where it throws.
unfoldable pub assert_not_last_owner : ℕ → List Employee → Bool
assert_not_last_owner id team =
    if not (includes (list_role_names_for_employee id team) owner_role)
    then true
    else ltb 0 (count_other_active_owners id team)

unfoldable pub find_any : ℕ → List Employee → Option Employee
find_any id [] = none
find_any id (m ∷ ms) =
    let rest = find_any id ms in
    if (m.id == id) && not m.employment.is_deleted then some m else rest

-- An UPDATE of the rows of one employee.
unfoldable pub write_employee : ℕ → (Employee → Employee) → List Employee → List Employee
write_employee id f [] = []
write_employee id f (m ∷ ms) = (if m.id == id then f m else m) ∷ write_employee id f ms

unfoldable pub is_in_status : ℕ → LifecycleStatus → Employee → Bool
is_in_status id from m =
    (m.id == id) && (same_status m.employment.status from && not m.employment.is_deleted)

-- The transaction of `setStatus`: `from` is the status that was read before it began, and may be
-- out of date. `none` where it throws, and where the write matches no row.
unfoldable pub status_transaction :
    ℕ → LifecycleStatus → LifecycleStatus → List Employee → Option (List Employee)
status_transaction id from to team =
    if same_status to suspended && not (assert_not_last_owner id team)
    then none
    else if any (is_in_status id from) team
    then some (
        write_employee id (λ m. record m { employment = (set_status from to m.employment).0 }) team)
    else none

-- The statuses that a request may ask for, `EmployeeStatusRequestSchema`.
pub data RequestedStatus : Type 0 where
  reinstate suspend : RequestedStatus

abbrev pub requested : RequestedStatus → LifecycleStatus
requested reinstate = active
requested suspend = suspended

-- `authorityOf` of somebody employed here.
unfoldable pub authority_in : ℕ → List Employee → ActorAuthority
authority_in id team = authority_of_employee id (held_roles id team)

unfoldable pub may_modify_in : ℕ → ℕ → List Employee → Option AuthorityDenial
may_modify_in actor id team =
    may_modify_employee (authority_in actor team)
      (record { employee_id = id; level = highest_level_for_employee id team })

-- The whole request, without the sessions it revokes and the audit record it writes.
unfoldable pub set_employee_status :
    ℕ → ℕ → RequestedStatus → List Employee → Option (List Employee)
set_employee_status actor id to team = elim (find_any id team) [
  | none ↦ none
  | some employee ↦ elim (may_modify_in actor id team) [
    | some denial ↦ none
    | none ↦
        elim (may_change_status employee.employment.status (requested to)
          (not (is_none employee.employment.joined_at))) [
            | some denial ↦ none
            | none ↦ status_transaction id employee.employment.status (requested to) team
          ]
  ]
]

-- The transaction of `setEmployeeRoles`.
unfoldable pub roles_transaction : ℕ → List TargetRole → List Employee → Option (List Employee)
roles_transaction id roles team =
    if (not (any (λ role. str_eq role.name owner_role) roles)
        && includes (list_role_names_for_employee id team) owner_role)
      && (count_other_active_owners id team == 0)
    then none
    else some (write_employee id (λ m. record m { roles = roles }) team)

-- The loop over the roles of the request: the first denial.
unfoldable pub check_assignable : ActorAuthority → List TargetRole → Option AuthorityDenial
check_assignable authority [] = none
check_assignable authority (role ∷ roles) =
    let rest = check_assignable authority roles in
    elim (may_assign_role authority role) [ some denial ↦ some denial | none ↦ rest ]

-- The whole request: `asked` role ids were named, and `roles` are those that were found.
unfoldable pub set_employee_roles :
    ℕ → ℕ → ℕ → List TargetRole → List Employee → Option (List Employee)
set_employee_roles actor id asked roles team = elim (find_any id team) [
  | none ↦ none
  | some employee ↦ elim (may_modify_in actor id team) [
    | some denial ↦ none
    | none ↦
        if not (length roles == asked)
        then none
        else elim (check_assignable (authority_in actor team) roles) [
          | some denial ↦ none
          | none ↦ roles_transaction id roles team
        ]
  ]
]

-- `activate`, by the person who accepts.
unfoldable pub accept_invite : ℕ → ℕ → List Employee → List Employee
accept_invite id now team =
    write_employee id (λ m. record m { employment = activate now m.employment }) team
