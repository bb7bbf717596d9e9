-- ===== src/Rbac/Owners/Transactions.antt =====
-- Each transaction and each whole request keeps an active owner.
use wh_api_unified_service.Prelude.{
  ◌&&◌, ◌==◌, Bool-cases, List, Option-cases, [], any, arith, false, includes, inl, inr, is_none,
  length, none, not, or_else, refl, str_eq, true, ℕ, ◌∷◌, ◌≡◌, ◌⊎◌,
}
use wh_api_unified_service.Rbac.Authority.{TargetRole, owner_role, role_names_of}
use wh_api_unified_service.Rbac.Lifecycle.{
  LifecycleStatus, activate, active, may_change_status, set_status,
}
use wh_api_unified_service.Rbac.Owners.{
  Employee, RequestedStatus, assert_not_last_owner, authority_in, check_assignable,
  count_other_active_owners, find_any, held_roles, is_active_owner, is_in_status,
  list_role_names_for_employee, may_modify_in, reinstate, requested, roles_transaction,
  set_employee_roles, set_employee_status, status_transaction, suspend,
}
use wh_api_unified_service.Rbac.Owners.Others.{
  HasOwner, count-pos_iff, guard-other_owner, is_other_owner, other_owner_stays, owner_elsewhere,
  write-HasOwner,
}

reinstated-is_active_owner :
    (from : LifecycleStatus) (m : Employee)
    → is_active_owner m ≡ true
    → is_active_owner (record m { employment = (set_status from active m.employment).0 }) ≡ true
unfolding is_active_owner set_status
reinstated-is_active_owner from m h = ground arith

pub accepted-is_active_owner :
    (now : ℕ) (m : Employee)
    → is_active_owner m ≡ true
    → is_active_owner (record m { employment = activate now m.employment }) ≡ true
unfolding is_active_owner activate
accepted-is_active_owner now m h = ground arith

pub status_transaction-HasOwner :
    (id : ℕ) (from : LifecycleStatus) (to : RequestedStatus) (team : List Employee)
    → HasOwner team
    → HasOwner (or_else (status_transaction id from (requested to) team) team)
unfolding status_transaction
status_transaction-HasOwner id from reinstate team h =
    elim (Bool-cases (any (is_in_status id from) team)) [
      | inl found ↦ rw found (write-HasOwner id _ (reinstated-is_active_owner from) team h)
      | inr missed ↦ rw missed h
    ]
status_transaction-HasOwner id from suspend team h =
    elim (Bool-cases (assert_not_last_owner id team)) [
      | inl passed ↦ elim (Bool-cases (any (is_in_status id from) team)) [
        | inl found ↦
            rw (passed, found)
              (other_owner_stays id _ (λ m. refl) team (guard-other_owner id team passed h))
        | inr missed ↦ rw (passed, missed) h
      ]
      | inr refused ↦ rw refused h
    ]

named-includes :
    (roles : List TargetRole)
    → any (λ role. str_eq role.name owner_role) roles ≡ true
    → includes (role_names_of roles) owner_role ≡ true
unfolding includes role_names_of
named-includes [] h = h
named-includes (r ∷ rs) h = ground (arith, named-includes rs)

re_roled-is_active_owner :
    (roles : List TargetRole)
    → any (λ role. str_eq role.name owner_role) roles ≡ true
    → (m : Employee) → is_active_owner m ≡ true
    → is_active_owner (record m { roles = roles }) ≡ true
unfolding is_active_owner
re_roled-is_active_owner roles named m h = ground (arith, named-includes roles named)

-- Where the new roles name no owner and the transaction is not refused, another owner is there.
re_roling-other_owner :
    (id : ℕ) (team : List Employee)
    → (includes (list_role_names_for_employee id team) owner_role
        && (count_other_active_owners id team == 0))
      ≡ false
    → HasOwner team
    → any (is_other_owner id) team ≡ true
unfolding list_role_names_for_employee count_other_active_owners
re_roling-other_owner id team passed h =
    elim (Bool-cases (includes (role_names_of (held_roles id team)) owner_role)) [
      | inl holds ↦ ground (arith, count-pos_iff (is_other_owner id) team)
      | inr not_held ↦ owner_elsewhere id team not_held h
    ]

pub roles_transaction-HasOwner :
    (id : ℕ) (roles : List TargetRole) (team : List Employee)
    → HasOwner team
    → HasOwner (or_else (roles_transaction id roles team) team)
unfolding roles_transaction
roles_transaction-HasOwner id roles team h =
    elim (Bool-cases (any (λ role. str_eq role.name owner_role) roles)) [
      | inl named ↦ rw named (write-HasOwner id _ (re_roled-is_active_owner roles named) team h)
      | inr unnamed ↦
          elim (Bool-cases (
            includes (list_role_names_for_employee id team) owner_role
            && (count_other_active_owners id team == 0))) [
              | inl refused ↦ rw (unnamed, refused) h
              | inr passed ↦
                  rw (unnamed, passed)
                    (other_owner_stays id _ (λ m. refl) team
                      (re_roling-other_owner id team passed h))
            ]
    ]

-- A whole request either is refused or does what its transaction does.
request_status-cases :
    (actor id : ℕ) (to : RequestedStatus) (team : List Employee)
    → (set_employee_status actor id to team ≡ none)
      ⊎ ((from : LifecycleStatus) × (set_employee_status actor id to team
            ≡ status_transaction id from (requested to) team))
unfolding set_employee_status
request_status-cases actor id to team = elim (Option-cases (find_any id team)) [
  | inl missing ↦ inl (ground arith)
  | inr (m, found) ↦ elim (Option-cases (may_modify_in actor id team)) [
    | inr (denial, denied) ↦ inl (ground arith)
    | inl allowed ↦
        elim (Option-cases (
          may_change_status m.employment.status (requested to)
            (not (is_none m.employment.joined_at)))) [
              | inr (denial, denied) ↦ inl (ground arith)
              | inl passed ↦ inr (m.employment.status, ground arith)
            ]
  ]
]

request_roles-cases :
    (actor id asked : ℕ) (roles : List TargetRole) (team : List Employee)
    → (set_employee_roles actor id asked roles team ≡ none)
      ⊎ (set_employee_roles actor id asked roles team ≡ roles_transaction id roles team)
unfolding set_employee_roles
request_roles-cases actor id asked roles team = elim (Option-cases (find_any id team)) [
  | inl missing ↦ inl (ground arith)
  | inr (m, found) ↦ elim (Option-cases (may_modify_in actor id team)) [
    | inr (denial, denied) ↦ inl (ground arith)
    | inl allowed ↦ elim (Bool-cases (length roles == asked)) [
      | inr differ ↦ inl (ground arith)
      | inl same ↦ elim (Option-cases (check_assignable (authority_in actor team) roles)) [
        | inr (denial, denied) ↦ inl (ground arith)
        | inl passed ↦ inr (ground arith)
      ]
    ]
  ]
]

pub request_status-HasOwner :
    (actor id : ℕ) (to : RequestedStatus) (team : List Employee)
    → HasOwner team
    → HasOwner (or_else (set_employee_status actor id to team) team)
request_status-HasOwner actor id to team h = elim (request_status-cases actor id to team) [
  | inl refused ↦ rw refused h
  | inr (from, e) ↦ rw e (status_transaction-HasOwner id from to team h)
]

pub request_roles-HasOwner :
    (actor id asked : ℕ) (roles : List TargetRole) (team : List Employee)
    → HasOwner team
    → HasOwner (or_else (set_employee_roles actor id asked roles team) team)
request_roles-HasOwner actor id asked roles team h =
    elim (request_roles-cases actor id asked roles team) [
      | inl refused ↦ rw refused h
      | inr e ↦ rw e (roles_transaction-HasOwner id roles team h)
    ]
