-- ===== src/Rbac/Owners/Remaining.antt =====
-- What keeps an enterprise from losing its last owner.
-- What happens to the team: a transaction of either service, with any arguments, however long ago
-- they were read; an accepted invite; and the two whole requests.
use wh_api_unified_service.Prelude.{List, [], or_else, ℕ, ◌∷◌}
use wh_api_unified_service.Rbac.Authority.{TargetRole}
use wh_api_unified_service.Rbac.Lifecycle.{LifecycleStatus}
use wh_api_unified_service.Rbac.Owners.{
  Employee, RequestedStatus, accept_invite, requested, roles_transaction, set_employee_roles,
  set_employee_status, status_transaction,
}
use wh_api_unified_service.Rbac.Owners.Others.{HasOwner, write-HasOwner}
use wh_api_unified_service.Rbac.Owners.Transactions.{
  accepted-is_active_owner, request_roles-HasOwner, request_status-HasOwner,
  roles_transaction-HasOwner, status_transaction-HasOwner,
}

pub data Change : Type 0 where
  move : ℕ → LifecycleStatus → RequestedStatus → Change
  replace : ℕ → List TargetRole → Change
  accept : ℕ → ℕ → Change
  request_status : ℕ → ℕ → RequestedStatus → Change
  request_roles : ℕ → ℕ → ℕ → List TargetRole → Change

-- A refused change leaves the team as it is.
unfoldable pub apply : Change → List Employee → List Employee
apply (move id from to) team = or_else (status_transaction id from (requested to) team) team
apply (replace id roles) team = or_else (roles_transaction id roles team) team
apply (accept id now) team = accept_invite id now team
apply (request_status actor id to) team = or_else (set_employee_status actor id to team) team
apply (request_roles actor id asked roles) team =
    or_else (set_employee_roles actor id asked roles team) team

pub run : List Change → List Employee → List Employee
run [] team = team
run (c ∷ cs) team = run cs (apply c team)

apply-HasOwner : (c : Change) (team : List Employee) → HasOwner team → HasOwner (apply c team)
unfolding apply accept_invite
apply-HasOwner (move id from to) team h = status_transaction-HasOwner id from to team h
apply-HasOwner (replace id roles) team h = roles_transaction-HasOwner id roles team h
apply-HasOwner (accept id now) team h = write-HasOwner id _ (accepted-is_active_owner now) team h
apply-HasOwner (request_status actor id to) team h = request_status-HasOwner actor id to team h
apply-HasOwner (request_roles actor id asked roles) team h =
    request_roles-HasOwner actor id asked roles team h

-- An enterprise that has an active owner has one after any sequence of status changes, role
-- replacements and acceptances, in any order and by anybody: whole requests, and also single
-- transactions whose arguments were read long before, as when two owners act on each other at once.
pub an_owner_remains :
    (cs : List Change) (team : List Employee) → HasOwner team → HasOwner (run cs team)
unfolding run
an_owner_remains [] team h = h
an_owner_remains (c ∷ cs) team h = an_owner_remains cs (apply c team) (apply-HasOwner c team h)
