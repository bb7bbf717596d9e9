-- ===== src/Rbac/Lifecycle.antt =====
-- src/shared/rbac/employee-lifecycle.ts, and the two writes of an employment's status in
-- src/database/repositories/enterprise-employee.repository.ts. A time is a number.
mod Tests
pub mod Acceptance
use Prim.Native.String.{◌++◌ as append}
use wh_api_unified_service.Prelude.{
  ◌&&◌, Bool, Option, String, false, if◌then◌else◌, is_none, none, not, or_else, some, true, ℕ,
}

pub data LifecycleStatus : Type 0 where
  invited active suspended : LifecycleStatus

pub data StatusTransitionDenial : Type 0 where
  already_in_status : LifecycleStatus → StatusTransitionDenial
  acceptance_required never_accepted : StatusTransitionDenial

abbrev pub same_status : LifecycleStatus → LifecycleStatus → Bool
same_status invited invited = true
same_status active active = true
same_status suspended suspended = true
same_status _ _ = false

unfoldable pub may_change_status :
    LifecycleStatus → LifecycleStatus → Bool → Option StatusTransitionDenial
may_change_status from to ever_accepted =
    if same_status from to
    then some (already_in_status to)
    else if same_status to active
    then if same_status from invited
      then some acceptance_required
      else if not ever_accepted
      then some never_accepted
      else none
    else none

abbrev status_text : LifecycleStatus → String
status_text invited = "invited"
status_text active = "active"
status_text suspended = "suspended"

pub explain_status_denial : StatusTransitionDenial → String
explain_status_denial (already_in_status status) = append "already " (status_text status)
explain_status_denial acceptance_required =
    "this invite has not been accepted yet — the person activates it themselves"
explain_status_denial never_accepted =
    "this invite was never accepted, so there is no employment to reinstate — invite them again"

-- The columns of `enterprise_employees` that the two writes read and set.
pub record Employment : Type 0 where
  pub status : LifecycleStatus
  pub joined_at : Option ℕ
  pub is_deleted : Bool

-- `activate`, on accepting an invite: the only write of `joined_at`.
unfoldable pub activate : ℕ → Employment → Employment
activate now e =
    if same_status e.status invited && not e.is_deleted
    then record e { status = active; joined_at = some (or_else e.joined_at now) }
    else e

-- `setStatus`: conditional on the status the caller saw; true when a row was changed.
unfoldable pub set_status : LifecycleStatus → LifecycleStatus → Employment → Employment × Bool
set_status from to e =
    if same_status e.status from && not e.is_deleted
    then (record e { status = to }, true)
    else (e, false)

-- The administrator's request on one row, as the employees service makes it: the rule on the row that
-- was read, the guard when suspending, which throws for the last owner, then the conditional write.
-- `none` when it is refused or the write finds another status. What the guard reads of the others'
-- rows is in Rbac.Owners; here it is the argument `last_owner`.
unfoldable pub change_status : Bool → LifecycleStatus → Employment → Option Employment
change_status last_owner to e = elim (may_change_status e.status to (not (is_none e.joined_at))) [
  | some denial ↦ none
  | none ↦
      if same_status to suspended && last_owner
      then none
      else let (e', applied) = set_status e.status to e in if applied then some e' else none
]
