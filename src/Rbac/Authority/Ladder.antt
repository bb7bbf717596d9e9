-- ===== src/Rbac/Authority/Ladder.antt =====
-- Acting on people and seeing them, src/shared/rbac/authority.ts.
use wh_api_unified_service.Prelude.{
  ◌<◌, Option-cases, arith, inl, inr, none, some, true, ℕ, ◌↔◌, ◌≡◌, ◌≢◌, ◌≤◌, ◌⊎◌,
}
use wh_api_unified_service.Rbac.Authority.{
  ActorAuthority, TargetEmployee, may_modify_employee, may_see_employee, owner_level,
}

-- May one person suspend or re-role another: never themselves, only with some authority, and then
-- an employee with no role, one strictly below, or an owner-level one if they are owner-level too.
abbrev pub MayModify : ActorAuthority → TargetEmployee → Type 0
MayModify actor target =
    (actor.employee_id ≢ target.employee_id)
    × ((l : ℕ) × (actor.level ≡ some l)
        × ((target.level ≡ none)
            ⊎ ((t : ℕ) × (target.level ≡ some t)
                × ((t < l) ⊎ ((owner_level ≤ t) × (owner_level ≤ l))))))

-- Acting on an employee is allowed exactly when the actor is somebody else, has a level, and the target
-- has none, a lower one, or the owner's level like the actor.
pub may_modify_employee-eq-none_iff :
    (actor : ActorAuthority) (target : TargetEmployee)
    → (may_modify_employee actor target ≡ none) ↔ MayModify actor target
unfolding may_modify_employee
may_modify_employee-eq-none_iff actor target = ground arith

abbrev pub as_target : ActorAuthority → TargetEmployee
as_target a = record { employee_id = a.employee_id; level = a.level }

-- Two people who hold a role can act on each other only at the owner's level, both of them.
pub mutual_power_needs_owners :
    (a b : ActorAuthority) (l m : ℕ)
    → a.level ≡ some l
    → b.level ≡ some m
    → may_modify_employee a (as_target b) ≡ none
    → may_modify_employee b (as_target a) ≡ none
    → (owner_level ≤ l) × (owner_level ≤ m)
unfolding may_modify_employee
mutual_power_needs_owners a b l m ha hb p q = ground arith

-- Whoever may be acted on is visible to the one who acts, where no level exceeds the owner's.
pub may_see-of-may_modify :
    (a : ActorAuthority) (t : TargetEmployee)
    → ((m : ℕ) → t.level ≡ some m → m ≤ owner_level)
    → may_modify_employee a t ≡ none
    → may_see_employee a.level t.level ≡ true
unfolding may_modify_employee may_see_employee
may_see-of-may_modify a t bound p = elim (Option-cases t.level) [
  | inl e ↦ ground arith
  | inr (m, e) ↦ ground (arith, bound m e)
]

-- Seeing is inclusive and acting is not: peers below the owner's level see each other and neither
-- may act on the other.
pub peers_see_and_do_not_act :
    (a b : ActorAuthority) (l : ℕ)
    → a.level ≡ some l
    → b.level ≡ some l
    → l < owner_level
    → (may_see_employee a.level b.level ≡ true)
      × (may_see_employee b.level a.level ≡ true)
      × (may_modify_employee a (as_target b) ≢ none)
      × (may_modify_employee b (as_target a) ≢ none)
unfolding may_modify_employee may_see_employee
peers_see_and_do_not_act a b l ha hb lt =
    (ground arith, ground arith, λ p. ground arith, λ p. ground arith)
