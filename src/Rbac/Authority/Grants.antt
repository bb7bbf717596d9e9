-- ===== src/Rbac/Authority/Grants.antt =====
-- Handing out roles, src/shared/rbac/authority.ts.
use wh_api_unified_service.Prelude.{
  ◌<◌, All, In, List, String, [], arith, includes_iff, none, refl, some, str_eq_iff, true, ℕ, ◌↔◌,
  ◌∷◌, ◌≡◌, ◌≢◌, ◌≤◌, ◌⊎◌,
}
use wh_api_unified_service.Rbac.Authority.{
  ActorAuthority, DefinedRole, TargetRole, check_codes, is_owner, is_true, may_assign_role,
  may_define_role, owner_level, owner_role,
}

-- The loop lets a list of codes through exactly when the actor holds each of them.
pub check_codes-eq-none_iff :
    (held codes : List String) → (check_codes held codes ≡ none) ↔ All (λ c. In c held) codes
unfolding check_codes
check_codes-eq-none_iff held [] = (λ e. tt, λ h. refl)
check_codes-eq-none_iff held (c ∷ cs) =
    ground (arith, includes_iff held c, check_codes-eq-none_iff held cs)

-- What the source's comments ask for: an owner may grant anything; anybody else with a level only a
-- role that is not the owner's, stands strictly below them and carries no code they lack.
abbrev pub MayGrant : ActorAuthority → TargetRole → Type 0
MayGrant actor role =
    (l : ℕ) × (actor.level ≡ some l)
    × ((((role.name ≡ owner_role) ⊎ (owner_level ≤ role.level)) × (is_owner actor ≡ true))
        ⊎ ((role.name ≢ owner_role)
            × (role.level < owner_level)
            × (role.level < l)
            × All (λ c. In c actor.permission_codes) role.permission_codes))

-- A role may be handed out exactly when the actor has a level and either is an owner handing out the
-- owner's role or an owner-level one, or hands out another role that stands strictly below them and
-- carries only codes that they hold.
pub may_assign_role-eq-none_iff :
    (actor : ActorAuthority) (role : TargetRole)
    → (may_assign_role actor role ≡ none) ↔ MayGrant actor role
unfolding may_assign_role
may_assign_role-eq-none_iff actor role = ground (
  arith,
  str_eq_iff role.name owner_role,
  check_codes-eq-none_iff actor.permission_codes role.permission_codes,
)

-- A role may be defined exactly when it is not a system role, stays below the reserved level and
-- strictly below the actor, and carries only codes the actor holds.
may_define_role-eq-none_iff :
    (actor : ActorAuthority) (role : DefinedRole)
    → (may_define_role actor role ≡ none) ↔ (
        (l : ℕ) × (actor.level ≡ some l)
        × (role.is_system ≢ some true)
        × (role.level < owner_level)
        × (role.level < l)
        × All (λ c. In c actor.permission_codes) role.permission_codes)
unfolding may_define_role
may_define_role-eq-none_iff actor role =
    ground (arith, check_codes-eq-none_iff actor.permission_codes role.permission_codes)

abbrev pub named : String → DefinedRole → TargetRole
named n role = record {
  name = n;
  level = role.level;
  is_system = is_true role.is_system;
  permission_codes = role.permission_codes;
}

-- The two rules agree: what an actor may define under a name other than the owner's is what they may
-- then hand out, as long as it is a custom role below the reserved level.
pub may_assign-iff-may_define :
    (actor : ActorAuthority) (role : DefinedRole) (n : String)
    → n ≢ owner_role
    → role.is_system ≢ some true
    → role.level < owner_level
    → (may_assign_role actor (named n role) ≡ none) ↔ (may_define_role actor role ≡ none)
unfolding may_assign_role may_define_role
may_assign-iff-may_define actor role n other custom low = ground (arith, str_eq_iff n owner_role)
