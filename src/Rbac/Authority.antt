-- ===== src/Rbac/Authority.antt =====
-- src/shared/rbac/authority.ts: who may hand out which role, and act on whom. A level is the number
-- of the source; `number | null` is an Option; a set of permission codes is the list of its members.
-- The constants are those of src/shared/enums/permission.enum.ts.
mod Tests
pub mod Grants
pub mod Ladder
pub mod Delegation
use wh_api_unified_service.Prelude.{
  ◌&&◌, ◌++◌, ◌==◌, Bool, List, Option, String, [], false, if◌then◌else◌, includes, leb, ltb, max,
  none, not, some, str_eq, true, ◌||◌, ℕ, ◌∷◌,
}

-- `SystemRole.Owner`, `ROLE_LEVEL.Owner` and `MAX_CREATABLE_ROLE_LEVEL`.
abbrev pub owner_role : String
owner_role = "owner"

abbrev pub owner_level : ℕ
owner_level = 100

abbrev pub max_creatable_role_level : ℕ
max_creatable_role_level = 99

pub data AuthorityDenial : Type 0 where
  actor_has_no_authority role_not_below_actor owner_grants_owner permissions_exceed_actor :
      AuthorityDenial
  target_not_below_actor cannot_act_on_self system_role_immutable owner_level_reserved :
      AuthorityDenial

pub record ActorAuthority : Type 0 where
  pub employee_id : ℕ
  pub level : Option ℕ
  pub role_names : List String
  pub permission_codes : List String

pub record TargetRole : Type 0 where
  pub name : String
  pub level : ℕ
  pub is_system : Bool
  pub permission_codes : List String

pub record TargetEmployee : Type 0 where
  pub employee_id : ℕ
  pub level : Option ℕ

unfoldable pub is_owner : ActorAuthority → Bool
is_owner actor = includes actor.role_names owner_role

-- The loop over `role.permissionCodes`, the same in both functions that have it.
pub check_codes : List String → List String → Option AuthorityDenial
check_codes held [] = none
check_codes held (code ∷ codes) =
    let rest = check_codes held codes in
    if not (includes held code) then some permissions_exceed_actor else rest

unfoldable pub may_assign_role : ActorAuthority → TargetRole → Option AuthorityDenial
may_assign_role actor role = elim actor.level [
  | none ↦ some actor_has_no_authority
  | some level ↦
      if str_eq role.name owner_role || leb owner_level role.level
      then if is_owner actor then none else some owner_grants_owner
      else if leb level role.level
      then some role_not_below_actor
      else check_codes actor.permission_codes role.permission_codes
]

-- `isSystem` is optional in the argument of the source: `role.isSystem === true`.
pub record DefinedRole : Type 0 where
  pub level : ℕ
  pub permission_codes : List String
  pub is_system : Option Bool

abbrev pub is_true : Option Bool → Bool
is_true none = false
is_true (some b) = b

unfoldable pub may_define_role : ActorAuthority → DefinedRole → Option AuthorityDenial
may_define_role actor role = elim actor.level [
  | none ↦ some actor_has_no_authority
  | some level ↦
      if is_true role.is_system
      then some system_role_immutable
      else if ltb max_creatable_role_level role.level
      then some owner_level_reserved
      else if leb level role.level
      then some role_not_below_actor
      else check_codes actor.permission_codes role.permission_codes
]

unfoldable pub may_modify_employee : ActorAuthority → TargetEmployee → Option AuthorityDenial
may_modify_employee actor target =
    if actor.employee_id == target.employee_id then some cannot_act_on_self else elim actor.level [
      | none ↦ some actor_has_no_authority
      | some own ↦ elim target.level [
        | none ↦ none
        | some theirs ↦
            if leb owner_level theirs && leb owner_level own
            then none
            else if leb own theirs
            then some target_not_below_actor
            else none
      ]
    ]

unfoldable pub may_see_employee : Option ℕ → Option ℕ → Bool
may_see_employee none target_level = false
may_see_employee (some actor_level) none = true
may_see_employee (some actor_level) (some target_level) = leb target_level actor_level

pub explain_denial : AuthorityDenial → String
explain_denial actor_has_no_authority = "you hold no role that carries this authority"
explain_denial role_not_below_actor = "you can only assign roles below your own level"
explain_denial owner_grants_owner = "only an owner can grant the owner role"
explain_denial permissions_exceed_actor =
    "a role cannot be given permissions you do not hold yourself"
explain_denial target_not_below_actor = "you can only act on people below your own level"
explain_denial cannot_act_on_self = "you cannot do this to your own account"
explain_denial system_role_immutable =
    "built-in roles cannot be edited; create your own role instead"
explain_denial owner_level_reserved =
    "the owner level is reserved and cannot be assigned to a new role"

-- `highestRoleLevel` of src/shared/enums/permission.enum.ts.
pub highest_role_level : List ℕ → Option ℕ
highest_role_level [] = none
highest_role_level (l ∷ ls) = elim (highest_role_level ls) [
  | none ↦ some l
  | some rest ↦ some (max l rest)
]

-- `authorityOfEmployee` of the role repository, over the active roles that its query joins; a set of
-- codes is a list, of which only the members matter.
pub all_codes : List TargetRole → List String
all_codes [] = []
all_codes (r ∷ rs) = r.permission_codes ++ all_codes rs

pub role_levels : List TargetRole → List ℕ
role_levels [] = []
role_levels (r ∷ rs) = r.level ∷ role_levels rs

unfoldable pub role_names_of : List TargetRole → List String
role_names_of [] = []
role_names_of (r ∷ rs) = r.name ∷ role_names_of rs

unfoldable pub authority_of_employee : ℕ → List TargetRole → ActorAuthority
unfolding all_codes role_levels role_names_of highest_role_level
authority_of_employee id roles = record {
  employee_id = id;
  level = highest_role_level (role_levels roles);
  role_names = role_names_of roles;
  permission_codes = all_codes roles;
}
