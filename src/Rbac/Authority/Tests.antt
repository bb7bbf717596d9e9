-- ===== src/Rbac/Authority/Tests.antt =====
-- The theorems on authority at concrete people.
use wh_api_unified_service.Prelude.{
  All, [], arith, false, false≢true, inl, inr, none, refl, some, str_eq, str_eq_iff, ◌∷◌, ◌≡◌, ◌≢◌,
}
use wh_api_unified_service.Rbac.Authority.{
  ActorAuthority, TargetRole, all_codes, authority_of_employee, highest_role_level, may_assign_role,
  owner_role, role_levels, role_names_of,
}
use wh_api_unified_service.Rbac.Authority.Delegation.{
  IsContained, Member, authority_of, give, grant, here, next, no_escalation,
}
use wh_api_unified_service.Rbac.Authority.Grants.{may_assign_role-eq-none_iff}

abbrev manager : ActorAuthority
manager = record {
  employee_id = 1;
  level = some 50;
  role_names = "manager" ∷ [];
  permission_codes = "comments.view" ∷ [];
}

abbrev viewer : TargetRole
viewer = record {
  name = "viewer";
  level = 10;
  is_system = false;
  permission_codes = "comments.view" ∷ [];
}

abbrev lead_role : TargetRole
lead_role = record viewer { name = "lead"; level = 50 }

abbrev lead : Member
lead = record { id = 1; roles = lead_role ∷ [] }

viewer_not_owner : "viewer" ≢ owner_role
unfolding str_eq
viewer_not_owner e = false≢true ((str_eq_iff "viewer" owner_role).1 e)

lead_not_owner : "lead" ≢ owner_role
unfolding str_eq
lead_not_owner e = false≢true ((str_eq_iff "lead" owner_role).1 e)

lead_may_grant : may_assign_role (authority_of lead) viewer ≡ none
unfolding authority_of_employee all_codes role_levels role_names_of highest_role_level
lead_may_grant =
    (may_assign_role-eq-none_iff (authority_of lead) viewer).1
      (50, refl, inr (viewer_not_owner, omega arith, omega arith, (inl refl, tt)))

lead-IsContained : All (IsContained 50 ("comments.view" ∷ [])) (lead ∷ [])
lead-IsContained = (
  (
    record {
      not_owner = lead_not_owner;
      below_owner = omega arith;
      capped = omega arith;
      carried = (inl refl, tt);
    },
    tt,
  ),
  tt,
)

no_escalation_example : All (IsContained 50 ("comments.view" ∷ [])) (give viewer 0 (lead ∷ []))
no_escalation_example =
    no_escalation 50 ("comments.view" ∷ []) {t = lead ∷ []} lead-IsContained
      (next here (grant lead viewer 0 (inl refl) lead_may_grant))
