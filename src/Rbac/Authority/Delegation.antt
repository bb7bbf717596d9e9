-- ===== src/Rbac/Authority/Delegation.antt =====
-- Chains of grants among people who work together, over src/shared/rbac/authority.ts.
use wh_api_unified_service.Prelude.{
  ◌<◌, All, All-In, All-append, All-imp, In, List, Option-cases, String, [], arith, includes_iff,
  inl, inr, none, some, suc, sym, zero, ℕ, ◌∷◌, ◌≡◌, ◌≢◌, ◌≤◌,
}
use wh_api_unified_service.Rbac.Authority.{
  ActorAuthority, TargetRole, all_codes, authority_of_employee, highest_role_level, is_owner,
  may_assign_role, owner_level, owner_role, role_levels, role_names_of,
}
use wh_api_unified_service.Rbac.Authority.Grants.{may_assign_role-eq-none_iff}

pub record Member : Type 0 where
  pub id : ℕ
  pub roles : List TargetRole

abbrev pub authority_of : Member → ActorAuthority
authority_of m = authority_of_employee m.id m.roles

abbrev pub give : TargetRole → ℕ → List Member → List Member
give role i [] = []
give role zero (m ∷ ms) = record m { roles = role ∷ m.roles } ∷ ms
give role (suc i) (m ∷ ms) = m ∷ give role i ms

-- One of them hands any role to any of them where the rule allows it, or somebody new joins.
pub data Step (team : List Member) : List Member → Type 0 where
  grant :
      (actor : Member) (role : TargetRole) (i : ℕ)
      → In actor team
      → may_assign_role (authority_of actor) role ≡ none
      → Step team (give role i team)
  hire : (id : ℕ) → Step team (record { id = id; roles = [] } ∷ team)

pub data Reach (team : List Member) : List Member → Type 0 where
  here : Reach team team
  next : {t u : List Member} → Reach team t → Step t u → Reach team u

-- A role below the owner's level, at most at level `top`, with codes from `codes` alone.
pub record IsWithin (top : ℕ) (codes : List String) (role : TargetRole) : Type 0 where
  pub not_owner : role.name ≢ owner_role
  pub below_owner : role.level < owner_level
  pub capped : role.level ≤ top
  pub carried : All (λ c. In c codes) role.permission_codes

module _ (top : ℕ) (codes : List String) where
  abbrev pub IsContained : Member → Type 0
  IsContained m = All (IsWithin top codes) m.roles

  level_capped :
      (roles : List TargetRole) (l : ℕ)
      → All (IsWithin top codes) roles
      → highest_role_level (role_levels roles) ≡ some l
      → l ≤ top
  unfolding highest_role_level role_levels
  level_capped [] l h e = ground arith
  level_capped (r ∷ rs) l h e = elim (Option-cases (highest_role_level (role_levels rs))) [
    | inl empty ↦ ground arith
    | inr (m, rest) ↦ ground (arith, level_capped rs m h.1 rest)
  ]

  not_an_owner :
      (roles : List TargetRole)
      → All (IsWithin top codes) roles
      → ¬ In owner_role (role_names_of roles)
  unfolding role_names_of
  not_an_owner [] h i = i
  not_an_owner (r ∷ rs) h (inl e) = h.0.not_owner (sym e)
  not_an_owner (r ∷ rs) h (inr i) = not_an_owner rs h.1 i

  codes_contained :
      (roles : List TargetRole)
      → All (IsWithin top codes) roles
      → All (λ c. In c codes) (all_codes roles)
  unfolding all_codes
  codes_contained [] h = tt
  codes_contained (r ∷ rs) h =
      All-append _ r.permission_codes _ h.0.carried (codes_contained rs h.1)

  granted-IsWithin :
      (m : Member) (role : TargetRole)
      → IsContained m
      → may_assign_role (authority_of m) role ≡ none
      → IsWithin top codes role
  unfolding authority_of_employee is_owner
  granted-IsWithin m role h e =
      let (l, level, allowed) = (may_assign_role-eq-none_iff (authority_of m) role).0 e in
      elim allowed [
        | inl (_, owner) ↦ absurd (not_an_owner m.roles h ((includes_iff _ owner_role).0 owner))
        | inr (other, low, lt, held) ↦ record {
          not_owner = other;
          below_owner = low;
          capped = omega (arith, level_capped m.roles l h level);
          carried =
              All-imp (λ c. In c (all_codes m.roles)) (λ c. In c codes)
                (λ c i.
                  All-In (λ c. In c codes) (all_codes m.roles) c (codes_contained m.roles h) i)
                role.permission_codes held;
        }
      ]

  give-IsContained :
      (role : TargetRole) (i : ℕ) (team : List Member)
      → IsWithin top codes role
      → All IsContained team
      → All IsContained (give role i team)
  give-IsContained role i [] w h = tt
  give-IsContained role zero (m ∷ ms) w h = ((w, h.0), h.1)
  give-IsContained role (suc i) (m ∷ ms) w h = (h.0, give-IsContained role i ms w h.1)

  Step-IsContained : {t u : List Member} → Step t u → All IsContained t → All IsContained u
  Step-IsContained {t} (grant actor role i member allowed) h =
      give-IsContained role i t
        (granted-IsWithin actor role (All-In IsContained t actor h member) allowed) h
  Step-IsContained (hire id) h = (tt, h)

  -- No chain of grants, however long and through however many new colleagues, gives anybody in a
  -- team without an owner a role at the owner's level, above the team's highest or with a code that
  -- nobody in the team held.
  pub no_escalation : {t u : List Member} → All IsContained t → Reach t u → All IsContained u
  no_escalation h here = h
  no_escalation h (next r s) = Step-IsContained s (no_escalation h r)
