-- ===== src/Rbac/Guard/Passing.antt =====
-- When a request passes, src/shared/guards/permissions.guard.ts.
use mathlib.Core.Option.{some-injective}
use wh_api_unified_service.Prelude.{
  All, Bool-cases, In, List, Option, String, [], any, arith, false, false≢true, filter,
  includes_iff, inl, inr, none, not, or_else, refl, some, subst, sym, true, ℕ, ◌↔◌, ◌∙◌, ◌∷◌, ◌≡◌,
  ◌≢◌, ◌⊎◌,
}
use wh_api_unified_service.Rbac.Guard.{
  Actor, Decision, Refusal, RouteMetadata, allow, auth_token_invalid, can_activate, check_all,
  check_declared, declares, details, feature_not_enabled, holds, permission_denied, refuse,
  refuse_with_the_real_reason,
}

filter-not-eq-nil_iff :
    (actor : Actor) (xs : List String)
    → (filter (λ p. not (holds actor p)) xs ≡ []) ↔ All (λ p. In p actor.permissions) xs
filter-not-eq-nil_iff actor [] = (λ e. tt, λ h. refl)
filter-not-eq-nil_iff actor (x ∷ xs) =
    ground (arith, includes_iff actor.permissions x, filter-not-eq-nil_iff actor xs)

any-holds_iff :
    (actor : Actor) (xs : List String)
    → (any (holds actor) xs ≡ true) ↔ ((p : String) × In p xs × In p actor.permissions)
any-holds_iff actor [] = (λ e. cc, λ w. absurd w.1)
any-holds_iff actor (x ∷ xs) = elim (Bool-cases (holds actor x)) [
  | inl held ↦ (λ e. (x, inl refl, (includes_iff actor.permissions x).0 held), λ w. ground arith)
  | inr lacks ↦ rw lacks (
    λ e. let (p, i, h) = (any-holds_iff actor xs).0 e in (p, inr i, h),
    λ w. elim w.1 [
      | inl e ↦ absurd (
          false≢true (
            sym lacks
            ∙ (includes_iff actor.permissions x).1 (subst (λ y. In y actor.permissions) e w.2)))
      | inr i ↦ (any-holds_iff actor xs).1 (w.0, i, w.2)
    ],
  )
]

-- The actor meets what the route declares: one code of the ANY set if there is such a set, and every
-- code of the ALL set.
abbrev pub Satisfies : RouteMetadata → Actor → Type 0
Satisfies route actor =
    ((declares route.any_of ≡ false)
      ⊎ ((p : String) × In p (or_else route.any_of []) × In p actor.permissions))
    × All (λ p. In p actor.permissions) (or_else route.required [])

module _ (feature_blocking : ℕ → List String → Option String) where
  refused :
      (e : Option ℕ) (c : List String) (r : Refusal)
      → refuse_with_the_real_reason feature_blocking e c r ≢ allow
  refused none c r h = cc
  refused (some e) c r h = ground arith

  check_all-eq-allow_iff :
      (actor : Actor) (missing : List String)
      → (check_all feature_blocking actor missing ≡ allow) ↔ (missing ≡ [])
  unfolding check_all
  check_all-eq-allow_iff actor [] = (λ e. refl, λ e. refl)
  check_all-eq-allow_iff actor (x ∷ xs) =
      (λ e. absurd (refused actor.enterprise_id (x ∷ xs) _ e), λ e. cc)

  -- The part of the check that comes after the route is known to declare something.
  check_declared-eq-allow_iff :
      (route : RouteMetadata) (actor : Actor)
      → (check_declared feature_blocking route actor ≡ allow) ↔ Satisfies route actor
  unfolding check_declared
  check_declared-eq-allow_iff route actor = ground (
    arith,
    any-holds_iff actor (or_else route.any_of []),
    filter-not-eq-nil_iff actor (or_else route.required []),
    check_all-eq-allow_iff actor (filter (λ p. not (holds actor p)) (or_else route.required [])),
    refused actor.enterprise_id (or_else route.any_of [])
        (permission_denied (details "anyPermission" (or_else route.any_of []))),
  )

  abbrev Bare : RouteMetadata → Type 0
  Bare route = (declares route.required ≡ false) × (declares route.any_of ≡ false)

  Bare-cases : (route : RouteMetadata) → Bare route ⊎ (¬ Bare route)
  Bare-cases route = ground arith

  open_route :
      (route : RouteMetadata) (actor : Option Actor)
      → (route.is_public ≡ true) ⊎ Bare route
      → can_activate feature_blocking route actor ≡ allow
  unfolding can_activate
  open_route route actor h = ground arith

  closed_route :
      (route : RouteMetadata) (actor : Option Actor)
      → route.is_public ≡ false
      → ¬ Bare route
      → can_activate feature_blocking route actor ≡ (elim actor [
        | none ↦ refuse auth_token_invalid
        | some a ↦ check_declared feature_blocking route a
      ])
  unfolding can_activate
  closed_route route actor h b = ground arith

  -- A request passes exactly when the route is public, declares nothing, or has an actor who holds
  -- one code of its ANY set and every code of its ALL set.
  pub can_activate-eq-allow_iff :
      (route : RouteMetadata) (actor : Option Actor)
      → (can_activate feature_blocking route actor ≡ allow) ↔ (
          (route.is_public ≡ true)
          ⊎ ((declares route.required ≡ false) × (declares route.any_of ≡ false))
          ⊎ ((a : Actor) × (actor ≡ some a) × Satisfies route a))
  can_activate-eq-allow_iff route actor = elim (Bool-cases route.is_public) [
    | inl public ↦ (λ e. inl public, λ w. open_route route actor (inl public))
    | inr private ↦ elim (Bare-cases route) [
      | inl bare ↦ (λ e. inr (inl bare), λ w. open_route route actor (inr bare))
      | inr declared ↦
          rw (closed_route route actor private declared) (behind actor private declared)
    ]
  ]
    where
      behind :
          (actor : Option Actor)
          → route.is_public ≡ false
          → ¬ Bare route
          → ((elim actor as (λ _. Decision) [
            | none ↦ refuse auth_token_invalid
            | some a ↦ check_declared feature_blocking route a
          ])
              ≡ allow)
            ↔ ((route.is_public ≡ true)
                ⊎ Bare route
                ⊎ ((a : Actor) × (actor ≡ some a) × Satisfies route a))
      behind none private declared = ground arith
      behind (some a) private declared =
          let both = check_declared-eq-allow_iff route a in
          (
            λ e. inr (inr (a, refl, both.0 e)),
            λ w. elim w [
              | inl public ↦ cc
              | inr (inl bare) ↦ absurd (declared bare)
              | inr (inr (b, same, met)) ↦
                  both.1 (subst (Satisfies route) (sym (some-injective _ _ same)) met)
            ],
          )

  -- A refusal blames the business's features exactly when the repository names one that blocks what
  -- was missing.
  pub refusal_reason :
      (enterprise : ℕ) (candidates : List String) (denied : Refusal) (feature : String)
      → denied ≢ feature_not_enabled feature
      → (refuse_with_the_real_reason feature_blocking (some enterprise) candidates denied
          ≡ refuse (feature_not_enabled feature))
        ↔ (feature_blocking enterprise candidates ≡ some feature)
  refusal_reason enterprise candidates denied feature other = ground arith
