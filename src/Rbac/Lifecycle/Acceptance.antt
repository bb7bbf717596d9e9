-- ===== src/Rbac/Lifecycle/Acceptance.antt =====
-- What it takes to be active, src/shared/rbac/employee-lifecycle.ts.
use wh_api_unified_service.Prelude.{
  All, Bool, List, [], arith, none, or_else, true, ℕ, ◌↔◌, ◌∷◌, ◌≡◌, ◌≢◌, ◌⊎◌,
}
use wh_api_unified_service.Rbac.Lifecycle.{
  Employment, LifecycleStatus, activate, active, change_status, may_change_status, set_status,
  suspended,
}

pub data Action : Type 0 where
  administer : Bool → LifecycleStatus → Action
  accept : ℕ → Action

-- A refused request leaves the row as it is.
unfoldable pub act : Action → Employment → Employment
act (administer last_owner to) e = or_else (change_status last_owner to e) e
act (accept now) e = activate now e

pub run : List Action → Employment → Employment
run [] e = e
run (a ∷ as') e = run as' (act a e)

abbrev pub IsAdministrative : Action → Type 0
IsAdministrative (administer last_owner to) = Unit
IsAdministrative (accept now) = ⊥

-- An employment that nobody has accepted is not active, and one that is active was accepted.
pub record IsHonest (e : Employment) : Type 0 where
  pub accepted : e.status ≡ active → e.joined_at ≢ none

act-IsHonest : (a : Action) (e : Employment) → IsHonest e → IsHonest (act a e)
unfolding act change_status activate set_status may_change_status
act-IsHonest (administer last_owner to) e h = ground arith
act-IsHonest (accept now) e h = ground arith

-- Along any requests and acceptances, an active employment has been accepted.
pub run-IsHonest : (as' : List Action) (e : Employment) → IsHonest e → IsHonest (run as' e)
unfolding run
run-IsHonest [] e h = h
run-IsHonest (a ∷ as') e h = run-IsHonest as' (act a e) (act-IsHonest a e h)

act_administrative :
    (a : Action) (e : Employment)
    → IsAdministrative a
    → e.joined_at ≡ none
    → e.status ≢ active
    → ((act a e).joined_at ≡ none) × ((act a e).status ≢ active)
unfolding act change_status set_status may_change_status
act_administrative (administer last_owner to) e i j s = (ground arith, ground arith)
act_administrative (accept now) e i j s = absurd i

-- No sequence of an administrator's requests, of whatever length and order and whatever the guard for
-- the last owner answers, makes an employment active that its person never accepted.
pub never_active_without_acceptance :
    (as' : List Action) (e : Employment)
    → All IsAdministrative as'
    → e.joined_at ≡ none
    → e.status ≢ active
    → (run as' e).status ≢ active
unfolding run
never_active_without_acceptance [] e h j s = s
never_active_without_acceptance (a ∷ as') e h j s =
    let (j', s') = act_administrative a e h.0 j s in
    never_active_without_acceptance as' (act a e) h.1 j' s'

-- Which requests the rule lets through: suspending whoever is not suspended, reinstating a suspended
-- employment that was once accepted, and (the source says nothing against it) putting a row back to
-- invited.
pub may_change_status-eq-none_iff :
    (from to : LifecycleStatus) (ever : Bool)
    → (may_change_status from to ever ≡ none)
      ↔ ((from ≢ to) × ((to ≢ active) ⊎ ((from ≡ suspended) × (ever ≡ true))))
unfolding may_change_status
may_change_status-eq-none_iff from to ever = ground arith
