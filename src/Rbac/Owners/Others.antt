-- ===== src/Rbac/Owners/Others.antt =====
-- The active owners besides one employee, and what the guard for the last owner finds.
use wh_api_unified_service.Prelude.{
  ◌&&◌, ◌++◌, ◌<◌, ◌==◌, Bool, Bool-cases, List, String, [], any, arith, false, filter, includes,
  inl, inr, length, not, refl, true, ◌||◌, ℕ, ◌↔◌, ◌∙◌, ◌∷◌, ◌≡◌,
}
use wh_api_unified_service.Rbac.Authority.{TargetRole, owner_role, role_names_of}
use wh_api_unified_service.Rbac.Owners.{
  Employee, assert_not_last_owner, count_other_active_owners, held_roles, is_active_owner,
  list_role_names_for_employee, write_employee,
}

abbrev pub HasOwner : List Employee → Type 0
HasOwner team = any is_active_owner team ≡ true

abbrev pub is_other_owner : ℕ → Employee → Bool
is_other_owner id m = not (m.id == id) && is_active_owner m

pub count-pos_iff :
    (p : Employee → Bool) (team : List Employee)
    → (0 < length (filter p team)) ↔ (any p team ≡ true)
count-pos_iff p [] = ground arith
count-pos_iff p (m ∷ ms) = ground (arith, count-pos_iff p ms)

pub other_owner-HasOwner :
    (id : ℕ) (team : List Employee) → any (is_other_owner id) team ≡ true → HasOwner team
other_owner-HasOwner id [] h = h
other_owner-HasOwner id (m ∷ ms) h = ground (arith, other_owner-HasOwner id ms)

-- Writing to one employee leaves the other owners.
other_owner-write :
    (id : ℕ) (f : Employee → Employee)
    → ((m : Employee) → (f m).id ≡ m.id)
    → (team : List Employee)
    → any (is_other_owner id) (write_employee id f team) ≡ any (is_other_owner id) team
unfolding write_employee
other_owner-write id f keeps [] = refl
other_owner-write id f keeps (m ∷ ms) = elim (Bool-cases (m.id == id)) [
  | inl same ↦ rw (same, keeps m, same) (other_owner-write id f keeps ms)
  | inr other ↦ rw (other, other_owner-write id f keeps ms, other)
]

includes-append :
    (rs ss : List TargetRole) (name : String)
    → includes (role_names_of (rs ++ ss)) name
      ≡ (includes (role_names_of rs) name || includes (role_names_of ss) name)
unfolding includes role_names_of
includes-append [] ss name = refl
includes-append (r ∷ rs) ss name = ground (arith, includes-append rs ss name)

active_owner-holds :
    (m : Employee) → is_active_owner m ≡ true → includes (role_names_of m.roles) owner_role ≡ true
unfolding is_active_owner
active_owner-holds m h = ground arith

holds-cons :
    (id : ℕ) (m : Employee) (ms : List Employee)
    → includes (role_names_of (held_roles id (m ∷ ms))) owner_role ≡ (
        ((m.id == id) && includes (role_names_of m.roles) owner_role)
        || includes (role_names_of (held_roles id ms)) owner_role)
unfolding held_roles
holds-cons id m ms = elim (Bool-cases (m.id == id)) [
  | inl same ↦ rw same (includes-append m.roles (held_roles id ms) owner_role)
  | inr other ↦ rw other
]

-- An owner who is not the employee concerned, where that employee holds no owner's role.
pub owner_elsewhere :
    (id : ℕ) (team : List Employee)
    → includes (role_names_of (held_roles id team)) owner_role ≡ false
    → HasOwner team
    → any (is_other_owner id) team ≡ true
owner_elsewhere id [] none_held h = h
owner_elsewhere id (m ∷ ms) none_held h =
    ground (arith, holds-cons id m ms, active_owner-holds m, owner_elsewhere id ms)

-- A write that makes nobody less of an owner.
pub write-HasOwner :
    (id : ℕ) (f : Employee → Employee)
    → ((m : Employee) → is_active_owner m ≡ true → is_active_owner (f m) ≡ true)
    → (team : List Employee) → HasOwner team
    → HasOwner (write_employee id f team)
unfolding write_employee
write-HasOwner id f keeps [] h = h
write-HasOwner id f keeps (m ∷ ms) h = ground (arith, keeps m, write-HasOwner id f keeps ms)

-- The guard, where it lets a transaction pass, has found another owner.
pub guard-other_owner :
    (id : ℕ) (team : List Employee)
    → assert_not_last_owner id team ≡ true
    → HasOwner team
    → any (is_other_owner id) team ≡ true
unfolding assert_not_last_owner list_role_names_for_employee count_other_active_owners
guard-other_owner id team passed h =
    elim (Bool-cases (includes (role_names_of (held_roles id team)) owner_role)) [
      | inl holds ↦ ground (arith, count-pos_iff (is_other_owner id) team)
      | inr not_held ↦ owner_elsewhere id team not_held h
    ]

pub other_owner_stays :
    (id : ℕ) (f : Employee → Employee)
    → ((m : Employee) → (f m).id ≡ m.id)
    → (team : List Employee) → any (is_other_owner id) team ≡ true
    → HasOwner (write_employee id f team)
other_owner_stays id f keeps team h =
    other_owner-HasOwner id (write_employee id f team) (other_owner-write id f keeps team ∙ h)
