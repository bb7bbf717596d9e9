-- ===== src/Prelude/Lists.antt =====
-- Lists over the native numbers, membership tests and predicates by recursion.
use Prim.Native.Nat.{ℕ, zero, suc, ◌≤◌}
use Prim.Native.String.{String}
use mathlib.Core.Path.{◌≡◌, refl, ap, ◌∙◌, sym, subst}
use mathlib.Core.Logic.{◌↔◌, ◌⊎◌, inl, inr}
use mathlib.Core.Bool.{Bool, true, false, ◌||◌, ◌&&◌, false≢true}
use mathlib.Core.List.{List, [], ◌∷◌, ◌++◌, map}
use native.Mathlib.Omega.{arith}
use wh_api_unified_service.Prelude.Tests.{Bool-cases, str_eq, str_eq_iff, if◌then◌else◌}

module _ {ℓ} {A : Type ℓ} where
  abbrev pub length : List A → ℕ
  length [] = 0
  length (x ∷ xs) = suc (length xs)

  abbrev pub filter : (A → Bool) → List A → List A
  filter p [] = []
  filter p (x ∷ xs) = let rest = filter p xs in if p x then x ∷ rest else rest

  abbrev pub any : (A → Bool) → List A → Bool
  any p [] = false
  any p (x ∷ xs) = p x || any p xs

  abbrev pub all : (A → Bool) → List A → Bool
  all p [] = true
  all p (x ∷ xs) = p x && all p xs

-- `x` stands somewhere in the list.
abbrev pub In : {A : Type 0} → A → List A → Type 0
In a [] = ⊥
In a (x ∷ xs) = (a ≡ x) ⊎ In a xs

module _ {ℓ κ} {A : Type ℓ} (P : A → Type κ) where
  abbrev pub All : List A → Type κ
  All [] = Unit
  All (x ∷ xs) = P x × All xs

-- `list.includes(s)` and `set.has(s)`.
unfoldable pub includes : List String → String → Bool
includes [] s = false
includes (x ∷ xs) s = str_eq x s || includes xs s

pub includes_iff : (xs : List String) (s : String) → (includes xs s ≡ true) ↔ In s xs
unfolding includes
includes_iff [] s = ground arith
includes_iff (x ∷ xs) s = ground (arith, str_eq_iff x s, includes_iff xs s)

module _ {A : Type 0} (P : A → Type 0) where
  pub All-In : (xs : List A) (a : A) → All P xs → In a xs → P a
  All-In [] a h i = elim i [ ]
  All-In (x ∷ xs) a h (inl e) = subst P (sym e) h.0
  All-In (x ∷ xs) a h (inr i) = All-In xs a h.1 i

module _ {ℓ κ} {A : Type ℓ} (P : A → Type κ) where
  pub All-append : (xs ys : List A) → All P xs → All P ys → All P (xs ++ ys)
  All-append [] ys hx hy = hy
  All-append (x ∷ xs) ys hx hy = (hx.0, All-append xs ys hx.1 hy)

module _ {A : Type 0} (P Q : A → Type 0) (f : (a : A) → P a → Q a) where
  pub All-imp : (xs : List A) → All P xs → All Q xs
  All-imp [] h = tt
  All-imp (x ∷ xs) h = (f x h.0, All-imp xs h.1)

module _ {A : Type 0} (p : A → Bool) where
  pub In-filter : (xs : List A) (a : A) → In a (filter p xs) ↔ (In a xs × (p a ≡ true))
  In-filter [] a = (λ i. absurd i, λ i. absurd i.0)
  In-filter (x ∷ xs) a = elim (Bool-cases (p x)) [
    | inl keep ↦ rw keep (
      λ i. elim i [
        | inl e ↦ (inl e, subst (λ y. p y ≡ true) (sym e) keep)
        | inr j ↦ let (k, h) = (In-filter xs a).0 j in (inr k, h)
      ],
      λ i. elim i.0 [ inl e ↦ inl e | inr j ↦ inr ((In-filter xs a).1 (j, i.1)) ],
    )
    | inr drop ↦ rw drop (
      λ i. let (k, h) = (In-filter xs a).0 i in (inr k, h),
      λ i. elim i.0 [
        | inl e ↦ absurd (false≢true (sym drop ∙ subst (λ y. p y ≡ true) e i.1))
        | inr j ↦ (In-filter xs a).1 (j, i.1)
      ],
    )
  ]

module _ {ℓ} {A : Type ℓ} where
  abbrev pub take : ℕ → List A → List A
  take zero xs = []
  take (suc n) [] = []
  take (suc n) (x ∷ xs) = x ∷ take n xs

  -- Insertion sort by a Boolean order; equal elements keep their places.
  unfoldable pub insert_sorted : (A → A → Bool) → A → List A → List A
  insert_sorted le x [] = x ∷ []
  insert_sorted le x (y ∷ ys) =
      let rest = insert_sorted le x ys in if le x y then x ∷ y ∷ ys else y ∷ rest

  unfoldable pub sort : (A → A → Bool) → List A → List A
  unfolding insert_sorted
  sort le [] = []
  sort le (x ∷ xs) = insert_sorted le x (sort le xs)

module _ {A : Type 0} where
  pub In-take : (n : ℕ) (xs : List A) (a : A) → In a (take n xs) → In a xs
  In-take zero xs a i = absurd i
  In-take (suc n) [] a i = i
  In-take (suc n) (x ∷ xs) a (inl e) = inl e
  In-take (suc n) (x ∷ xs) a (inr i) = inr (In-take n xs a i)

  pub length-take-le : (n : ℕ) (xs : List A) → length (take n xs) ≤ n
  length-take-le zero xs = omega arith
  length-take-le (suc n) [] = omega arith
  length-take-le (suc n) (x ∷ xs) = omega (arith, length-take-le n xs)

  module _ (le : A → A → Bool) where
    In-insert_sorted :
        (x : A) (ys : List A) (a : A) → In a (insert_sorted le x ys) ↔ ((a ≡ x) ⊎ In a ys)
    unfolding insert_sorted
    In-insert_sorted x [] a = (λ i. i, λ i. i)
    In-insert_sorted x (y ∷ ys) a = elim (Bool-cases (le x y)) [
      | inl first ↦ rw first (λ i. i, λ i. i)
      | inr later ↦ rw later (
        λ i. elim i [
          | inl e ↦ inr (inl e)
          | inr j ↦ elim ((In-insert_sorted x ys a).0 j) [ inl e ↦ inl e | inr k ↦ inr (inr k) ]
        ],
        λ i. elim i [
          | inl e ↦ inr ((In-insert_sorted x ys a).1 (inl e))
          | inr j ↦ elim j [ inl e ↦ inl e | inr k ↦ inr ((In-insert_sorted x ys a).1 (inr k)) ]
        ],
      )
    ]

    pub In-sort : (xs : List A) (a : A) → In a (sort le xs) ↔ In a xs
    unfolding sort
    In-sort [] a = (λ i. i, λ i. i)
    In-sort (x ∷ xs) a = (
      λ i. elim ((In-insert_sorted x (sort le xs) a).0 i) [
        | inl e ↦ inl e
        | inr j ↦ inr ((In-sort xs a).0 j)
      ],
      λ i.
          (In-insert_sorted x (sort le xs) a).1
            (elim i [ inl e ↦ inl e | inr j ↦ inr ((In-sort xs a).1 j) ]),
    )

    pub sort-single : (x : A) → sort le (x ∷ []) ≡ x ∷ []
    unfolding sort insert_sorted
    sort-single x = refl

    length-insert_sorted : (x : A) (ys : List A) → length (insert_sorted le x ys) ≡ suc (length ys)
    unfolding insert_sorted
    length-insert_sorted x [] = refl
    length-insert_sorted x (y ∷ ys) = ground (arith, length-insert_sorted x ys)

    pub length-sort : (xs : List A) → length (sort le xs) ≡ length xs
    unfolding sort
    length-sort [] = refl
    length-sort (x ∷ xs) = length-insert_sorted x (sort le xs) ∙ ap suc (length-sort xs)

pub In-map :
    {A B : Type 0} (f : A → B) (xs : List A) (b : B)
    → In b (map f xs)
    → (a : A) × In a xs × (b ≡ f a)
In-map f [] b i = absurd i
In-map f (x ∷ xs) b (inl e) = (x, inl refl, e)
In-map f (x ∷ xs) b (inr i) = let (a, j, e) = In-map f xs b i in (a, inr j, e)

pub In-map_to : {A B : Type 0} (f : A → B) (xs : List A) (a : A) → In a xs → In (f a) (map f xs)
In-map_to f [] a i = absurd i
In-map_to f (x ∷ xs) a (inl e) = inl (ap f e)
In-map_to f (x ∷ xs) a (inr i) = inr (In-map_to f xs a i)
