-- ===== src/Outbound/Pointwise.antt =====
-- What an UPDATE does to one row, to a property of all rows and to the unique keys.
use mathlib.Core.Option
use wh_api_unified_service.Prelude.{
  ◌==◌, ==→eq, All, All-In, Bool, Bool-cases, In, List, [], ap, arith, false, if◌then◌else◌, inl,
  inr, refl, some, subst, sym, true, ℕ, ◌∙◌, ◌∷◌, ◌≡◌, ◌≢◌,
}
use wh_api_unified_service.Outbound.{OutboundEvent, find_event, update_rows}
use wh_api_unified_service.Outbound.Queue.{same_key}

abbrev pub touch :
    (OutboundEvent → Bool) → (OutboundEvent → OutboundEvent) → OutboundEvent → OutboundEvent
touch p f e = if p e then f e else e

-- A change that leaves the primary key and the columns of the unique index alone.
pub record KeepsKey (f : OutboundEvent → OutboundEvent) : Type 0 where
  pub id : (e : OutboundEvent) → (f e).id ≡ e.id
  pub enterprise : (e : OutboundEvent) → (f e).enterprise_id ≡ e.enterprise_id
  pub key : (e : OutboundEvent) → (f e).dedup_key ≡ e.dedup_key

module _ (p : OutboundEvent → Bool) (f : OutboundEvent → OutboundEvent) (keeps : KeepsKey f) where
  touch-id : (e : OutboundEvent) → (touch p f e).id ≡ e.id
  touch-id e = elim (Bool-cases (p e)) [ inl h ↦ rw h (keeps.id e) | inr h ↦ rw h ]

  touch-enterprise : (e : OutboundEvent) → (touch p f e).enterprise_id ≡ e.enterprise_id
  touch-enterprise e = elim (Bool-cases (p e)) [ inl h ↦ rw h (keeps.enterprise e) | inr h ↦ rw h ]

  touch-key : (e : OutboundEvent) → (touch p f e).dedup_key ≡ e.dedup_key
  touch-key e = elim (Bool-cases (p e)) [ inl h ↦ rw h (keeps.key e) | inr h ↦ rw h ]

  pub find_event-update_rows :
      (i : ℕ) (es : List OutboundEvent)
      → find_event i (update_rows p f es) ≡ Option.map (touch p f) (find_event i es)
  unfolding find_event update_rows
  find_event-update_rows i [] = refl
  find_event-update_rows i (e ∷ es) =
      rw (touch-id e) (elim (Bool-cases (e.id == i)) [
        | inl h ↦ rw h
        | inr h ↦ rw h (find_event-update_rows i es)
      ])

-- Two rows that the primary key and the unique index may hold together.
abbrev pub MayCoexist : OutboundEvent → OutboundEvent → Type 0
MayCoexist a b = (a.id ≢ b.id) × (same_key a.enterprise_id a.dedup_key b ≡ false)

abbrev pub AllPairs : List OutboundEvent → Type 0
AllPairs [] = Unit
AllPairs (e ∷ es) = All (MayCoexist e) es × AllPairs es

module _ (P : OutboundEvent → Type 0) (p : OutboundEvent → Bool)
    (f : OutboundEvent → OutboundEvent) where
  pub All-update_rows :
      (es : List OutboundEvent)
      → ((e : OutboundEvent) → In e es → P e → p e ≡ true → P (f e))
      → All P es
      → All P (update_rows p f es)
  unfolding update_rows
  All-update_rows [] step h = tt
  All-update_rows (e ∷ es) step h = (
    elim (Bool-cases (p e)) [ inl on ↦ rw on (step e (inl refl) h.0 on) | inr off ↦ rw off h.0 ],
    All-update_rows es (λ a i. step a (inr i)) h.1,
  )

-- The primary key tells rows apart.
pub unique_row :
    (es : List OutboundEvent) (a b : OutboundEvent)
    → AllPairs es
    → In a es
    → In b es
    → a.id ≡ b.id
    → a ≡ b
unique_row [] a b h i j e = absurd i
unique_row (x ∷ xs) a b h (inl i) (inl j) e = i ∙ sym j
unique_row (x ∷ xs) a b h (inl i) (inr j) e =
    absurd ((All-In (MayCoexist x) xs b h.0 j).0 (sym (ap OutboundEvent.id i) ∙ e))
unique_row (x ∷ xs) a b h (inr i) (inl j) e =
    absurd ((All-In (MayCoexist x) xs a h.0 i).0 (sym (ap OutboundEvent.id j) ∙ sym e))
unique_row (x ∷ xs) a b h (inr i) (inr j) e = unique_row xs a b h.1 i j e

pub find_event-In :
    (i : ℕ) (es : List OutboundEvent) (e : OutboundEvent)
    → find_event i es ≡ some e
    → In e es × (e.id ≡ i)
unfolding find_event
find_event-In i [] e h = cc
find_event-In i (x ∷ xs) e h = elim (Bool-cases (x.id == i)) [
  | inl on ↦
      let same : x ≡ e = ground arith in (inl (sym same), subst (λ y. y.id ≡ i) same (==→eq _ _ on))
  | inr off ↦ let (j, k) = find_event-In i xs e (ground arith) in (inr j, k)
]

pub find_event_unique :
    (es : List OutboundEvent) (a : OutboundEvent) (i : ℕ)
    → AllPairs es
    → In a es
    → a.id ≡ i
    → find_event i es ≡ some a
unfolding find_event
find_event_unique [] a i h j e = absurd j
find_event_unique (x ∷ xs) a i h (inl j) e = ground arith
find_event_unique (x ∷ xs) a i h (inr j) e =
    let apart = (All-In (MayCoexist x) xs a h.0 j).0 in
    ground (arith, find_event_unique xs a i h.1 j e)

module _ (p : OutboundEvent → Bool) (f : OutboundEvent → OutboundEvent) (keeps : KeepsKey f) where
  MayCoexist-touch : (a b : OutboundEvent) → MayCoexist a b → MayCoexist (touch p f a) (touch p f b)
  MayCoexist-touch a b h =
      rw
        (
          touch-id p f keeps a,
          touch-id p f keeps b,
          touch-enterprise p f keeps a,
          touch-enterprise p f keeps b,
          touch-key p f keeps a,
          touch-key p f keeps b,
        )
        h

  MayCoexist-update_rows :
      (a : OutboundEvent) (es : List OutboundEvent)
      → All (MayCoexist a) es
      → All (MayCoexist (touch p f a)) (update_rows p f es)
  unfolding update_rows
  MayCoexist-update_rows a [] h = tt
  MayCoexist-update_rows a (e ∷ es) h = (MayCoexist-touch a e h.0, MayCoexist-update_rows a es h.1)

  pub AllPairs-update_rows : (es : List OutboundEvent) → AllPairs es → AllPairs (update_rows p f es)
  unfolding update_rows
  AllPairs-update_rows [] h = tt
  AllPairs-update_rows (e ∷ es) h = (MayCoexist-update_rows e es h.0, AllPairs-update_rows es h.1)
