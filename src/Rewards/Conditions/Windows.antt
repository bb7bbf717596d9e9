-- ===== src/Rewards/Conditions/Windows.antt =====
-- When a time slot is open, src/modules/rewards/conditions/time-window.condition.ts.
use wh_api_unified_service.Prelude.{
  ◌%◌, ◌&&◌, ◌*◌, ◌+◌, ◌-◌, ◌<◌, ◌==◌, All, All-In, Bool, Bool-cases, In, List, [], any, arith,
  if◌then◌else◌, inl, inr, leb, ltb, refl, subst, sym, true, ◌||◌, ℕ, ◌↔◌, ◌∙◌, ◌∷◌, ◌≡◌, ◌≤◌,
}
use wh_api_unified_service.Rewards.Conditions.{
  LocalParts, TimeSlot, WallClock, end_minute, slot_is_open, to_minutes,
}

-- The minute of the day that a text `HH:mm` names.
abbrev pub opening : WallClock → ℕ
opening w = 60 * w.hours + w.minutes

-- The minute at which a slot closes: midnight, where it says 23:59.
abbrev pub closing : WallClock → ℕ
closing w = if (w.hours == 23) && (w.minutes == 59) then 1440 else 60 * w.hours + w.minutes

abbrev pub span : ℕ → ℕ → ℕ
span start last = if leb start last then last - start else last + 1440 - start

-- The minutes that a slot stays open; past midnight where it ends before it starts.
abbrev pub open_for : TimeSlot → ℕ
open_for slot = span (opening slot.start) (closing slot.end)

-- The minutes from a slot's opening on a weekday to a moment, round the week.
abbrev pub since_opening : TimeSlot → ℕ → LocalParts → ℕ
since_opening slot d now =
    ((now.iso_day * 1440 + now.minutes) + 10080 - (d * 1440 + opening slot.start)) % 10080

-- `HH:mm`, of 24 hours.
pub record IsClock (w : WallClock) : Type 0 where
  pub hours : w.hours < 24
  pub minutes : w.minutes < 60

pub record IsSlot (slot : TimeSlot) : Type 0 where
  pub days : All (λ d. (1 ≤ d) × (d ≤ 7)) slot.days
  pub start : IsClock slot.start
  pub end : IsClock slot.end

pub record IsMoment (now : LocalParts) : Type 0 where
  pub day : (1 ≤ now.iso_day) × (now.iso_day ≤ 7)
  pub minute : now.minutes < 1440

-- One slot on one of its days, by its first and last minute.
abbrev opens_on : ℕ → ℕ → ℕ → ℕ → ℕ → Bool
opens_on start last day minute d =
    if leb start last
    then (d == day) && leb start minute && ltb minute last
    else ((d == day) && leb start minute)
      || ((d == (if day == 1 then 7 else day - 1)) && ltb minute last)

opens_on_to :
    (start last day minute d : ℕ)
    → start < 1440
    → last ≤ 1440
    → minute < 1440
    → (1 ≤ day) × (day ≤ 7)
    → (1 ≤ d) × (d ≤ 7)
    → opens_on start last day minute d ≡ true
    → ((day * 1440 + minute) + 10080 - (d * 1440 + start)) % 10080 < span start last
opens_on_to start last day minute d s l m i h on = ground arith

opens_on_from :
    (start last day minute d : ℕ)
    → start < 1440
    → last ≤ 1440
    → minute < 1440
    → (1 ≤ day) × (day ≤ 7)
    → (1 ≤ d) × (d ≤ 7)
    → ((day * 1440 + minute) + 10080 - (d * 1440 + start)) % 10080 < span start last
    → opens_on start last day minute d ≡ true
opens_on_from start last day minute d s l m i h near = ground arith

any_opens :
    (start last day minute : ℕ) (ds : List ℕ)
    → (if leb start last
        then any (λ e. e == day) ds && leb start minute && ltb minute last
        else (any (λ e. e == day) ds && leb start minute)
          || (any (λ e. e == (if day == 1 then 7 else day - 1)) ds && ltb minute last))
      ≡ any (opens_on start last day minute) ds
any_opens start last day minute [] = ground arith
any_opens start last day minute (d ∷ ds) = ground (arith, any_opens start last day minute ds)

to_minutes-eq : (w : WallClock) → to_minutes w ≡ opening w
unfolding to_minutes
to_minutes-eq w = omega arith

end_minute-eq : (w : WallClock) → IsClock w → end_minute w ≡ closing w
unfolding end_minute to_minutes
end_minute-eq w h = let hours = h.hours in let minutes = h.minutes in ground arith

closing-le : (w : WallClock) → IsClock w → closing w ≤ 1440
closing-le w h = let hours = h.hours in let minutes = h.minutes in ground arith

any_to : (p : ℕ → Bool) (ds : List ℕ) → any p ds ≡ true → (d : ℕ) × In d ds × (p d ≡ true)
any_to p [] h = cc
any_to p (d ∷ ds) h = elim (Bool-cases (p d)) [
  | inl on ↦ (d, inl refl, on)
  | inr off ↦ let (e, i, on) = any_to p ds (ground arith) in (e, inr i, on)
]

any_from : (p : ℕ → Bool) (ds : List ℕ) (d : ℕ) → In d ds → p d ≡ true → any p ds ≡ true
any_from p [] d i on = absurd i
any_from p (x ∷ xs) d (inl e) on =
    let on' : p x ≡ true = subst (λ y. p y ≡ true) e on in rw on' refl
any_from p (x ∷ xs) d (inr i) on = ground (arith, any_from p xs d i on)

-- A slot is open exactly in the minutes after one of its openings that its length covers, counted
-- round the week: past midnight where it ends before it starts, from Sunday into Monday too, and to
-- the end of the day where it ends at 23:59.
pub slot_is_open_iff :
    (slot : TimeSlot) (now : LocalParts)
    → IsSlot slot
    → IsMoment now
    → (slot_is_open slot now ≡ true)
      ↔ ((d : ℕ) × In d slot.days × (since_opening slot d now < open_for slot))
unfolding slot_is_open
slot_is_open_iff slot now h m =
    let start = opening slot.start in
    let last = closing slot.end in
    let early : start < 1440 = omega (arith, h.start.hours, h.start.minutes) in
    let late = closing-le slot.end h.end in
    let same = any_opens start last now.iso_day now.minutes slot.days in
    rw (to_minutes-eq slot.start, end_minute-eq slot.end h.end)
      (
        λ on.
            let (d, i, opens) = any_to _ slot.days (sym same ∙ on) in
            let r = All-In (λ e. (1 ≤ e) × (e ≤ 7)) slot.days d h.days i in
            (
              d,
              i,
              opens_on_to start last now.iso_day now.minutes d early late m.minute m.day r opens,
            ),
        λ w.
            let r = All-In (λ e. (1 ≤ e) × (e ≤ 7)) slot.days w.0 h.days w.1 in
            same
            ∙ any_from _ slot.days w.0 w.1 (
                opens_on_from start last now.iso_day now.minutes w.0 early late m.minute m.day r
                  w.2),
      )
