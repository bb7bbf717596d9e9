-- ===== src/Rewards/Conditions.antt =====
-- The conditions of a reward rule, src/modules/rewards/conditions. The table of time zones and the
-- folding of letters to lower case are arguments.
pub mod Windows
use Prim.Native.Char.{code as code_point}
use Prim.Native.String
use wh_api_unified_service.Prelude.{
  ◌&&◌, ◌*◌, ◌+◌, ◌-◌, ◌==◌, Bool, List, Option, String, [], any, false, if◌then◌else◌, leb, ltb,
  none, not, some, str_eq, true, ◌||◌, ℕ, ◌∷◌,
}

-- `HH:mm`, as the schema has it.
pub record WallClock : Type 0 where
  pub hours : ℕ
  pub minutes : ℕ

pub record TimeSlot : Type 0 where
  pub days : List ℕ
  pub start : WallClock
  pub end : WallClock

pub data RewardConditionConfig : Type 0 where
  time_window : List TimeSlot → RewardConditionConfig
  customer_tenure : ℕ → RewardConditionConfig
  content_match : List String → RewardConditionConfig

-- `localParts`: the ISO weekday, Monday 1, and the minute of the day.
pub record LocalParts : Type 0 where
  pub iso_day : ℕ
  pub minutes : ℕ

pub record ConditionContext : Type 0 where
  pub occurred_at_utc : ℕ
  pub timezone : Option String
  pub content : Option String
  pub customer_first_seen_at : Option ℕ

-- What the handlers use of the platform.
pub record Locale : Type 0 where
  pub local_parts : ℕ → String → LocalParts
  pub to_lower_case : String → String

unfoldable pub to_minutes : WallClock → ℕ
to_minutes wall_clock = wall_clock.hours * 60 + wall_clock.minutes

abbrev pub last_minute_of_day : ℕ
last_minute_of_day = 1439

abbrev pub end_of_day : ℕ
end_of_day = 1440

unfoldable pub end_minute : WallClock → ℕ
end_minute wall_clock =
    let last = to_minutes wall_clock in if last == last_minute_of_day then end_of_day else last

abbrev includes_day : List ℕ → ℕ → Bool
includes_day days d = any (λ e. e == d) days

abbrev previous_day : ℕ → ℕ
previous_day d = if d == 1 then 7 else d - 1

unfoldable pub slot_is_open : TimeSlot → LocalParts → Bool
slot_is_open slot now =
    let start = to_minutes slot.start in
    let last = end_minute slot.end in
    if leb start last
    then includes_day slot.days now.iso_day && leb start now.minutes && ltb now.minutes last
    else (includes_day slot.days now.iso_day && leb start now.minutes)
      || (includes_day slot.days (previous_day now.iso_day) && ltb now.minutes last)

unfoldable pub check_time_window : Locale → List TimeSlot → ConditionContext → Bool
check_time_window locale slots ctx = elim ctx.timezone [
  | none ↦ false
  | some timezone ↦
      any (λ slot. slot_is_open slot (locale.local_parts ctx.occurred_at_utc timezone)) slots
]

abbrev pub ms_per_day : ℕ
ms_per_day = 86400000

-- `ageDays >= minDaysSinceFirstEngagement`, multiplied out.
unfoldable pub check_customer_tenure : ℕ → ConditionContext → Bool
check_customer_tenure days ctx = elim ctx.customer_first_seen_at [
  | none ↦ false
  | some first ↦ leb (first + days * ms_per_day) ctx.occurred_at_utc
]

-- The code points that `trim` takes off.
abbrev is_space : ℕ → Bool
is_space c =
    (leb 9 c && leb c 13)
    || c == 32
    || c == 160
    || c == 5760
    || (leb 8192 c && leb c 8202)
    || c == 8232
    || c == 8233
    || c == 8239
    || c == 8287
    || c == 12288
    || c == 65279

-- `text.trim() === ''`
pub is_blank : String → Bool
is_blank String.[] = true
is_blank (String.◌∷◌ c s) = is_space (code_point c) && is_blank s

pub starts_with : String → String → Bool
starts_with s String.[] = true
starts_with String.[] (String.◌∷◌ d t) = false
starts_with (String.◌∷◌ c s) (String.◌∷◌ d t) = (code_point c == code_point d) && starts_with s t

-- `haystack.includes(needle)`
pub contains : String → String → Bool
contains String.[] needle = starts_with String.[] needle
contains (String.◌∷◌ c s) needle = starts_with (String.◌∷◌ c s) needle || contains s needle

unfoldable pub check_content_match : Locale → List String → ConditionContext → Bool
check_content_match locale words ctx = elim ctx.content [
  | none ↦ false
  | some content ↦
      if is_blank content
      then false
      else let haystack = locale.to_lower_case content in
        any (λ word. contains haystack (locale.to_lower_case word)) words
]

-- A stored condition: its kind, and what the schema of that kind makes of its configuration.
pub record RewardRuleConditionRow : Type 0 where
  pub condition_kind : String
  pub config : Option RewardConditionConfig

-- The kinds that have a handler.
abbrev pub is_wired : String → Bool
is_wired kind =
    str_eq kind "time_window" || str_eq kind "customer_tenure" || str_eq kind "content_match"

abbrev pub check_config : Locale → RewardConditionConfig → ConditionContext → Bool
check_config locale (time_window slots) ctx = check_time_window locale slots ctx
check_config locale (customer_tenure days) ctx = check_customer_tenure days ctx
check_config locale (content_match words) ctx = check_content_match locale words ctx

unfoldable pub check_one : Locale → RewardRuleConditionRow → ConditionContext → Bool
check_one locale stored ctx =
    if not (is_wired stored.condition_kind)
    then false
    else elim stored.config [ none ↦ false | some config ↦ check_config locale config ctx ]

-- The kind that failed, `none` where all passed.
unfoldable pub evaluate_conditions :
    Locale → List RewardRuleConditionRow → ConditionContext → Option String
evaluate_conditions locale [] ctx = none
evaluate_conditions locale (stored ∷ rest) ctx =
    let later = evaluate_conditions locale rest ctx in
    if not (check_one locale stored ctx) then some stored.condition_kind else later
