-- ===== src/Prelude/Decimals.antt =====
-- Whole numbers in texts.
use Prim.Native.Nat.{ℕ, zero, suc, ◌/◌, ◌%◌}
use Prim.Native.String.{String}
use wh_api_unified_service.Prelude.Tests.{ltb, ◌==◌, if◌then◌else◌, ◌<>◌}

abbrev pub digit : ℕ → String
digit n =
    if n == 0
    then "0"
    else if n == 1
    then "1"
    else if n == 2
    then "2"
    else if n == 3
    then "3"
    else if n == 4
    then "4"
    else if n == 5
    then "5"
    else if n == 6
    then "6"
    else if n == 7
    then "7"
    else if n == 8
    then "8"
    else "9"

-- A whole number in a text; n + 1 rounds are enough for n.
pub digits : ℕ → ℕ → String
digits zero n = ""
digits (suc fuel) n =
    let before = digits fuel (n / 10) in if ltb n 10 then digit n else before <> digit (n % 10)

abbrev pub decimal : ℕ → String
decimal n = digits (suc n) n
