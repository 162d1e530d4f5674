-- ===== src/Tables/Tdt/Dates.antt =====
-- The calendar since 1900 and the modified Julian date, and the day of the month that parseTdtTable
-- makes of a date (tables_parser.c).
use ppu_tvi_os.Common.{
  ℕ, ◌+◌, ◌-◌, ◌*◌, ◌/◌, ◌%◌, ◌≤◌, if◌then◌else◌, ◌==◌, leb, ◌||◌, ◌&&◌, ltb, List, [], ◌∷◌, get_or,
}

-- Years count from 1900. The Gregorian rule for 1900 to 2099: 1900 is no leap year.
abbrev pub leap_day : ℕ → ℕ
leap_day y = if y % 4 == 0 && ltb 0 y then 1 else 0

-- The days of a common year before a month, and the days of the month.
abbrev pub common_year : List (ℕ × ℕ)
common_year =
    (0, 31)
    ∷ (31, 28)
    ∷ (59, 31)
    ∷ (90, 30)
    ∷ (120, 31)
    ∷ (151, 30)
    ∷ (181, 31)
    ∷ (212, 31)
    ∷ (243, 30)
    ∷ (273, 31)
    ∷ (304, 30)
    ∷ (334, 31)
    ∷ []

abbrev pub days_before : ℕ → ℕ → ℕ
days_before y month =
    (get_or common_year (month - 1) (0, 0)).0 + (if ltb 2 month then leap_day y else 0)

abbrev pub month_length : ℕ → ℕ → ℕ
month_length y month =
    (get_or common_year (month - 1) (0, 0)).1 + (if month == 2 then leap_day y else 0)

-- The modified Julian date: 15020 is the first of January 1900.
abbrev pub mjd_of : ℕ → ℕ → ℕ → ℕ
mjd_of y month d = 15020 + 365 * y + (y - 1) / 4 + days_before y month + (d - 1)

-- A day from March 1900 on.
pub record IsDate (y month d : ℕ) : Type 0 where
  pub month_low : 1 ≤ month
  pub month_high : month ≤ 12
  pub day_low : 1 ≤ d
  pub day_high : d ≤ month_length y month
  pub since_march : 3 ≤ 12 * y + month

-- The day that the source computes: its second formula uses tmpYear and tmpMonth after they have
-- been carried over, and makes up for that by 31 days at every date.
abbrev pub source_day : ℕ → ℕ → ℕ → ℕ
source_day y month d =
    if leb month 2
    then d + 2 - leap_day y
    else if month == 5 || month == 7 || month == 10 || month == 12
    then d - 1
    else d
