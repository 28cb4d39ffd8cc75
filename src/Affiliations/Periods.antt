-- ===== src/Affiliations/Periods.antt =====
-- period_bounds and the validator of AffiliationFields of src/crm/models/affiliations.py. A date is the number of
-- its digits, year, month and day, so that the order of the numbers is that of the dates.
use Prim.Native.Char.{Char, code}
use main_sequence_crmapi.Common.{
  ℕ, suc, ◌+◌, ◌-◌, ◌*◌, ◌%◌, String, Bool, not, ◌&&◌, ◌||◌, Option, none, some, List, [], ◌∷◌, leb,
  ◌==◌, if◌then◌else◌,
}

-- value.split("-"); 45 is the code of the dash
unfoldable pub split_dash : String → List String
split_dash String.[] = String.[] ∷ []
split_dash (String.◌∷◌ c rest) =
    if code c == 45 then String.[] ∷ split_dash rest else elim (split_dash rest) [
      | [] ↦ String.◌∷◌ c String.[] ∷ []
      | word ∷ words ↦ String.◌∷◌ c word ∷ words
    ]

-- an ASCII digit
abbrev pub is_digit : Char → Bool
is_digit c = leb 48 (code c) && leb (code c) 57

-- the number of a text of digits, onto the number of the digits before it
unfoldable pub digits : ℕ → String → Option ℕ
digits n String.[] = some n
digits n (String.◌∷◌ c rest) =
    let later = digits (10 * n + (code c - 48)) rest in if is_digit c then later else none

-- len(part)
unfoldable pub characters : String → ℕ
characters String.[] = 0
characters (String.◌∷◌ c rest) = suc (characters rest)

-- a part of so many digits
unfoldable pub part : ℕ → String → Option ℕ
unfolding digits characters
part size s = if characters s == size then digits 0 s else none

-- calendar.isleap and calendar.monthrange
abbrev pub is_leap : ℕ → Bool
is_leap y = (y % 4 == 0) && (not (y % 100 == 0) || (y % 400 == 0))

unfoldable pub month_days : ℕ → ℕ → ℕ
month_days y m =
    if m == 2
    then (if is_leap y then 29 else 28)
    else if m == 4 || m == 6 || m == 9 || m == 11
    then 30
    else 31

abbrev pub date : ℕ → ℕ → ℕ → ℕ
date y m d = 10000 * y + 100 * m + d

abbrev pub year_ok : ℕ → Bool
year_ok y = leb 1 y && leb y 9999

abbrev pub month_ok : ℕ → Bool
month_ok m = leb 1 m && leb m 12

abbrev pub year_bounds : ℕ → Option (ℕ × ℕ)
year_bounds y = if year_ok y then some (date y 1 1, date y 12 31) else none

unfoldable pub month_bounds : ℕ → ℕ → Option (ℕ × ℕ)
unfolding month_days
month_bounds y m =
    if year_ok y && month_ok m then some (date y m 1, date y m (month_days y m)) else none

unfoldable pub day_bounds : ℕ → ℕ → ℕ → Option (ℕ × ℕ)
unfolding month_days
day_bounds y m d =
    if year_ok y && month_ok m && leb 1 d && leb d (month_days y m)
    then some (date y m d, date y m d)
    else none

abbrev pub bounds_of_month : Option ℕ → Option ℕ → Option (ℕ × ℕ)
bounds_of_month none m = none
bounds_of_month (some y) none = none
bounds_of_month (some y) (some m) = month_bounds y m

abbrev pub bounds_of_day : Option ℕ → Option ℕ → Option ℕ → Option (ℕ × ℕ)
bounds_of_day none m d = none
bounds_of_day (some y) none d = none
bounds_of_day (some y) (some m) none = none
bounds_of_day (some y) (some m) (some d) = day_bounds y m d

unfoldable pub bounds_of_parts : List String → Option (ℕ × ℕ)
unfolding part
bounds_of_parts [] = none
bounds_of_parts (y ∷ []) = elim (part 4 y) [ none ↦ none | some year ↦ year_bounds year ]
bounds_of_parts (y ∷ m ∷ []) = bounds_of_month (part 4 y) (part 2 m)
bounds_of_parts (y ∷ m ∷ d ∷ []) = bounds_of_day (part 4 y) (part 2 m) (part 2 d)
bounds_of_parts (y ∷ m ∷ d ∷ e ∷ rest) = none

-- None where the source raises ValueError
unfoldable pub period_bounds : String → Option (ℕ × ℕ)
unfolding split_dash bounds_of_parts
period_bounds value = bounds_of_parts (split_dash value)
