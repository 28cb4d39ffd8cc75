-- ===== src/Affiliations/Calendar.antt =====
-- The periods of src/crm/models/affiliations.py against the Gregorian calendar.
use main_sequence_crmapi.Common.{
  ℕ, zero, suc, ◌+◌, ◌-◌, ◌/◌, ◌%◌, ◌≤◌, String, ◌≡◌, refl, sym, ◌⊎◌, inl, inr, some, List, [], ◌∷◌,
  arith, ◌==◌, if◌then◌else◌, Bool-cases, Option-cases,
}
use main_sequence_crmapi.Affiliations.Periods.{
  split_dash, part, is_leap, month_days, date, year_bounds, month_bounds, day_bounds,
  bounds_of_parts, period_bounds,
}

-- the leap days of the years 1 to `y`
abbrev pub leap_days : ℕ → ℕ
leap_days y = y / 4 + y / 400 - y / 100

abbrev pub nth : List ℕ → ℕ → ℕ
nth [] n = 0
nth (d ∷ days) zero = d
nth (d ∷ days) (suc n) = nth days n

-- the days of a month, January being 1: February takes the leap day that its year brings
abbrev pub month_length : ℕ → ℕ → ℕ
month_length y m =
    nth
      (0
        ∷ 31
        ∷ (28 + (leap_days y - leap_days (y - 1)))
        ∷ 31
        ∷ 30
        ∷ 31
        ∷ 30
        ∷ 31
        ∷ 31
        ∷ 30
        ∷ 31
        ∷ 30
        ∷ 31
        ∷ [])
      m

leap_lem : (y : ℕ) → 1 ≤ y → (if is_leap y then 29 else 28) ≡ 28 + (leap_days y - leap_days (y - 1))
leap_lem y h = elim (Bool-cases (y % 4 == 0)) [
  | inl e ↦ elim (Bool-cases (y % 100 == 0)) [
    | inl f ↦ elim (Bool-cases (y % 400 == 0)) [
      | inl g ↦ ground (arith, e, f, g)
      | inr g ↦ ground (arith, e, f, g)
    ]
    | inr f ↦ ground (arith, e, f)
  ]
  | inr e ↦ ground (arith, e)
]

month_days_lem : (y m : ℕ) → 1 ≤ y → 1 ≤ m → m ≤ 12 → month_days y m ≡ month_length y m
unfolding main_sequence_crmapi.Affiliations.Periods.month_days
month_days_lem y zero h low high = ground arith
month_days_lem y (suc zero) h low high = refl
month_days_lem y (suc (suc zero)) h low high = leap_lem y h
month_days_lem y (suc (suc (suc zero))) h low high = refl
month_days_lem y (suc (suc (suc (suc zero)))) h low high = refl
month_days_lem y (suc (suc (suc (suc (suc zero))))) h low high = refl
month_days_lem y (suc (suc (suc (suc (suc (suc zero)))))) h low high = refl
month_days_lem y (suc (suc (suc (suc (suc (suc (suc zero))))))) h low high = refl
month_days_lem y (suc (suc (suc (suc (suc (suc (suc (suc zero)))))))) h low high = refl
month_days_lem y (suc (suc (suc (suc (suc (suc (suc (suc (suc zero))))))))) h low high = refl
month_days_lem y (suc (suc (suc (suc (suc (suc (suc (suc (suc (suc zero)))))))))) h low high = refl
month_days_lem y (suc (suc (suc (suc (suc (suc (suc (suc (suc (suc (suc zero))))))))))) h low high =
    refl
month_days_lem y (suc (suc (suc (suc (suc (suc (suc (suc (suc (suc (suc (suc zero)))))))))))) h low
      high =
    refl
month_days_lem y (suc (suc (suc (suc (suc (suc (suc (suc (suc (suc (suc (suc (suc m))))))))))))) h
      low high =
    ground arith

-- a day of the years 1 to 9999
abbrev pub IsDay : ℕ → ℕ → ℕ → Type 0
IsDay y m d = (1 ≤ y) × (y ≤ 9999) × (1 ≤ m) × (m ≤ 12) × (1 ≤ d) × (d ≤ month_length y m)

-- the bounds are the first and the last of a run of days within a year: one day, or from the first day of
-- a month to the last day of one
abbrev pub AreBounds : ℕ → ℕ → Type 0
AreBounds lower upper =
    (y : ℕ) × (m : ℕ) × (d : ℕ) × (n : ℕ) × (e : ℕ) × (lower ≡ date y m d)
    × (upper ≡ date y n e)
    × IsDay y m d
    × IsDay y n e
    × (lower ≤ upper)
    × ((lower ≡ upper) ⊎ ((d ≡ 1) × (e ≡ month_length y n)))

year-AreBounds : (y lower upper : ℕ) → year_bounds y ≡ some (lower, upper) → AreBounds lower upper
year-AreBounds y lower upper h =
    let low : 1 ≤ y = ground (arith, h) in
    let high : y ≤ 9999 = ground (arith, h) in
    (
      y,
      1,
      1,
      12,
      31,
      ground (arith, h),
      ground (arith, h),
      (low, high, omega arith, omega arith, omega arith, omega arith),
      (low, high, omega arith, omega arith, omega arith, omega arith),
      ground (arith, h),
      inr (refl, refl),
    )

month_length_lem : (y m : ℕ) → 1 ≤ y → 1 ≤ m → m ≤ 12 → 1 ≤ month_length y m
unfolding main_sequence_crmapi.Affiliations.Periods.month_days
month_length_lem y m h low high =
    let same = month_days_lem y m h low high in rw (sym same) (ground arith)

month-AreBounds :
    (y m lower upper : ℕ) → month_bounds y m ≡ some (lower, upper) → AreBounds lower upper
unfolding main_sequence_crmapi.Affiliations.Periods.month_bounds
month-AreBounds y m lower upper h =
    let low : 1 ≤ y = ground (arith, h) in
    let high : y ≤ 9999 = ground (arith, h) in
    let first : 1 ≤ m = ground (arith, h) in
    let last : m ≤ 12 = ground (arith, h) in
    let days : month_days y m ≡ month_length y m = month_days_lem y m low first last in
    let one : 1 ≤ month_length y m = month_length_lem y m low first last in
    (
      y,
      m,
      1,
      m,
      month_length y m,
      ground (arith, h),
      rw (sym days) (ground (arith, h)),
      (low, high, first, last, omega arith, one),
      (low, high, first, last, one, omega arith),
      ground (arith, h, days, one),
      inr (refl, refl),
    )

day-AreBounds :
    (y m d lower upper : ℕ) → day_bounds y m d ≡ some (lower, upper) → AreBounds lower upper
unfolding main_sequence_crmapi.Affiliations.Periods.day_bounds
day-AreBounds y m d lower upper h =
    let low : 1 ≤ y = ground (arith, h) in
    let high : y ≤ 9999 = ground (arith, h) in
    let first : 1 ≤ m = ground (arith, h) in
    let last : m ≤ 12 = ground (arith, h) in
    let one : 1 ≤ d = ground (arith, h) in
    let days : month_days y m ≡ month_length y m = month_days_lem y m low first last in
    let end : d ≤ month_length y m = rw (sym days) (ground (arith, h)) in
    (
      y,
      m,
      d,
      m,
      d,
      ground (arith, h),
      ground (arith, h),
      (low, high, first, last, one, end),
      (low, high, first, last, one, end),
      ground (arith, h),
      inl (ground (arith, h)),
    )

parts-AreBounds :
    (parts : List String) (lower upper : ℕ)
    → bounds_of_parts parts ≡ some (lower, upper)
    → AreBounds lower upper
unfolding main_sequence_crmapi.Affiliations.Periods.bounds_of_parts
parts-AreBounds [] lower upper h = ground (arith, h)
parts-AreBounds (y ∷ []) lower upper h = elim (Option-cases (part 4 y)) [
  | inl e ↦ ground (arith, h, e)
  | inr (year, e) ↦ year-AreBounds year lower upper (ground (arith, h, e))
]
parts-AreBounds (y ∷ m ∷ []) lower upper h = elim (Option-cases (part 4 y)) [
  | inl e ↦ ground (arith, h, e)
  | inr (year, e) ↦ elim (Option-cases (part 2 m)) [
    | inl f ↦ ground (arith, h, e, f)
    | inr (month, f) ↦ month-AreBounds year month lower upper (ground (arith, h, e, f))
  ]
]
parts-AreBounds (y ∷ m ∷ d ∷ []) lower upper h = elim (Option-cases (part 4 y)) [
  | inl e ↦ ground (arith, h, e)
  | inr (year, e) ↦ elim (Option-cases (part 2 m)) [
    | inl f ↦ ground (arith, h, e, f)
    | inr (month, f) ↦ elim (Option-cases (part 2 d)) [
      | inl g ↦ ground (arith, h, e, f, g)
      | inr (day, g) ↦ day-AreBounds year month day lower upper (ground (arith, h, e, f, g))
    ]
  ]
]
parts-AreBounds (y ∷ m ∷ d ∷ e ∷ rest) lower upper h = ground (arith, h)

-- The two bounds of a period that is accepted are days of the Gregorian calendar in a year from 1 to 9999,
-- with its leap years, in their order: one day, or the first day of a month and the last day of a month.
pub period_bounds_days :
    (value : String) (lower upper : ℕ)
    → period_bounds value ≡ some (lower, upper)
    → AreBounds lower upper
unfolding main_sequence_crmapi.Affiliations.Periods.period_bounds
period_bounds_days value lower upper h = parts-AreBounds (split_dash value) lower upper h
