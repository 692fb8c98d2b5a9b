-- ===== src/Formats/Dates.antt =====
-- validate_datetime of src/validation/validate_helpers.c against the calendar.
use jsonv.Base.{
  Option, none, some, ℕ, ◌+◌, ◌/◌, ◌%◌, ◌≤◌, ◌<◌, ◌≡◌, ◌↔◌, ◌⊎◌, refl, sym, ap, ◌∙◌, Bool, true,
  false, ◌&&◌, ◌||◌, List, [], ◌∷◌, arith, inl, inr, ◌==◌, leb, length, if◌then◌else◌,
}
use jsonv.Token.{Bytes}
use jsonv.Lexer.Cursor.{is_digit}
use jsonv.Formats.{
  has_signs, has_digits, year_of, two_digits, is_leap, date_in_range, time_in_range, is_offset,
  is_zone, skip_fraction, after_seconds, validate_datetime,
}

-- Every fourth year, but of the years of a century every fourth.
unfoldable pub gregorian_leap : ℕ → Bool
gregorian_leap year =
    if year % 400 == 0 then true else if year % 100 == 0 then false else year % 4 == 0

is_leap-gregorian_leap : (year : ℕ) → is_leap year ≡ gregorian_leap year
unfolding is_leap gregorian_leap
is_leap-gregorian_leap year = ground arith

-- The days of a month in the Gregorian calendar.
unfoldable pub days_in_month : ℕ → ℕ → ℕ
days_in_month year month =
    if month == 2
    then if gregorian_leap year then 29 else 28
    else if month == 4 || month == 6 || month == 9 || month == 11
    then 30
    else 31

pub record IsDate (year month day : ℕ) : Type 0 where
  pub month_from : 1 ≤ month
  pub month_to : month ≤ 12
  pub day_from : 1 ≤ day
  pub day_to : day ≤ days_in_month year month

pub date_in_range-IsDate :
    (year month day : ℕ) → (date_in_range year month day ≡ true) ↔ IsDate year month day
unfolding date_in_range days_in_month
date_in_range-IsDate year month day =
    let leap = is_leap-gregorian_leap year in
    (
      λ h. record {
        month_from = ground arith;
        month_to = ground arith;
        day_from = ground arith;
        day_to = ground arith;
      },
      λ d.
          let a = d.month_from in
          let b = d.month_to in let c = d.day_from in let e = d.day_to in ground arith,
    )

-- A digit, and two of them.
abbrev digit : ℕ → ℕ
digit n = b'0' + n % 10

abbrev pub pair : ℕ → Bytes → Bytes
pair n s = digit (n / 10) ∷ digit n ∷ s

-- What stands behind the seconds and their fraction: Z or z, or a sign and twice two digits.
pub data Zone : Type 0 where
  utc : (c : ℕ) → (c ≡ b'Z') ⊎ (c ≡ b'z') → Zone
  offset : (c h m : ℕ) → (c ≡ b'+') ⊎ (c ≡ b'-') → Zone

unfoldable pub zone_text : Zone → Bytes
zone_text (utc c s) = c ∷ []
zone_text (offset c h m s) = c ∷ pair h (b':' ∷ pair m [])

-- Digits of a fraction.
unfoldable pub fraction_text : List ℕ → Bytes → Bytes
fraction_text [] s = s
fraction_text (d ∷ ds) s = digit d ∷ fraction_text ds s

-- With a dot and the digits of a fraction, of which there may be none, or without.
unfoldable pub suffix_text : Option (List ℕ) → Zone → Bytes
suffix_text none z = zone_text z
suffix_text (some ds) z = b'.' ∷ fraction_text ds (zone_text z)

-- `YYYY-MM-DD`, T or t, `HH:MM:SS`, and what follows.
abbrev pub stamp : ℕ → ℕ → ℕ → ℕ → ℕ → ℕ → ℕ → Bytes → Bytes
stamp t year month day hour minute second s =
    digit (year / 1000)
    ∷ digit (year / 100)
    ∷ digit (year / 10)
    ∷ digit year
    ∷ b'-'
    ∷ pair month (b'-' ∷ pair day (t ∷ pair hour (b':' ∷ pair minute (b':' ∷ pair second s))))

is_zone-text : (z : Zone) → is_zone (zone_text z) ≡ true
unfolding is_zone zone_text is_offset is_digit
is_zone-text (utc c (inl e)) = ground arith
is_zone-text (utc c (inr e)) = ground arith
is_zone-text (offset c h m (inl e)) = ground arith
is_zone-text (offset c h m (inr e)) = ground arith

digit-is_digit : (d : ℕ) → is_digit (digit d) ≡ true
unfolding is_digit
digit-is_digit d = ground arith

zone_head : (z : Zone) → skip_fraction (zone_text z) ≡ zone_text z
unfolding skip_fraction zone_text is_digit
zone_head (utc c (inl e)) = rw e
zone_head (utc c (inr e)) = rw e
zone_head (offset c h m (inl e)) = rw e
zone_head (offset c h m (inr e)) = rw e

skip_fraction-text :
    (ds : List ℕ) (z : Zone) → skip_fraction (fraction_text ds (zone_text z)) ≡ zone_text z
unfolding skip_fraction fraction_text
skip_fraction-text [] z = zone_head z
skip_fraction-text (d ∷ ds) z =
    rw (fraction_text, skip_fraction, digit-is_digit d) (skip_fraction-text ds z)

after_seconds-text :
    (fraction : Option (List ℕ)) (z : Zone) → after_seconds (suffix_text fraction z) ≡ true
unfolding after_seconds suffix_text zone_text is_zone is_offset is_digit
after_seconds-text none (utc c (inl e)) = ground arith
after_seconds-text none (utc c (inr e)) = ground arith
after_seconds-text none (offset c h m (inl e)) = ground arith
after_seconds-text none (offset c h m (inr e)) = ground arith
after_seconds-text (some ds) z = ap is_zone (skip_fraction-text ds z) ∙ is_zone-text z

length-suffix_text : (fraction : Option (List ℕ)) (z : Zone) → 0 < length (suffix_text fraction z)
unfolding suffix_text zone_text
length-suffix_text none (utc c s) = omega arith
length-suffix_text none (offset c h m s) = omega arith
length-suffix_text (some ds) z = omega arith

and_true : (a b : Bool) → ((a && b) && true) ≡ (a && b)
and_true true true = refl
and_true true false = refl
and_true false b = refl

in_range :
    (year month day hour minute second : ℕ)
    → ((date_in_range year month day && time_in_range hour minute second) ≡ true)
      ↔ (IsDate year month day × hour ≤ 23 × minute ≤ 59 × second ≤ 60)
unfolding time_in_range
in_range year month day hour minute second =
    let (to, from) = date_in_range-IsDate year month day in
    (
      λ h.
          let d : date_in_range year month day ≡ true = ground arith in
          (to d, ground arith, ground arith, ground arith),
      λ h. let d = from h.0 in ground arith,
    )

module _ (t year month day hour minute second : ℕ) (rest : Bytes)
    (sep : (t ≡ b'T') ⊎ (t ≡ b't')) where
  abbrev whole : Bytes
  whole = stamp t year month day hour minute second rest

  has_signs-stamp : has_signs whole ≡ true
  unfolding has_signs
  has_signs-stamp = elim sep [ inl e ↦ rw e | inr e ↦ rw e ]

  has_digits-stamp : has_digits 19 0 whole ≡ true
  unfolding has_digits
  has_digits-stamp = simp (digit-is_digit)

  year_of-stamp : year < 10000 → year_of whole ≡ year
  year_of-stamp h = omega arith

  -- What is left of the check: the ranges.
  validate_datetime-stamp :
      year < 10000
      → month < 100
      → day < 100
      → hour < 100
      → minute < 100
      → second < 100
      → 0 < length rest
      → after_seconds rest ≡ true
      → validate_datetime whole ≡ (date_in_range year month day && time_in_range hour minute second)
  unfolding validate_datetime
  validate_datetime-stamp by bm bd bh bi bs l a =
      let long : leb 20 (length whole) ≡ true = ground arith in
      let y = year_of-stamp by in
      let mo : two_digits 5 whole ≡ month = omega arith in
      let da : two_digits 8 whole ≡ day = omega arith in
      let ho : two_digits 11 whole ≡ hour = omega arith in
      let mi : two_digits 14 whole ≡ minute = omega arith in
      let se : two_digits 17 whole ≡ second = omega arith in
      rw (long, has_signs-stamp, has_digits-stamp, y, mo, da, ho, mi, se, a)
        (and_true (date_in_range year month day) (time_in_range hour minute second))

-- On a text of this form: a date as four, two and two digits with dashes between, T or t, a time as twice
-- two digits and two for the seconds with colons between, perhaps a dot and digits, of which there may
-- be none, and then Z or z, or a sign and twice two digits with a colon between. validate_datetime takes it
-- exactly if the date is one of the Gregorian calendar, the hour is below 24, the minute below 60 and the
-- second at most 60. This form is wider than RFC 3339, which asks for a digit behind the dot and bounds
-- the hours and minutes of the offset; here any digits of them will do.
pub validate_datetime-IsDate :
    (t year month day hour minute second : ℕ) (fraction : Option (List ℕ)) (zone : Zone)
    → (t ≡ b'T') ⊎ (t ≡ b't')
    → year < 10000
    → month < 100
    → day < 100
    → hour < 100
    → minute < 100
    → second < 100
    → (validate_datetime (stamp t year month day hour minute second (suffix_text fraction zone))
        ≡ true)
      ↔ (IsDate year month day × hour ≤ 23 × minute ≤ 59 × second ≤ 60)
validate_datetime-IsDate t year month day hour minute second fraction zone sep by bm bd bh bi bs =
    let e =
      validate_datetime-stamp t year month day hour minute second (suffix_text fraction zone) sep by
        bm bd bh bi bs (length-suffix_text fraction zone) (after_seconds-text fraction zone) in
    let (to, from) = in_range year month day hour minute second in
    (λ h. to (sym e ∙ h), λ d. e ∙ from d)
