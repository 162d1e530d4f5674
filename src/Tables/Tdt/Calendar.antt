-- ===== src/Tables/Tdt/Calendar.antt =====
-- parseTdtTable against the calendar: the year, the month and the day that it makes of the
-- modified Julian date of a day since March 1900 (tables_parser.c).
use ppu_tvi_os.Common.{
  ℕ, suc, ◌+◌, ◌-◌, ◌*◌, ◌/◌, ◌≤◌, ◌<◌, ◌≡◌, refl, ap, ◌∙◌, some, arith, get_or,
}
use ppu_tvi_os.Common.Words.{low_bits, all_16_bits}
use ppu_tvi_os.Common.Outcome.{Pointer, byte_at, Readable, Returns, read-done}
use ppu_tvi_os.Tables.Code.{tables_parse_ok}
use native.Mathlib.Decide.{dec_lt}
use ppu_tvi_os.Tables.Tdt.{
  parse_tdt_table, TdtTable, estimate_year, estimate_month, finish_date, convert_date,
}
use ppu_tvi_os.Tables.Tdt.Dates.{leap_day, common_year, mjd_of, IsDate, source_day}

-- A date by the first step of the source: `o` counts the days behind the first of January.
estimate_year_spring :
    (y o : ℕ)
    → y < 139
    → 59 ≤ o
    → o ≤ 364
    → estimate_year (15020 + 365 * y + (y - 1) / 4 + (leap_day y + o)) ≡ y
unfolding estimate_year
estimate_year_spring y o hy lo hi = ground arith

estimate_year_winter :
    (y o : ℕ)
    → 1 ≤ y
    → y < 139
    → o ≤ 58 + leap_day y
    → estimate_year (15020 + 365 * y + (y - 1) / 4 + o) ≡ y - 1
unfolding estimate_year
estimate_year_winter y o lo hy hi = ground arith

estimate_month_spring :
    (y o : ℕ)
    → y < 139
    → o ≤ 364
    → estimate_month (15020 + 365 * y + (y - 1) / 4 + (leap_day y + o)) y
      ≡ (10000 * o + 639000) / 306001
unfolding estimate_month
estimate_month_spring y o hy hi = ground arith

estimate_month_winter :
    (y o : ℕ)
    → 1 ≤ y
    → y < 139
    → o ≤ 59
    → estimate_month (15020 + 365 * y + (y - 1) / 4 + o) (y - 1) ≡ (10000 * o + 4289000) / 306001
unfolding estimate_month
estimate_month_winter y o lo hy hi = ground arith

-- What a table says of a date.
abbrev pub Reads : ℕ → ℕ → ℕ → TdtTable → Type 0
Reads y month d t = (t.year ≡ 1900 + y) × (t.tmp_month ≡ month) × (t.day ≡ source_day y month d)

-- The second step, from March to December: the month is one more than it should be. The clause for
-- thirteen and more makes the last one stand for each month.
finish_spring :
    (t : TdtTable) (y month d : ℕ)
    → 3 ≤ month
    → IsDate y month d
    → y < 139
    → t.mjd ≡ mjd_of y month d
    → Reads y month d (finish_date t y (month + 1))
unfolding finish_date
finish_spring t y (suc (suc (suc (suc (suc (suc (suc (suc (suc (suc (suc (suc (suc n))))))))))))) d
      m v hy e =
    absurd (omega arith)
finish_spring t y _ d m v hy e = ground arith

finish_winter :
    (t : TdtTable) (y month d : ℕ)
    → month < 3
    → IsDate y month d
    → y < 139
    → t.mjd ≡ mjd_of y month d
    → Reads y month d (finish_date t (y - 1) (month + 13))
unfolding finish_date
finish_winter t y (suc (suc (suc n))) d m v hy e = absurd (omega arith)
finish_winter t y _ d m v hy e = ground arith

-- The days behind the first of January in a common year.
abbrev offset_of : ℕ → ℕ → ℕ
offset_of month d = (get_or common_year (month - 1) (0, 0)).0 + (d - 1)

offset_of_spring :
    (y month d : ℕ)
    → 3 ≤ month
    → IsDate y month d
    → (59 ≤ offset_of month d)
      × (offset_of month d ≤ 364)
      × ((10000 * offset_of month d + 639000) / 306001 ≡ month + 1)
      × (mjd_of y month d ≡ 15020 + 365 * y + (y - 1) / 4 + (leap_day y + offset_of month d))
offset_of_spring y (suc (suc (suc (suc (suc (suc (suc (suc (suc (suc (suc (suc (suc n))))))))))))) d
      m v =
    absurd (omega arith)
offset_of_spring y _ d m v = ground arith

offset_of_winter :
    (y month d : ℕ)
    → month < 3
    → IsDate y month d
    → (offset_of month d ≤ 58 + leap_day y)
      × ((10000 * offset_of month d + 4289000) / 306001 ≡ month + 13)
      × (mjd_of y month d ≡ 15020 + 365 * y + (y - 1) / 4 + offset_of month d)
offset_of_winter y (suc (suc (suc n))) d m v = absurd (omega arith)
offset_of_winter y _ d m v = ground arith

convert_spring :
    (t : TdtTable) (y month d : ℕ)
    → 3 ≤ month
    → IsDate y month d
    → y < 139
    → t.mjd ≡ mjd_of y month d
    → Reads y month d (convert_date t)
unfolding convert_date
convert_spring t y month d m v hy e =
    let (lo, hi, found, split) = offset_of_spring y month d m v in
    let o = offset_of month d in
    let ey : estimate_year t.mjd ≡ y =
      ap estimate_year (e ∙ split) ∙ estimate_year_spring y o hy lo hi in
    let em : estimate_month t.mjd y ≡ month + 1 =
      ap (λ k. estimate_month k y) (e ∙ split) ∙ estimate_month_spring y o hy hi ∙ found in
    rw (ey, em) (finish_spring t y month d m v hy e)

convert_winter :
    (t : TdtTable) (y month d : ℕ)
    → month < 3
    → IsDate y month d
    → y < 139
    → t.mjd ≡ mjd_of y month d
    → Reads y month d (convert_date t)
unfolding convert_date
convert_winter t y month d m v hy e =
    let (hi, found, split) = offset_of_winter y month d m v in
    let o = offset_of month d in
    let lo : 1 ≤ y = omega (arith, v.since_march) in
    let small : o ≤ 59 = ground arith in
    let ey : estimate_year t.mjd ≡ y - 1 =
      ap estimate_year (e ∙ split) ∙ estimate_year_winter y o lo hy hi in
    let em : estimate_month t.mjd (y - 1) ≡ month + 13 =
      ap (λ k. estimate_month k (y - 1)) (e ∙ split)
      ∙ estimate_month_winter y o lo hy small
      ∙ found in
    rw (ey, em) (finish_winter t y month d m v hy e)

-- Of the modified Julian date of any day from March 1900 on that fits its 16 bits, in a buffer of at
-- least five bytes, parseTdtTable
-- makes the right year and month. The day is right in March, April, June, August, September and
-- November; it is one too small in May, July, October and December, and one (in a leap year) or
-- two too large in January and February.
pub parse_tdt_table-mjd_of :
    (p : Pointer) (t : TdtTable) (y month d : ℕ)
    → Readable p 5
    → IsDate y month d
    → all_16_bits (byte_at p 3) (byte_at p 4) ≡ mjd_of y month d
    → Returns
        (parse_tdt_table (some p) (some t))
        (λ r. (r.0 ≡ tables_parse_ok) × (t' : TdtTable) × (r.1 ≡ some t') × Reads y month d t')
unfolding parse_tdt_table
parse_tdt_table-mjd_of p t y month d r v e =
    let t0 = record t {
      table_id = byte_at p 0;
      section_length = low_bits (all_16_bits (byte_at p 1) (byte_at p 2)) 12;
      mjd = all_16_bits (byte_at p 3) (byte_at p 4);
    } in
    (
      (tables_parse_ok, some (convert_date t0)),
      rw (
        read-done p 0 (omega arith),
        read-done p 1 (omega arith),
        read-done p 2 (omega arith),
        read-done p 3 (omega arith),
        read-done p 4 (omega arith),
      ),
      (refl, convert_date t0, refl, converted t0 e),
    )
  where
    soon : y < 139
    soon = omega arith

    converted : (t0 : TdtTable) → t0.mjd ≡ mjd_of y month d → Reads y month d (convert_date t0)
    converted t0 e0 = elim (dec_lt month 3) [
      | yes winter ↦ convert_winter t0 y month d winter v soon e0
      | no spring ↦ convert_spring t0 y month d (omega arith) v soon e0
    ]
