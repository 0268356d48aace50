-- ===== src/Tests/Dates.antt =====
-- Dates and times at concrete inputs.
use fcgi_cpp_appserver.Common.{ℕ, ◌≡◌, some, arith}
use fcgi_cpp_appserver.Common.Bytes.{codes}
use fcgi_cpp_appserver.Date.{yyyymmdd, yyyymmdd_to_julian_day}
use fcgi_cpp_appserver.Date.Calendar.{IsDate, yyyymmdd-yyyymmdd_to_julian_day}

-- The last day of February in 2012.
leap_day : IsDate 2012 2 29
leap_day = record {
  year_low = omega arith;
  year_high = omega arith;
  month_low = omega arith;
  month_high = omega arith;
  day_low = omega arith;
  day_high = omega arith;
}

yyyymmdd-yyyymmdd_to_julian_day_example :
    (j : ℕ) × (yyyymmdd_to_julian_day (codes "20120229") ≡ some j) × (yyyymmdd j ≡ codes "20120229")
yyyymmdd-yyyymmdd_to_julian_day_example = yyyymmdd-yyyymmdd_to_julian_day 2012 2 29 leap_day
