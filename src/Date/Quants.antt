-- ===== src/Date/Quants.antt =====
-- A day's quarters of an hour.
use fcgi_cpp_appserver.Common.{ℕ, ◌+◌, ◌-◌, ◌*◌, ◌/◌, ◌≤◌, ◌≡◌, arith}
use fcgi_cpp_appserver.Date.{
  word, seconds_per_day, seconds_per_quant, quants_per_day, epoch_to_julian_day, start_quant_id,
  end_quant_id,
}

-- The times at which the number of the last quant of the day still fits.
abbrev pub IsTime : ℕ → Type 0
IsTime epoch = epoch / seconds_per_day * quants_per_day + quants_per_day ≤ word

-- At a time whose day's quants have numbers that fit, the quarter of an hour that it is in lies between
-- the first quant of its day and the last, which is 95 behind the first.
pub quants_range :
    (epoch : ℕ)
    → IsTime epoch
    → (start_quant_id (epoch_to_julian_day epoch) ≤ epoch / seconds_per_quant)
      × (epoch / seconds_per_quant ≤ end_quant_id (epoch_to_julian_day epoch))
      × (end_quant_id (epoch_to_julian_day epoch)
          ≡ start_quant_id (epoch_to_julian_day epoch) + (quants_per_day - 1))
unfolding start_quant_id end_quant_id epoch_to_julian_day
quants_range epoch h = omega arith
