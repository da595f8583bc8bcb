-- ===== src/Sink/Interval.antt =====
-- The decimation intervals that obsj/src/sink.rs accepts.
use convobs_rs.Base.{ℕ, ◌*◌, ◌/◌, ◌%◌, ◌≤◌, ◌≡◌, ◌↔◌, arith}
use convobs_rs.Base.Int.{ℤ, pos, negsuc, tdiv, tmod}
use convobs_rs.Error.{ok}
use convobs_rs.Sink.{decimation_interval_ticks, day_ns}

-- An interval is accepted exactly when it is a second or more, a whole number of ticks, and
-- divides a day; the answer is its length in ticks.
pub decimation_interval_ticks_iff :
    (n t : ℤ)
    → (decimation_interval_ticks n ≡ ok t)
      ↔ ((k : ℕ) × (n ≡ pos (k * 100)) × (t ≡ pos k) × (10000000 ≤ k) × (day_ns % (k * 100) ≡ 0))
unfolding decimation_interval_ticks tdiv tmod
decimation_interval_ticks_iff (pos n) t = (
  λ h. (n / 100, ground arith, ground arith, ground arith, ground arith),
  λ h. let (k, e, f, le, div) = h in ground arith,
)
decimation_interval_ticks_iff (negsuc n) t = (λ h. ground arith, λ h. ground arith)
