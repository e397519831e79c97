-- ===== src/Duration.antt =====
-- frontend/src/lib/utils.ts: formatDuration. A duration is in thousandths of a second; the
-- worker keeps hundredths.
mod Examples
use scan_tls.Common.{
  Text, str, ℕ, ◌+◌, ◌*◌, ◌/◌, ◌%◌, ◌≤◌, ◌<◌, Bool, true, false, List, ◌++◌, Option, none, some,
  ltb, if◌then◌else◌, ◌≡◌, ◌↔◌, refl, arith,
}
use scan_tls.Value.{show_nat}

-- `Math.round` of a number of thousandths
abbrev pub round : ℕ → ℕ
round ms = (ms + 500) / 1000

unfoldable pub format_duration : Option ℕ → Text
format_duration none = str "—"
format_duration (some ms) =
    if ltb ms 60000
    then show_nat (round ms) ++ str " s"
    else show_nat (ms / 60000) ++ (str " min " ++ (show_nat (round (ms % 60000)) ++ str " s"))

-- The text of `m` minutes and `s` seconds.
abbrev pub minutes_text : ℕ → ℕ → Text
minutes_text m s = show_nat m ++ (str " min " ++ (show_nat s ++ str " s"))

format_duration-minutes :
    (ms m s : ℕ)
    → 60000 ≤ ms
    → ms / 60000 ≡ m
    → round (ms % 60000) ≡ s
    → format_duration (some ms) ≡ minutes_text m s
unfolding format_duration
format_duration-minutes ms m s h em es =
    let long : ltb ms 60000 ≡ false = ground arith in rw (long, em, es) refl

-- From a minute on, the minutes and seconds that are told differ from the duration by half a second
-- at most; the seconds are at most 60, and they are 60, with the minute not counted, exactly in the
-- last half second before a full minute.
pub format_duration_lem :
    (ms : ℕ)
    → 60000 ≤ ms
    → (s : ℕ) × (format_duration (some ms) ≡ minutes_text (ms / 60000) s)
      × (s ≤ 60)
      × ((s ≡ 60) ↔ (59500 ≤ ms % 60000))
      × (60000 * (ms / 60000) + 1000 * s ≤ ms + 500)
      × (ms < 60000 * (ms / 60000) + 1000 * s + 500)
format_duration_lem ms h = (
  round (ms % 60000),
  format_duration-minutes ms (ms / 60000) (round (ms % 60000)) h refl refl,
  omega arith,
  (λ e. omega arith, λ e. omega arith),
  omega arith,
  omega arith,
)
