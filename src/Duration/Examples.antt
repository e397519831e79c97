-- ===== src/Duration/Examples.antt =====
-- Runs of formatDuration, and its theorems at concrete inputs.
use scan_tls.Common.{str, ℕ, ◌+◌, ◌*◌, ◌/◌, ◌%◌, ◌↔◌, ◌≤◌, ◌<◌, some, ◌≡◌, refl, arith}
use scan_tls.Value.{show_nat}
use scan_tls.Duration.{format_duration, minutes_text, format_duration_lem}

short : format_duration (some 59700) ≡ str "60 s"
unfolding format_duration show_nat
short = refl

long : format_duration (some 65000) ≡ str "1 min 5 s"
unfolding format_duration show_nat
long = refl

format_duration_lem_example :
    (s : ℕ) × (format_duration (some 119700) ≡ minutes_text (119700 / 60000) s)
    × (s ≤ 60)
    × ((s ≡ 60) ↔ (59500 ≤ 119700 % 60000))
    × (60000 * (119700 / 60000) + 1000 * s ≤ 119700 + 500)
    × (119700 < 60000 * (119700 / 60000) + 1000 * s + 500)
format_duration_lem_example = format_duration_lem 119700 (omega arith)

sixty : format_duration (some 119700) ≡ str "1 min 60 s"
unfolding format_duration show_nat
sixty = refl
