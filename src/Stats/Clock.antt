-- ===== src/Stats/Clock.antt =====
-- server/sfu/stats/ntp.go: the round trip through NTP times, their order, and `Middle`.
use peer_calls.Base.{ℕ, ◌+◌, ◌*◌, ◌/◌, ◌%◌, ◌≤◌, ◌<◌, ◌≡◌, arith}
use peer_calls.Stats.Ntp.{offset_ntp, nanosecond, two32, new_ntp_time, time, middle}
use peer_calls.Stats.Source.{report_times}

-- The last nanosecond before the NTP era of 1900 ends, in 2036.
abbrev pub era_end : ℕ
era_end = 2085978496000000000

-- Within the era `NewNTPTime` is the seconds since 1900 over the fraction, with nothing cut off.
new_ntp_time-parts :
    (t : ℕ)
    → t < era_end
    → new_ntp_time t ≡ (t / nanosecond + offset_ntp) * two32 + t % nanosecond * two32 / nanosecond
unfolding new_ntp_time
new_ntp_time-parts t h = omega arith

-- For a time before the end of the NTP era, in 2036: the time that comes back from its NTP time is
-- the one that went in, or one nanosecond less.
pub time-new_ntp_time :
    (t : ℕ) → t < era_end → (time (new_ntp_time t) ≤ t) × (t ≤ time (new_ntp_time t) + 1)
unfolding time
time-new_ntp_time t h = rw (new_ntp_time-parts t h) (omega arith)

-- NTP times keep the order of the times that they stand for.
pub new_ntp_time_mono : (t u : ℕ) → t ≤ u → u < era_end → new_ntp_time t ≤ new_ntp_time u
new_ntp_time_mono t u h hu =
    rw (new_ntp_time-parts t (omega arith)) (rw (new_ntp_time-parts u hu) (omega arith))

middle_low : (t : ℕ) → middle t ≡ t % 65536 * 65536
unfolding middle
middle_low t = omega arith

new_ntp_time-add_seconds :
    (t k : ℕ)
    → t + k * nanosecond < era_end
    → new_ntp_time (t + k * nanosecond) ≡ new_ntp_time t + k * two32
new_ntp_time-add_seconds t k h =
    rw (new_ntp_time-parts (t + k * nanosecond) h)
      (rw (new_ntp_time-parts t (omega arith)) (omega arith))

middle-add_seconds :
    (t k : ℕ)
    → t + k * nanosecond < era_end
    → middle (new_ntp_time (t + k * nanosecond)) ≡ middle (new_ntp_time t)
middle-add_seconds t k h =
    rw (new_ntp_time-add_seconds t k h) (
      rw (middle_low (new_ntp_time t + k * two32)) (rw (middle_low (new_ntp_time t)) (omega arith)))

-- `Middle` shifts to the left where the middle 32 bits want a shift to the right, so it keeps
-- nothing of the seconds: within the NTP era, a report that is made any whole number of seconds
-- after the sender report has the delay 0.
pub delay_whole_seconds :
    (t k : ℕ)
    → t + k * nanosecond < era_end
    → report_times (new_ntp_time t) (t + k * nanosecond) ≡ (middle (new_ntp_time t), 0)
unfolding report_times
delay_whole_seconds t k h = ground (arith, middle-add_seconds t k h, middle_low (new_ntp_time t))
