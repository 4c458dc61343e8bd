-- ===== src/Stats/Ntp.antt =====
-- server/sfu/stats/ntp.go: 64-bit NTP times, 32 bits of seconds since 1900 over 32 bits of
-- fraction. A `time.Time` is its `UnixNano` as a uint64.
use peer_calls.Base.{ℕ, ◌+◌, ◌-◌, ◌*◌, ◌/◌, ◌%◌}

-- `offsetNTP`: the seconds from 1900 to 1970.
abbrev pub offset_ntp : ℕ
offset_ntp = 2208988800

abbrev pub nanosecond : ℕ
nanosecond = 1000000000

abbrev pub two32 : ℕ
two32 = 4294967296

abbrev pub two64 : ℕ
two64 = 18446744073709551616

unfoldable pub new_ntp_time : ℕ → ℕ
new_ntp_time unix_nano =
    let seconds = (unix_nano / nanosecond + offset_ntp) % two64 * two32 % two64 in
    let fraction = unix_nano % nanosecond * two32 % two64 / nanosecond in
    (seconds + fraction) % two64

-- `NTPTime.Time`, as the nanoseconds that it hands to `time.Unix`.
unfoldable pub time : ℕ → ℕ
time t =
    let seconds = (t / two32 + two64 - offset_ntp) % two64 in
    let fraction = t % two32 * nanosecond % two64 / two32 in
    (seconds * nanosecond % two64 + fraction) % two64

-- `uint32(t << 16)`
unfoldable pub middle : ℕ → ℕ
middle t = t * 65536 % two64 % two32
