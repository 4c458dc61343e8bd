-- ===== src/Bitrate/Examples.antt =====
-- The theorems about the bitrate estimator at concrete inputs.
use peer_calls.Base.{List, [], ◌∷◌, arith}
use peer_calls.Bitrate.{new_bitrate_estimator, min_of, max_of}
use peer_calls.Bitrate.Average.{Event, report_bitrate, client_left, asked, happen_all}
use peer_calls.Bitrate.Values.{AreExtremes}
use peer_calls.Bitrate.Extremes.{estimator_extremes}

-- The client with the lowest bitrate leaves.
abbrev calls : List Event
calls = report_bitrate 1 500 ∷ report_bitrate 2 300 ∷ asked ∷ client_left 2 ∷ []

estimator_extremes_example :
    let r = happen_all calls new_bitrate_estimator in
    AreExtremes (min_of r).1 (max_of r).1 r.estimates_by_client_id
estimator_extremes_example = estimator_extremes calls (ground arith)
