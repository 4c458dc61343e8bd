-- ===== src/Codecs/Examples.antt =====
-- A registry with one codec for audio and two for video.
use native.Mathlib.Decide.{ℕ_discrete}
use peer_calls.Base.{ℕ, ◌≡◌, ◌≢◌, ◌↔◌, ◌⊎◌, refl, true, none, some, List, [], ◌∷◌, ◌++◌}
use peer_calls.Base.Dict.{get, set, list_discrete}
use peer_calls.Codecs.Fmtp.{
  Text, lower, to_lower, equal_fold, trim_left, trim_right, trim_space, split, split_two, add_part,
  add_parts, parse_fmtp, entries_agree, fmtp_consist,
}
use peer_calls.Codecs.{
  CodecParameters, Registry, Codec, match_none, match_exact, audio_prefix, has_prefix, is_audio,
  get_codecs_by_mime_type, rtp_header_extensions_for_mime_type, first_that, search_result,
  fuzzy_search, interceptor_params_for_codec,
}
use peer_calls.Codecs.Search.{
  NoClash, Searched, Best, fmtp_consist_iff, fuzzy_search_finds,
  interceptor_params_without_feedback,
}

abbrev opus_type : Text
opus_type = audio_prefix ++ (b'o' ∷ b'p' ∷ [])

abbrev vp8_type : Text
vp8_type = b'v' ∷ b'p' ∷ b'8' ∷ []

-- "a=1; b" and "A=1;c=2"
abbrev line_one : Text
line_one = b'a' ∷ b'=' ∷ b'1' ∷ b';' ∷ b' ' ∷ b'b' ∷ []

abbrev line_two : Text
line_two = b'A' ∷ b'=' ∷ b'1' ∷ b';' ∷ b'c' ∷ b'=' ∷ b'2' ∷ []

abbrev vp8 : ℕ → Text → CodecParameters
vp8 payload_type line = record {
  mime_type = vp8_type;
  sdp_fmtp_line = line;
  payload_type = payload_type;
  rtcp_feedback = some (record { feedback_type = b'n' ∷ []; parameter = b'p' ∷ [] } ∷ []);
}

abbrev opus : CodecParameters
opus = record {
  mime_type = opus_type;
  sdp_fmtp_line = line_one;
  payload_type = 111;
  rtcp_feedback = none;
}

abbrev registry : Registry
registry = record {
  audio = record { codec_parameters = opus ∷ []; header_extensions = none };
  video = record {
    codec_parameters = vp8 96 (b'a' ∷ b'=' ∷ b'0' ∷ []) ∷ vp8 98 line_two ∷ [];
    header_extensions = none;
  };
}

abbrev needle : Codec
needle = record { mime_type = vp8_type; sdp_fmtp_line = line_one }

-- The first codec of the type has another value of `a`.
needle_found : fuzzy_search registry needle ≡ (vp8 98 line_two, match_exact)
unfolding fuzzy_search get_codecs_by_mime_type is_audio has_prefix first_that search_result
    equal_fold lower to_lower trim_left trim_right trim_space split split_two add_part add_parts
    parse_fmtp entries_agree fmtp_consist get set list_discrete ℕ_discrete
needle_found = refl

fmtp_consist_iff_example :
    (fmtp_consist (parse_fmtp line_one) (parse_fmtp line_two) ≡ true)
    ↔ NoClash (parse_fmtp line_one) (parse_fmtp line_two)
fmtp_consist_iff_example = fmtp_consist_iff line_one line_two

fuzzy_search_finds_example :
    (cs : List CodecParameters) × Searched registry needle.mime_type cs × Best registry needle cs
fuzzy_search_finds_example = fuzzy_search_finds registry needle

interceptor_params_without_feedback_example :
    ((interceptor_params_for_codec registry needle ≡ none)
      × ((fuzzy_search registry needle).1 ≡ match_none))
    ⊎ ((interceptor_params_for_codec registry needle
          ≡ some (record {
            payload_type = (fuzzy_search registry needle).0.payload_type;
            rtcp_feedback = none;
            rtp_header_extensions = rtp_header_extensions_for_mime_type registry needle.mime_type;
          }))
        × ((fuzzy_search registry needle).1 ≢ match_none))
interceptor_params_without_feedback_example = interceptor_params_without_feedback registry needle
