-- ===== src/Codecs.antt =====
-- server/codecs/registry.go: the search for a codec in the registry, and what the interceptors of a
-- stream are told of it. Of pion's types, the fields that the code reads.
pub mod Fmtp
pub mod Fold
pub mod Search
mod Examples
use peer_calls.Base.{
  ℕ, ◌≡◌, refl, Bool, true, false, ◌&&◌, Option, none, some, List, [], ◌∷◌, map, ◌==◌,
  if◌then◌else◌,
}
use peer_calls.Codecs.Fmtp.{Text, equal_fold, parse_fmtp, fmtp_consist}

pub record RtcpFeedback : Type 0 where
  pub feedback_type : Text
  pub parameter : Text

-- `nil` is none.
pub record CodecParameters : Type 0 where
  pub mime_type : Text
  pub sdp_fmtp_line : Text
  pub payload_type : ℕ
  pub rtcp_feedback : Option (List RtcpFeedback)

pub record HeaderExtension : Type 0 where
  pub id : ℕ
  pub uri : Text

pub record Props : Type 0 where
  pub codec_parameters : List CodecParameters
  pub header_extensions : Option (List HeaderExtension)

pub record Registry : Type 0 where
  pub audio : Props
  pub video : Props

-- `transport.Codec`
pub record Codec : Type 0 where
  pub mime_type : Text
  pub sdp_fmtp_line : Text

pub data MatchType : Type 0 where
  match_none match_partial match_exact : MatchType

unfoldable pub has_prefix : Text → Text → Bool
has_prefix s [] = true
has_prefix [] (p ∷ ps) = false
has_prefix (c ∷ s) (p ∷ ps) = c == p && has_prefix s ps

-- The bytes of "audio/".
abbrev pub audio_prefix : Text
audio_prefix = b'a' ∷ b'u' ∷ b'd' ∷ b'i' ∷ b'o' ∷ b'/' ∷ []

unfoldable pub is_audio : Text → Bool
is_audio mime_type = has_prefix mime_type audio_prefix

unfoldable pub props_of : Registry → Text → Props
props_of r mime_type = if is_audio mime_type then r.audio else r.video

unfoldable pub get_codecs_by_mime_type : Registry → Text → List CodecParameters
unfolding props_of
get_codecs_by_mime_type r mime_type = (props_of r mime_type).codec_parameters

unfoldable pub rtp_header_extensions_for_mime_type : Registry → Text → Option (List HeaderExtension)
unfolding props_of
rtp_header_extensions_for_mime_type r mime_type = (props_of r mime_type).header_extensions

abbrev pub same_type : Codec → CodecParameters → Bool
same_type needle c = equal_fold c.mime_type needle.mime_type

abbrev pub fits : Codec → CodecParameters → Bool
fits needle c =
    same_type needle c
    && fmtp_consist (parse_fmtp needle.sdp_fmtp_line) (parse_fmtp c.sdp_fmtp_line)

-- A loop that returns at the first codec that a test takes.
unfoldable pub first_that : (CodecParameters → Bool) → List CodecParameters → Option CodecParameters
first_that test [] = none
first_that test (c ∷ cs) = let rest = first_that test cs in if test c then some c else rest

abbrev pub no_text : Text
no_text = []

abbrev pub no_codec : CodecParameters
no_codec = record {
  mime_type = no_text;
  sdp_fmtp_line = no_text;
  payload_type = 0;
  rtcp_feedback = none;
}

unfoldable pub search_result :
    Option CodecParameters → Option CodecParameters → CodecParameters × MatchType
search_result (some c) partial = (c, match_exact)
search_result none (some c) = (c, match_partial)
search_result none none = (no_codec, match_none)

unfoldable pub fuzzy_search : Registry → Codec → CodecParameters × MatchType
fuzzy_search r needle =
    let haystack = get_codecs_by_mime_type r needle.mime_type in
    search_result (first_that (fits needle) haystack) (first_that (same_type needle) haystack)

pub record InterceptorParams : Type 0 where
  pub payload_type : ℕ
  pub rtcp_feedback : Option (List RtcpFeedback)
  pub rtp_header_extensions : Option (List HeaderExtension)

-- The copy of the feedback is a variable of the inner block, which hides the one that is returned.
unfoldable pub feedback_of : CodecParameters → Option (List RtcpFeedback)
feedback_of c =
    let rtcp_feedback : Option (List RtcpFeedback) = none in
    elim c.rtcp_feedback [
      | none ↦ rtcp_feedback
      | some fs ↦
          let inner : Option (List RtcpFeedback) = some (
            map
              (λ (fb : RtcpFeedback).
                let copy : RtcpFeedback = record {
                  feedback_type = fb.feedback_type;
                  parameter = fb.parameter;
                } in
                copy)
              fs) in
          rtcp_feedback
    ]

unfoldable pub params_at : Registry → Codec → CodecParameters × MatchType → Option InterceptorParams
params_at r codec (c, match_none) = none
params_at r codec (c, _) = some (record {
  payload_type = c.payload_type;
  rtcp_feedback = feedback_of c;
  rtp_header_extensions = rtp_header_extensions_for_mime_type r codec.mime_type;
})

-- None stands for `ErrUnsupportedMimeType`.
unfoldable pub interceptor_params_for_codec : Registry → Codec → Option InterceptorParams
interceptor_params_for_codec r codec = params_at r codec (fuzzy_search r codec)
