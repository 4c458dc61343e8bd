-- ===== src/Codecs/Search.antt =====
-- server/codecs: what the search finds, and what the interceptors are told.
use peer_calls.Base.{
  ◌≡◌, ◌≢◌, ◌↔◌, ◌⊎◌, ◌∙◌, refl, sym, ap, arith, Bool, true, Option, none, some, List, [], ◌∷◌,
  ◌++◌, All, All-map, Bool-cases, inl, inr,
}
use peer_calls.Base.Dict.{get}
use peer_calls.Base.Entries.{get-All, IsMap, IsMap-set, entries-get}
use peer_calls.Codecs.Fmtp.{
  Text, text_discrete, to_lower, equal_fold, trim_space, split, split_two, Fmtp, or_no_text,
  add_part, add_parts, parse_fmtp, agrees, entries_agree, fmtp_consist,
}
use peer_calls.Codecs.Fold.{equal_fold_iff, has_prefix_iff}
use peer_calls.Codecs.{
  audio_prefix, has_prefix, is_audio, CodecParameters, Registry, Codec, MatchType, match_none,
  match_partial, match_exact, get_codecs_by_mime_type, rtp_header_extensions_for_mime_type,
  same_type, fits, first_that, no_codec, search_result, fuzzy_search, feedback_of, params_at,
  interceptor_params_for_codec,
}

equal_fold_comm : (s t : Text) → equal_fold s t ≡ equal_fold t s
unfolding equal_fold
equal_fold_comm [] [] = refl
equal_fold_comm [] (d ∷ t) = refl
equal_fold_comm (c ∷ s) [] = refl
equal_fold_comm (c ∷ s) (d ∷ t) = ground (arith, equal_fold_comm s t)

add_parts-IsMap : (ps : List Text) (f : Fmtp) → IsMap f → IsMap (add_parts ps f)
unfolding add_parts add_part
add_parts-IsMap [] f h = h
add_parts-IsMap (p ∷ ps) f h =
    let (key, value) = split_two b'=' (trim_space p) in
    add_parts-IsMap ps (add_part p f)
      (IsMap-set text_discrete (to_lower key) (or_no_text value) f h)

parse_fmtp-IsMap : (line : Text) → IsMap (parse_fmtp line)
unfolding parse_fmtp
parse_fmtp-IsMap line = add_parts-IsMap (split b';' line) [] tt

abbrev Agrees : Fmtp → Text × Text → Type 0
Agrees b e = agrees e.1 (get text_discrete e.0 b) ≡ true

entries_agree_iff : (a b : Fmtp) → (entries_agree a b ≡ true) ↔ All (Agrees b) a
unfolding entries_agree
entries_agree_iff [] b = (λ h. tt, λ h. refl)
entries_agree_iff ((k, v) ∷ a) b = elim (Bool-cases (agrees v (get text_discrete k b))) [
  | inl good ↦
      rw good ((λ h. (refl, (entries_agree_iff a b).0 h)), (λ h. (entries_agree_iff a b).1 h.1))
  | inr bad ↦ rw bad ((λ h. cc h), (λ h. cc h.0))
]

-- No parameter has two values that differ by more than case.
abbrev pub NoClash : Fmtp → Fmtp → Type 0
NoClash a b =
    (k v w : Text)
    → get text_discrete k a ≡ some v
    → get text_discrete k b ≡ some w
    → equal_fold v w ≡ true

found-Agrees :
    (a b : Fmtp) (k v w : Text)
    → All (Agrees b) a
    → get text_discrete k a ≡ some v
    → get text_discrete k b ≡ some w
    → equal_fold v w ≡ true
found-Agrees a b k v w h g e =
    equal_fold_comm v w ∙ sym (ap (agrees v) e) ∙ get-All text_discrete (Agrees b) k a h g

NoClash-All : (a b : Fmtp) → IsMap a → NoClash a b → All (Agrees b) a
NoClash-All a b m h =
    All-map (λ e g. by_option e.0 e.1 (get text_discrete e.0 b) g refl) a
      (entries-get text_discrete a m)
  where
    by_option :
        (k v : Text) (o : Option Text)
        → get text_discrete k a ≡ some v
        → get text_discrete k b ≡ o
        → agrees v o ≡ true
    by_option k v none g e = refl
    by_option k v (some w) g e = equal_fold_comm w v ∙ h k v w g e

-- The parameters of two lines are consistent exactly when no parameter that both have has values
-- that differ by more than case.
pub fmtp_consist_iff :
    (s t : Text)
    → (fmtp_consist (parse_fmtp s) (parse_fmtp t) ≡ true) ↔ NoClash (parse_fmtp s) (parse_fmtp t)
unfolding fmtp_consist
fmtp_consist_iff s t =
    let a = parse_fmtp s in
    let b = parse_fmtp t in
    (
      (λ h k v w g e. found-Agrees a b k v w ((entries_agree_iff a b).0 (ground (arith, h))) g e),
      (λ h.
          let there = (entries_agree_iff a b).1 (NoClash-All a b (parse_fmtp-IsMap s) h) in
          let back = (entries_agree_iff b a).1 (
            NoClash-All b a (parse_fmtp-IsMap t)
              (λ k v w g e. equal_fold_comm v w ∙ h k w v e g)) in
          ground (arith, there, back)),
    )

-- The codec has the type of the needle, up to case.
abbrev pub SameType : Codec → CodecParameters → Type 0
SameType needle c = to_lower c.mime_type ≡ to_lower needle.mime_type

-- It also has no parameter with another value than the needle's.
abbrev pub Fits : Codec → CodecParameters → Type 0
Fits needle c =
    SameType needle c × NoClash (parse_fmtp needle.sdp_fmtp_line) (parse_fmtp c.sdp_fmtp_line)

fits_iff : (needle : Codec) (c : CodecParameters) → (fits needle c ≡ true) ↔ Fits needle c
fits_iff needle c =
    let fold = equal_fold_iff c.mime_type needle.mime_type in
    let consist = fmtp_consist_iff needle.sdp_fmtp_line c.sdp_fmtp_line in
    (
      (λ h. (fold.0 (ground (arith, h)), consist.0 (ground (arith, h)))),
      (λ (same, good). ground (arith, fold.1 same, consist.1 good)),
    )

-- The first of a list with a property.
abbrev pub IsFirst : (CodecParameters → Type 0) → List CodecParameters → CodecParameters → Type 0
IsFirst P cs c =
    (earlier : List CodecParameters) × (later : List CodecParameters) × (cs
      ≡ earlier ++ (c ∷ later))
    × P c
    × All (λ d. ¬ P d) earlier

abbrev pub NoneIs : (CodecParameters → Type 0) → List CodecParameters → Type 0
NoneIs P cs = All (λ c. ¬ P c) cs

module _ (P : CodecParameters → Type 0) (test : CodecParameters → Bool)
    (iff : (c : CodecParameters) → (test c ≡ true) ↔ P c) where
  first_that_lem :
      (cs : List CodecParameters)
      → ((first_that test cs ≡ none) × NoneIs P cs)
        ⊎ ((c : CodecParameters) × (first_that test cs ≡ some c) × IsFirst P cs c)
  unfolding first_that
  first_that_lem [] = inl (refl, tt)
  first_that_lem (c ∷ cs) = elim (Bool-cases (test c)) [
    | inl taken ↦ rw taken (inr (c, refl, ([], cs, refl, (iff c).0 taken, tt)))
    | inr passed ↦
        let out : ¬ P c = λ h. cc ((iff c).1 h, passed) in
        rw passed (elim (first_that_lem cs) [
          | inl (e, nobody) ↦ inl (e, (out, nobody))
          | inr (d, e, (earlier, later, split_at, taken, others)) ↦ inr (
            d,
            e,
            (
              c ∷ earlier,
              later,
              ap (λ (r : List CodecParameters). c ∷ r) split_at,
              taken,
              (out, others),
            ),
          )
        ])
  ]

-- The codecs to search: those for audio if the type begins with "audio/", and those for video if not.
abbrev pub Searched : Registry → Text → List CodecParameters → Type 0
Searched r mime_type cs =
    (((rest : Text) × (mime_type ≡ audio_prefix ++ rest)) × (cs ≡ r.audio.codec_parameters))
    ⊎ ((¬ ((rest : Text) × (mime_type ≡ audio_prefix ++ rest))) × (cs ≡ r.video.codec_parameters))

codecs-Searched :
    (r : Registry) (mime_type : Text) → Searched r mime_type (get_codecs_by_mime_type r mime_type)
unfolding get_codecs_by_mime_type is_audio has_prefix
codecs-Searched r mime_type = elim (Bool-cases (has_prefix mime_type audio_prefix)) [
  | inl e ↦ inl ((has_prefix_iff mime_type audio_prefix).0 e, rw e refl)
  | inr e ↦ inr ((λ h. cc ((has_prefix_iff mime_type audio_prefix).1 h, e)), rw e refl)
]

-- What the search finds in a list.
abbrev pub Best : Registry → Codec → List CodecParameters → Type 0
Best r needle cs =
    ((c : CodecParameters) × (fuzzy_search r needle ≡ (c, match_exact))
      × IsFirst (Fits needle) cs c)
    ⊎ (((c : CodecParameters) × (fuzzy_search r needle ≡ (c, match_partial))
          × NoneIs (Fits needle) cs
          × IsFirst (SameType needle) cs c)
        ⊎ ((fuzzy_search r needle ≡ (no_codec, match_none)) × NoneIs (SameType needle) cs))

-- The search is among the codecs for audio if the type of the needle begins with "audio/", and among
-- those for video otherwise. It finds the first codec that has the needle's type, up to case, and no
-- parameter with a value that differs from the needle's by more than case, and calls it exact; if
-- there is none, the first of this type, and calls it partial; and if there is none either, it finds
-- none.
pub fuzzy_search_finds :
    (r : Registry) (needle : Codec)
    → (cs : List CodecParameters) × Searched r needle.mime_type cs × Best r needle cs
unfolding fuzzy_search search_result
fuzzy_search_finds r needle =
    let cs = get_codecs_by_mime_type r needle.mime_type in
    let type_iff = λ (c : CodecParameters). equal_fold_iff c.mime_type needle.mime_type in
    (
      cs,
      codecs-Searched r needle.mime_type,
      elim (first_that_lem (Fits needle) (fits needle) (fits_iff needle) cs) [
        | inr (c, e, first) ↦
            inl (c, ap (λ o. search_result o (first_that (same_type needle) cs)) e, first)
        | inl (e, nobody) ↦
            inr (elim (first_that_lem (SameType needle) (same_type needle) type_iff cs) [
              | inr (c, e2, first) ↦ inl (c, rw (e, e2) refl, nobody, first)
              | inl (e2, nobody2) ↦ inr (rw (e, e2) refl, nobody2)
            ])
      ],
    )

feedback_of-none : (c : CodecParameters) → feedback_of c ≡ none
unfolding feedback_of
feedback_of-none c = ground arith

-- The interceptors of a stream are told the payload type of the codec that the search finds, and
-- the header extensions of its kind, but never a feedback, whatever feedback the codec has.
pub interceptor_params_without_feedback :
    (r : Registry) (codec : Codec)
    → ((interceptor_params_for_codec r codec ≡ none) × ((fuzzy_search r codec).1 ≡ match_none))
      ⊎ ((interceptor_params_for_codec r codec
            ≡ some (record {
              payload_type = (fuzzy_search r codec).0.payload_type;
              rtcp_feedback = none;
              rtp_header_extensions = rtp_header_extensions_for_mime_type r codec.mime_type;
            }))
          × ((fuzzy_search r codec).1 ≢ match_none))
unfolding interceptor_params_for_codec params_at
interceptor_params_without_feedback r codec = by_match (fuzzy_search r codec)
  where
    by_match :
        (found : CodecParameters × MatchType)
        → ((params_at r codec found ≡ none) × (found.1 ≡ match_none))
          ⊎ ((params_at r codec found
                ≡ some (record {
                  payload_type = found.0.payload_type;
                  rtcp_feedback = none;
                  rtp_header_extensions = rtp_header_extensions_for_mime_type r codec.mime_type;
                }))
              × (found.1 ≢ match_none))
    by_match (c, match_none) = inl (refl, refl)
    by_match (c, match_partial) = inr (rw (feedback_of-none c) refl, (λ q. cc q))
    by_match (c, match_exact) = inr (rw (feedback_of-none c) refl, (λ q. cc q))
