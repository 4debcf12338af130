-- ===== src/Codec/Negotiation/Tests.antt =====
-- Session descriptions that offer codecs.
use rtp_engine.Base.{ℕ, ◌≡◌, refl, some, List, [], ◌∷◌, arith}
use rtp_engine.Base.Text.{
  codes, lines, is_whitespace, trim, strip_prefix, split_whitespace, parse_unsigned,
}
use rtp_engine.Base.Text.Laws.{after_lines, ended}
use rtp_engine.Codec.Types.{pcmu, pcma, opus, from_payload_type}
use rtp_engine.Codec.Negotiation.{find_rtpmap, negotiate_codec_with_pt, negotiate_codec}
use rtp_engine.Codec.Negotiation.Scanned.{audio_line, rtpmap_line}
use rtp_engine.Codec.Negotiation.Answer.{answer-negotiate_codec_with_pt}

-- Characters outside ASCII as they are.
abbrev kept : ℕ → List ℕ
kept c = c ∷ []

-- Without an rtpmap the static numbers count, and the first one that is known.
static_numbers :
    negotiate_codec_with_pt kept (codes "m=audio 5004 RTP/AVP 99 8 0\n") ≡ some (pcma, 8)
unfolding negotiate_codec_with_pt lines trim strip_prefix parse_unsigned from_payload_type
    split_whitespace find_rtpmap
static_numbers = refl

nothing_offered : negotiate_codec kept (codes "v=0\n") ≡ pcmu
unfolding negotiate_codec lines trim strip_prefix
nothing_offered = refl

abbrev heading : List (List ℕ)
heading = codes "v=0" ∷ codes "s=call" ∷ []

abbrev ending : List (List ℕ)
ending = codes "a=sendrecv" ∷ []

answer-negotiate_codec_with_pt_example :
    negotiate_codec_with_pt kept (
      after_lines heading (
        ended
          (audio_line (codes "49170") (codes "RTP/SAVP") 107)
          (ended (rtpmap_line 107 opus) (after_lines ending []))))
    ≡ some (opus, 107)
unfolding trim strip_prefix is_whitespace
answer-negotiate_codec_with_pt_example =
    answer-negotiate_codec_with_pt kept opus (codes "49170") (codes "RTP/SAVP") 107 heading []
      ending (search) (search) (omega arith) (search) tt (search)
