-- ===== src/Rtp/Rtcp/Tests.antt =====
-- The RTCP packets of src/rtp/rtcp.rs at concrete inputs.
use rtp_engine.Base.{◌≡◌, refl, none, [], ◌∷◌}
use rtp_engine.Rtp.Rtcp.{parse, UnixTime, ntp_frac}

-- half a second past the epoch of Unix time
abbrev half_past : UnixTime
half_past = record { secs = 0; subsec_nanos = 500000000 }

half_past_frac : ntp_frac half_past ≡ 0x80000000
unfolding ntp_frac
half_past_frac = refl

short_rtcp : parse (0x80 ∷ 200 ∷ 0 ∷ 0 ∷ 0 ∷ 0 ∷ 0 ∷ []) ≡ none
unfolding parse
short_rtcp = refl
