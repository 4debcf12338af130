-- ===== src/Srtp/Source/Tests.antt =====
-- The rollover estimate of src/srtp.rs around a wrap.
use rtp_engine.Base.{◌≡◌, refl, some}
use rtp_engine.Srtp.Source.{RecvState, estimate_roc}

-- The highest packet so far is 2 in the fourth cycle.
abbrev after_wrap : RecvState
after_wrap = record {
  ssrc = 1;
  roc = 3;
  s_l = 2;
  window = record { highest = some 196610; seen = 1 };
}

late_packet : estimate_roc after_wrap 65535 ≡ 2
unfolding estimate_roc
late_packet = refl
