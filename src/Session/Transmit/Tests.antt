-- ===== src/Session/Transmit/Tests.antt =====
-- An encrypted call whose numbers are about to wrap.
use rtp_engine.Base.{List, replicate}
use rtp_engine.Codec.G711.{Sample, plus}

abbrev some_samples : List Sample
some_samples = replicate 170 (plus 5)
