-- ===== src/Rtp/Stats/Tests.antt =====
-- The counters of src/rtp/stats.rs on short streams, and their theorems at concrete inputs.
use rtp_engine.Base.{ℕ, ◌+◌, ◌<◌, ◌≡◌, refl, List, [], ◌∷◌, arith}
use rtp_engine.Rtp.Stats.{new, record_received, receive_all}
use rtp_engine.Rtp.Stats.Tracking.{AllNear, on_wire}
use rtp_engine.Rtp.Stats.Laws.{receive_all_tracks, stray_early_packet}

-- Four packets over a wrap of the sequence: one lost (65536), and two swapped.
abbrev over_wrap : List (ℕ × ℕ)
over_wrap = (172, 65535) ∷ (172, 65538) ∷ (172, 65537) ∷ []

over_wrap-AllNear : AllNear 65534 over_wrap
over_wrap-AllNear = omega arith

over_wrap_runs :
    (receive_all (new "PCMU") ((172, 65534) ∷ (172, 65535) ∷ (172, 2) ∷ (172, 1) ∷ [])).highest_seq
    ≡ 65538
unfolding receive_all new
over_wrap_runs = refl

receive_all_tracks_example :
    let c = receive_all (new "PCMU") ((172, 65534) ∷ on_wire over_wrap) in
    (c.highest_seq ≡ 65538) × (c.expected_packets ≡ 5)
unfolding new
receive_all_tracks_example =
    receive_all_tracks (new "PCMU") 65534 172 over_wrap refl (omega arith) over_wrap-AllNear

-- 65530 left before packet 5, and comes after it.
stray_early_packet_example :
    let c = record_received (record_received (new "PCMU") 172 5) 172 65530 in
    (c.highest_seq ≡ 4294901760 + 65530) × (4294901760 < c.expected_packets)
unfolding new record_received
stray_early_packet_example =
    stray_early_packet (record_received (new "PCMU") 172 5) 172 65530 refl (omega arith)
      (omega arith) (omega arith)
