-- ===== src/Rtp/Stats/Laws.antt =====
-- What RtpCounters of src/rtp/stats.rs reports: the extended sequence number, the loss, and what a
-- reset leaves. The last theorem is about a packet from before the first one.
use Prim.Native.String.{String}
use rtp_engine.Base.{
  ℕ, ◌+◌, ◌-◌, ◌*◌, ◌%◌, ◌≤◌, ◌<◌, ◌≡◌, refl, true, false, List, [], ◌∷◌, arith, length,
}
use rtp_engine.Base.Float.{F64}
use rtp_engine.Rtp.Stats.{
  RtpCounters, new, record_received, receive_all, snapshot, reset, fetch_add,
}
use rtp_engine.Rtp.Stats.Tracking.{AllNear, highest_of, on_wire, receive_all_stand}

-- From the first packet on, over any wraps of the 16-bit sequence number and any reordering within
-- half its range, `highest_seq` is the highest number sent so far, counted without wrap from the
-- first packet's, and `expected_packets` counts the numbers from the first one to it.
pub receive_all_tracks :
    (c : RtpCounters) (first bytes : ℕ) (packets : List (ℕ × ℕ))
    → c.initialized ≡ false
    → first < 65536
    → AllNear first packets
    → let c' = receive_all c ((bytes, first) ∷ on_wire packets) in
      (c'.highest_seq ≡ highest_of first packets)
      × (c'.expected_packets ≡ highest_of first packets - first + 1)
receive_all_tracks c first bytes packets fresh small near =
    let s = receive_all_stand c first bytes packets fresh small near in (s.highest, s.expected)

packets_received-record_received :
    (c : RtpCounters) (bytes seq : ℕ)
    → (record_received c bytes seq).packets_received ≡ fetch_add c.packets_received 1
unfolding record_received
packets_received-record_received c bytes seq = ground arith

packets_received-receive_all :
    (c : RtpCounters) (packets : List (ℕ × ℕ))
    → c.packets_received + length packets < 18446744073709551616
    → (receive_all c packets).packets_received ≡ c.packets_received + length packets
unfolding receive_all
packets_received-receive_all c [] h = omega arith
packets_received-receive_all c ((bytes, seq) ∷ rest) h =
    let e = packets_received-record_received c bytes seq in
    omega
      (arith, e, packets_received-receive_all (record_received c bytes seq) rest (omega (arith, e)))

length-on_wire : (packets : List (ℕ × ℕ)) → length (on_wire packets) ≡ length packets
length-on_wire [] = refl
length-on_wire ((bytes, t) ∷ rest) = omega (arith, length-on_wire rest)

module _ (f : F64) where
  -- A snapshot of fresh counters reports as lost the numbers from the first to the highest less the
  -- packets received, 0 when duplicates make these more, and the cycles of the highest number.
  pub snapshot_loss :
      (name : String) (first bytes : ℕ) (packets : List (ℕ × ℕ))
      → first < 65536
      → AllNear first packets
      → length packets < 4294967296
      → let highest = highest_of first packets in
        let stats = (snapshot f (receive_all (new name) ((bytes, first) ∷ on_wire packets))).0 in
        (stats.packets_received ≡ length packets + 1)
        × (stats.packets_lost ≡ highest - first + 1 - (length packets + 1))
        × (stats.extended_highest_seq ≡ highest)
        × (stats.seq_cycles * 65536 + highest % 65536 ≡ highest)
  unfolding snapshot new
  snapshot_loss name first bytes packets small near few =
      let c' = receive_all (new name) ((bytes, first) ∷ on_wire packets) in
      let s = receive_all_stand (new name) first bytes packets refl small near in
      omega (
        arith,
        s.highest,
        s.expected,
        s.fits,
        length-on_wire packets,
        packets_received-receive_all (new name) ((bytes, first) ∷ on_wire packets),
      )

-- A reset makes the counters those of a new stream under the same codec name.
pub reset-eq-new : (c : RtpCounters) → reset c ≡ new c.codec_name
unfolding reset new
reset-eq-new c = refl

-- While the sequence has not wrapped yet, a packet that is numerically more than half the range
-- ahead, as a late one from before the first packet is, sets the highest number to the top cycle
-- of the 32-bit range, and the packets expected to more than 4 294 901 760 (65535, the one number
-- at which this count may wrap to 0, left out).
pub stray_early_packet :
    (c : RtpCounters) (bytes seq : ℕ)
    → c.initialized ≡ true
    → c.highest_seq + 32768 < seq
    → seq < 65535
    → c.base_seq ≤ c.highest_seq
    → let c' = record_received c bytes seq in
      (c'.highest_seq ≡ 4294901760 + seq) × (4294901760 < c'.expected_packets)
unfolding record_received
stray_early_packet c bytes seq i h s b = ground arith
