-- ===== src/Codec/Negotiation/Answer.antt =====
-- A session description that names one codec is understood by src/codec/mod.rs.
use rtp_engine.Base.{
  ℕ, ◌<◌, ◌≡◌, refl, ap, ◌∙◌, Option, none, some, List, [], All, Bool, if◌then◌else◌, ==_self,
}
use rtp_engine.Base.Text.{lines, split, to_ascii_lowercase, to_uppercase, same_text}
use rtp_engine.Base.Text.Laws.{IsWord, after_lines, ended}
use rtp_engine.Codec.Types.{CodecType, pcmu, pcma, g729, g722, opus, clock_rate, from_payload_type}
use rtp_engine.Codec.Negotiation.{
  RtpMap, Scan, from_capitals, scan_lines, find_rtpmap, with_rate, from_name, codec_at, first_known,
  negotiate_codec_with_pt,
}
use rtp_engine.Codec.Negotiation.Scanned.{
  encoding, audio_line, rtpmap_line, IsOther, nothing, offering, mapped, scan_lines-others,
  scan_lines-audio_line, scan_lines-rtpmap_line,
}

module _ (beyond_ascii : ℕ → List ℕ) where
  named_codec :
      (codec : CodecType)
      → with_rate
          (clock_rate codec)
          (from_name beyond_ascii (to_ascii_lowercase (split b'/' (encoding codec)).0))
        ≡ some codec
  unfolding with_rate from_name from_capitals clock_rate to_ascii_lowercase to_uppercase split
      same_text
  named_codec pcmu = refl
  named_codec pcma = refl
  named_codec g729 = refl
  named_codec g722 = refl
  named_codec opus = refl

  first_known-mapped :
      (pt : ℕ) (codec : CodecType)
      → first_known beyond_ascii (mapped pt codec).offered (mapped pt codec).rtpmaps
        ≡ some (codec, pt)
  unfolding first_known codec_at find_rtpmap
  first_known-mapped pt codec =
      let rtpmap : RtpMap = record {
        pt = pt;
        name = to_ascii_lowercase (split b'/' (encoding codec)).0;
        rate = clock_rate codec;
      } in
      let answer : Option CodecType → Option (CodecType × ℕ) =
        λ c. elim c [ none ↦ none | some found ↦ some (found, pt) ] in
      let known : Option RtpMap → Option CodecType = λ r. elim r [
        | none ↦ from_payload_type pt
        | some m ↦ with_rate m.rate (from_name beyond_ascii m.name)
      ] in
      ap (λ (b : Bool). answer (known (if b then some rtpmap else none))) (==_self pt)
      ∙ ap answer (named_codec codec)

  -- A session description whose `m=audio` line gives any port, any protocol and one payload type,
  -- whichever it is, and that names a codec for the type as its standard spells it, is negotiated as
  -- that codec under that payload type, among any lines that say nothing of audio formats.
  pub answer-negotiate_codec_with_pt :
      (codec : CodecType) (port protocol : List ℕ) (pt : ℕ) (before between after : List (List ℕ))
      → IsWord port
      → IsWord protocol
      → pt < 256
      → All IsOther before
      → All IsOther between
      → All IsOther after
      → negotiate_codec_with_pt beyond_ascii (
          after_lines before (
            ended
              (audio_line port protocol pt)
              (after_lines between (ended (rtpmap_line pt codec) (after_lines after [])))))
        ≡ some (codec, pt)
  unfolding negotiate_codec_with_pt scan_lines lines
  answer-negotiate_codec_with_pt codec port protocol pt before between after e f byte b i a =
      let last = after_lines after [] in
      let middle = after_lines between (ended (rtpmap_line pt codec) last) in
      let finish : Scan → Option (CodecType × ℕ) =
        λ s. first_known beyond_ascii s.offered s.rtpmaps in
      ap finish (
        scan_lines-others nothing before (ended (audio_line port protocol pt) middle) b
        ∙ scan_lines-audio_line port protocol pt middle e f byte
        ∙ scan_lines-others (offering pt) between (ended (rtpmap_line pt codec) last) i
        ∙ scan_lines-rtpmap_line pt codec last byte
        ∙ scan_lines-others (mapped pt codec) after [] a)
      ∙ first_known-mapped pt codec
