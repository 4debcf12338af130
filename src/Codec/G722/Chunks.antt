-- ===== src/Codec/G722/Chunks.antt =====
-- The encoder of G.722 (src/codec/g722.rs) makes the same bytes however its input is divided.
use rtp_engine.Base.{ℕ, Option, none, some, ◌≡◌, refl, sym, ap, ◌∙◌, List, [], ◌∷◌, ◌++◌}
use rtp_engine.Codec.G711.{Sample}
use rtp_engine.Codec.G722.Encoder.{G722Encoder, encode, encode_pair, encode_pairs, resume}

-- Bytes in front of what comes after them.
abbrev pub prepend : List ℕ → List ℕ × G722Encoder → List ℕ × G722Encoder
prepend bytes (codes, encoder) = (bytes ++ codes, encoder)

-- One piece, then another.
abbrev pub encode_both : G722Encoder → List Sample → List Sample → List ℕ × G722Encoder
encode_both encoder first second =
    let (bytes, after) = encode encoder first in prepend bytes (encode after second)

encode-resume :
    (encoder : G722Encoder) (pending : Option Sample) (pcm : List Sample)
    → encoder.pending ≡ pending
    → encode encoder pcm ≡ resume encoder pending pcm
unfolding encode
encode-resume encoder pending pcm e = ap (λ p. resume encoder p pcm) e

cleared :
    (encoder : G722Encoder) → encoder.pending ≡ none → record encoder { pending = none } ≡ encoder
cleared encoder e = λ i. record encoder { pending = sym e i }

pub pair-pending :
    (encoder : G722Encoder) (first second : Sample)
    → (encode_pair encoder first second).1.pending ≡ encoder.pending
unfolding encode_pair
pair-pending encoder first second = refl

pairs-append :
    (encoder : G722Encoder) (first second : List Sample)
    → encoder.pending ≡ none
    → encode_pairs encoder (first ++ second)
      ≡ prepend (encode_pairs encoder first).0 (encode (encode_pairs encoder first).1 second)
unfolding encode_pairs resume
pairs-append encoder [] second e = sym (encode-resume encoder none second e)
pairs-append encoder (x ∷ []) second e =
    ap (λ en. encode_pairs en (x ∷ second)) (sym (cleared encoder e))
    ∙ sym (encode-resume (record encoder { pending = some x }) (some x) second refl)
pairs-append encoder (x ∷ y ∷ first) second e =
    let pair = encode_pair encoder x y in
    ap (prepend (pair.0 ∷ [])) (pairs-append pair.1 first second (pair-pending encoder x y ∙ e))

resume-append :
    (encoder : G722Encoder) (pending : Option Sample) (first second : List Sample)
    → encoder.pending ≡ pending
    → resume encoder pending (first ++ second)
      ≡ prepend (resume encoder pending first).0 (encode (resume encoder pending first).1 second)
unfolding resume
resume-append encoder none first second e = pairs-append encoder first second e
resume-append encoder (some x) first second e =
    pairs-append (record encoder { pending = none }) (x ∷ first) second refl

-- Encoding two pieces of input one after the other makes the bytes, and leaves the encoder, that
-- encoding them in one makes, also where the first has an odd number of samples.
pub encode-append :
    (encoder : G722Encoder) (first second : List Sample)
    → encode encoder (first ++ second) ≡ encode_both encoder first second
unfolding encode
encode-append encoder first second = resume-append encoder encoder.pending first second refl
