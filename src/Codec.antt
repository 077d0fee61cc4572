-- ===== src/Codec.antt =====
-- encoder.go and decoder.go: chains of codecs.
--
-- Encoders and decoders are functions of the environment. The encoders of a chain write to one
-- io.Writer; the decoders of a chain read the same bytes and write to the object that they are
-- given, which a decoder that fails may have changed.
pub mod Laws
use courier_go.Base.{ℕ, String, concat, Option, none, some, List, [], ◌∷◌, ◌++◌}
use courier_go.Errors.{Error, errorf, wrapf, joined, from_list}

-- What an Encode of a message does: the bytes that it writes, and its error.
pub record Encoding : Type 0 where
  pub written : List ℕ
  pub error : Option Error

abbrev pub Encoder : Type 0
Encoder = ℕ → Encoding

-- fmt.Errorf of a text and %w, with errors.Join(errs...); Join of no errors is nil.
unfoldable pub all_failed : String → List Error → Error
all_failed what [] = errorf (concat what "%!w(<nil>)")
all_failed what (e ∷ es) = wrapf what (joined (from_list (e ∷ es)))

-- The loop of chainEncoder.Encode, with the errors and the bytes so far.
unfoldable pub encode_from : List Encoder → ℕ → List Error → List ℕ → Encoding
unfolding all_failed
encode_from [] message errs bytes = record {
  written = bytes;
  error = some (all_failed "all encoders failed: " errs);
}
encode_from (enc ∷ encs) message errs bytes =
    let r = enc message in
    let now = bytes ++ r.written in
    elim r.error [
      | none ↦ record { written = now; error = none }
      | some e ↦ encode_from encs message (errs ++ e ∷ []) now
    ]

-- ChainEncoderFunc, and Encode of what it makes
unfoldable pub chain_encode : List Encoder → ℕ → Encoding
unfolding encode_from
chain_encode encs message = encode_from encs message [] []

-- A Decode on some bytes: what it makes of an object, and its error.
abbrev pub Decoder : Type 0 → Type 0
Decoder T = List ℕ → T → T × Option Error

-- The loop of chainDecoder.Decode
unfoldable pub decode_from :
    {T : Type 0} → List (Decoder T) → List ℕ → T → List Error → T × Option Error
unfolding all_failed
decode_from [] bytes v errs = (v, some (all_failed "all decoders failed: " errs))
decode_from (dec ∷ decs) bytes v errs =
    let (w, err) = dec bytes v in
    elim err [ none ↦ (w, none) | some e ↦ decode_from decs bytes w (errs ++ e ∷ []) ]

-- ChainDecoderFunc, and Decode of what it makes; the reader gives its bytes, or `none` for an error.
unfoldable pub chain_decode :
    {T : Type 0} → List (Decoder T) → Option (List ℕ) → T → T × Option Error
unfolding decode_from all_failed
chain_decode decs none v = (v, some (all_failed "all decoders failed: " []))
chain_decode decs (some bytes) v = decode_from decs bytes v []
