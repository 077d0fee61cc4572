-- ===== src/Codec/Laws.antt =====
-- Which codec of a chain counts.
use courier_go.Base.{
  ℕ, none, some, List, [], ◌∷◌, ◌++◌, ◌≡◌, ◌≢◌, ◌∙◌, ap, sym, All, append_assoc, append-nil, refl,
  arith, Option-cases, inl, inr,
}
use courier_go.Errors.{Error}
use courier_go.Codec.{
  Encoder, Decoder, all_failed, encode_from, chain_encode, decode_from, chain_decode,
}

-- The errors of some encoders on a message, and all that they write.
abbrev pub errors : List Encoder → ℕ → List Error
errors [] message = []
errors (x ∷ xs) message = elim (x message).error [
  | none ↦ errors xs message
  | some e ↦ e ∷ errors xs message
]

abbrev pub bytes : List Encoder → ℕ → List ℕ
bytes [] message = []
bytes (x ∷ xs) message = (x message).written ++ bytes xs message

-- Every encoder fails on the message.
abbrev pub Fail : List Encoder → ℕ → Type 0
Fail xs message = All (λ (x : Encoder). (x message).error ≢ none) xs

encode_from-append :
    (xs ys : List Encoder) (message : ℕ) (before : List Error) (written : List ℕ)
    → Fail xs message
    → encode_from (xs ++ ys) message before written
      ≡ encode_from ys message (before ++ errors xs message) (written ++ bytes xs message)
unfolding encode_from
encode_from-append [] ys message before written h =
    ground (arith, append-nil written, append-nil before)
encode_from-append (x ∷ xs) ys message before written h = elim (Option-cases (x message).error) [
  | inl e ↦ absurd (h.0 e)
  | inr (e, fails) ↦ ground (
    arith,
    fails,
    encode_from-append xs ys message (before ++ e ∷ []) (written ++ (x message).written) h.1,
    append_assoc before (e ∷ []) (errors xs message),
    append_assoc written (x message).written (bytes xs message),
  )
]

-- A chain of encoders tries them in their order. It ends with the first that does not fail, and
-- writes what the ones before it wrote, then what this one wrote, with no later encoder tried; when
-- all fail, it returns one error that holds the errors of all in their order.
pub chain_encode_first :
    (xs ys : List Encoder) (y : Encoder) (message : ℕ)
    → Fail xs message
    → (y message).error ≡ none
    → (chain_encode (xs ++ y ∷ ys) message
        ≡ record { written = bytes xs message ++ (y message).written; error = none })
      × (chain_encode xs message ≡ record {
        written = bytes xs message;
        error = some (all_failed "all encoders failed: " (errors xs message));
      })
unfolding chain_encode encode_from
chain_encode_first xs ys y message fail good = (
  encode_from-append xs (y ∷ ys) message [] [] fail ∙ ground (arith, good),
  ap (λ zs. encode_from zs message [] []) (sym (append-nil xs))
      ∙ encode_from-append xs [] message [] [] fail,
)

module _ {T : Type 0} where
  -- Every decoder fails on the bytes, whatever the object is.
  abbrev pub Rejects : List (Decoder T) → List ℕ → Type 0
  Rejects xs bytes = All (λ (x : Decoder T). (v : T) → (x bytes v).1 ≢ none) xs

  -- The object after some decoders that fail, and their errors.
  abbrev pub touched : List (Decoder T) → List ℕ → T → T
  touched [] bytes v = v
  touched (x ∷ xs) bytes v = touched xs bytes (x bytes v).0

  abbrev pub reasons : List (Decoder T) → List ℕ → T → List Error
  reasons [] bytes v = []
  reasons (x ∷ xs) bytes v = elim (x bytes v).1 [
    | none ↦ reasons xs bytes (x bytes v).0
    | some e ↦ e ∷ reasons xs bytes (x bytes v).0
  ]

  decode_from-append :
      (xs ys : List (Decoder T)) (input : List ℕ) (v : T) (before : List Error)
      → Rejects xs input
      → decode_from (xs ++ ys) input v before
        ≡ decode_from ys input (touched xs input v) (before ++ reasons xs input v)
  unfolding decode_from
  decode_from-append [] ys input v before h = ground (arith, append-nil before)
  decode_from-append (x ∷ xs) ys input v before h = elim (Option-cases (x input v).1) [
    | inl e ↦ absurd (h.0 v e)
    | inr (e, fails) ↦ ground (
      arith,
      fails,
      decode_from-append xs ys input (x input v).0 (before ++ e ∷ []) h.1,
      append_assoc before (e ∷ []) (reasons xs input (x input v).0),
    )
  ]

  -- A chain of decoders tries them in their order, each on all the bytes. It ends with what the
  -- first one that does not fail makes of the object as the ones before it have left it; when all
  -- fail, it returns one error that holds the errors of all in their order. When the bytes cannot
  -- be read, no decoder is tried and the result is an error.
  pub chain_decode_first :
      (xs ys : List (Decoder T)) (y : Decoder T) (input : List ℕ) (v : T)
      → Rejects xs input
      → (y input (touched xs input v)).1 ≡ none
      → (chain_decode (xs ++ y ∷ ys) (some input) v ≡ ((y input (touched xs input v)).0, none))
        × (chain_decode xs (some input) v
            ≡ (touched xs input v, some (all_failed "all decoders failed: " (reasons xs input v))))
        × (chain_decode xs none v ≡ (v, some (all_failed "all decoders failed: " [])))
  unfolding chain_decode decode_from
  chain_decode_first xs ys y input v fail good = (
    decode_from-append xs (y ∷ ys) input v [] fail ∙ ground (arith, good),
    ap (λ zs. decode_from zs input v []) (sym (append-nil xs))
        ∙ decode_from-append xs [] input v [] fail,
    refl,
  )
