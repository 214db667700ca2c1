-- ===== src/Enc.antt =====
-- enc/enc.go, enc/format.go, enc/rawenc/rawenc.go and enc/pjenc/pjenc.go: encoders and decoders.
pub mod Laws
mod Tests
use nproto.Prelude.{
  Text, codes, Bool, true, false, ◌==◌, if◌then◌else◌, not, ◌&&◌, Option, none, some, [], ◌++◌,
  text_eq,
}
use nproto.Go.{message, Value, raw, val, Error, plain_error, Result, ok, err, Printer}

abbrev pub json_format : Text
json_format = codes "json"

abbrev pub pb_format : Text
pb_format = codes "pb"

-- What EncodeData returns, and what it leaves in *targetFormat and *targetBytes.
pub record Encoded : Type 0 where
  pub error : Option Error
  pub format : Text
  pub bytes : Text

-- enc.Encoder: data, *targetFormat and *targetBytes before the call.
abbrev pub Encoder : Type 0
Encoder = Value → Text → Text → Encoded

-- enc.Decoder: the format, the bytes and the target; the error, and the target after the call.
abbrev pub Decoder : Type 0
Decoder = Text → Text → Value → Option Error × Value

abbrev pub encoded : Text → Text → Encoded
encoded f b = record { error = none; format = f; bytes = b }

-- A failed call leaves both targets as they were.
abbrev pub refused : Text → Text → Text → Encoded
refused message_ f b = record { error = some (plain_error message_); format = f; bytes = b }

module _ (fmt : Printer) where
  -- rawDataEncoder.EncodeData; the wrapped encoder may be nil.
  unfoldable pub raw_encode : Option Encoder → Encoder
  raw_encode inner (raw f b) target_format target_bytes =
      if not (target_format == []) && not (f == target_format)
      then refused
          (codes "TargetFormat is "
            ++ fmt.verb_q target_format
            ++ codes " but src RawData format is "
            ++ fmt.verb_q f)
          target_format target_bytes
      else encoded f b
  raw_encode none data_ target_format target_bytes =
      refused (codes "No encoder to encode " ++ fmt.verb_v data_) target_format target_bytes
  raw_encode (some e) data_ target_format target_bytes = e data_ target_format target_bytes

  -- rawDataDecoder.DecodeData; the wrapped decoder may be nil.
  unfoldable pub raw_decode : Option Decoder → Decoder
  raw_decode inner src_format src_bytes (raw f b) = (none, raw src_format src_bytes)
  raw_decode none src_format src_bytes data_ =
      (some (plain_error (codes "No decoder to decode " ++ fmt.verb_v data_)), data_)
  raw_decode (some d) src_format src_bytes data_ = d src_format src_bytes data_

-- The calls of packages proto, protojson and encoding/json: marshalling gives bytes or an error,
-- unmarshalling an error and the target as the call leaves it.
pub record Codecs : Type 0 where
  pub pb_marshal : Value → Result Text
  pub json_marshal_message : Value → Result Text
  pub json_marshal : Value → Result Text
  pub pb_unmarshal : Text → Value → Option Error × Value
  pub json_unmarshal_message : Text → Value → Option Error × Value
  pub json_unmarshal : Text → Value → Option Error × Value

-- data.(proto.Message)
abbrev pub is_message : Value → Bool
is_message (val (message n) c) = true
is_message _ = false

-- A marshaller's result, stored in the targets.
abbrev pub store : Result Text → Text → Text → Text → Encoded
store (ok b) format target_format target_bytes = encoded format b
store (err e) format target_format target_bytes = record {
  error = some e;
  format = target_format;
  bytes = target_bytes;
}

module _ (fmt : Printer) (lib : Codecs) where
  -- PbJsonEncoder.EncodeData; the first argument is e.Format.
  pub pj_encode : Text → Encoder
  pj_encode default_format data_ target_format target_bytes =
      let format = if target_format == [] then default_format else target_format in
      if format == pb_format
      then (if is_message data_
          then store (lib.pb_marshal data_) pb_format target_format target_bytes
          else refused
              (codes "PbJsonEncoder can't encode " ++ fmt.verb_v data_ ++ codes " using pb format")
              target_format target_bytes)
      else (if format == json_format
          then store
              (if is_message data_ then lib.json_marshal_message data_ else lib.json_marshal data_)
              json_format target_format target_bytes
          else refused (codes "PbJsonEncoder does not support format " ++ fmt.verb_q format)
              target_format target_bytes)

  -- PbJsonDecoder.DecodeData
  pub pj_decode : Decoder
  pj_decode src_format src_bytes data_ =
      if src_format == pb_format
      then (if is_message data_ then lib.pb_unmarshal src_bytes data_ else (
        some (
            plain_error (
              codes "PbJsonDecoder can't decode " ++ fmt.verb_v data_ ++ codes " using pb format")),
        data_,
      ))
      else (if src_format == json_format
          then (if is_message data_
              then lib.json_unmarshal_message src_bytes data_
              else lib.json_unmarshal src_bytes data_)
          else (
            some (
                plain_error
                  (codes "PbJsonDecoder does not support format " ++ fmt.verb_q src_format)),
            data_,
          ))

  -- DefaultJsonEncoder, DefaultPbEncoder, DefaultPjEncoder and DefaultPjDecoder
  abbrev pub default_json_encoder : Encoder
  default_json_encoder = pj_encode json_format

  abbrev pub default_pb_encoder : Encoder
  default_pb_encoder = pj_encode pb_format

  abbrev pub default_pj_encoder : Encoder
  default_pj_encoder = pj_encode []

  abbrev pub default_pj_decoder : Decoder
  default_pj_decoder = pj_decode
