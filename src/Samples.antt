-- ===== src/Samples.antt =====
-- Concrete stand-ins for what the program does not implement, and values that the tests share.
use nproto.Prelude.{Text, codes, Option, none, some, [], ◌∷◌}
use nproto.Go.{Value, val, Error, plain_error, Result, ok, err, Printer}
use nproto.Md.{Md, meta, traced, Context}
use nproto.Enc.{Codecs}

abbrev pub printer : Printer
printer = record {
  verb_v = λ v. codes "value";
  verb_q = λ t. t;
  type_string = λ t. codes "T";
  format_int = λ i. codes "0";
}

-- A marshaller that writes the content's number, and an unmarshaller that reads it.
abbrev pub write_content : Value → Result Text
write_content (val t c) = ok (c ∷ [])
write_content _ = err (plain_error [])

abbrev pub read_content : Text → Value → Option Error × Value
read_content (c ∷ []) (val t old) = (none, val t c)
read_content _ v = (some (plain_error []), v)

abbrev pub codecs : Codecs
codecs = record {
  pb_marshal = write_content;
  json_marshal_message = write_content;
  json_marshal = write_content;
  pb_unmarshal = read_content;
  json_unmarshal_message = read_content;
  json_unmarshal = read_content;
}

abbrev pub background : Context
background = record { outgoing = none; incoming = none; deadline = none; span = none }

abbrev pub some_md : Md
some_md =
    traced
      (meta ((codes "a", codes "1" ∷ codes "2" ∷ []) ∷ (codes "nptracing", codes "old" ∷ []) ∷ []))
      (codes "new")
