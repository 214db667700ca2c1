-- ===== src/Enc/Tests.antt =====
-- enc: the theorems at concrete inputs.
use nproto.Prelude.{◌≡◌, refl, none, some, [], ◌∷◌, Bool, true, text_eq, list_beq}
use nproto.Go.{UserType, message, pointer, user, val}
use nproto.Enc.{raw_encode, raw_decode, pj_encode, pj_decode, json_format, pb_format}
use nproto.Enc.Laws.{Honours, Restores, pj_encode-Honours, raw_decode-raw_encode, is_message_type}
use nproto.Samples.{printer, codecs, write_content, read_content}

restores : (p : UserType → Bool) → Restores p write_content read_content
restores p t c c' b h e = let same : c ∷ [] ≡ b = cc in rw (← same)

abbrev every : UserType → Bool
every t = true

pj_encode-Honours_example :
    Honours pb_format [] (pj_encode printer codecs json_format (val (message 3) 7) pb_format [])
pj_encode-Honours_example =
    pj_encode-Honours printer codecs json_format (val (message 3) 7) pb_format []

raw_decode-raw_encode_example :
    raw_decode printer
      (some (pj_decode printer codecs))
      (raw_encode printer
        (some (pj_encode printer codecs json_format))
        (val (pointer 3) 7)
        []
        []).format
      (raw_encode printer
        (some (pj_encode printer codecs json_format))
        (val (pointer 3) 7)
        []
        []).bytes
      (val (pointer 3) 0)
    ≡ (none, val (pointer 3) 7)
unfolding raw_encode pj_encode list_beq
raw_decode-raw_encode_example =
    raw_decode-raw_encode printer codecs (restores is_message_type) (restores is_message_type)
      json_format (val (pointer 3) 7) (val (pointer 3) 0) (user (pointer 3)) [] [] refl refl refl
      (λ _ b h. restores every (pointer 3) 7 0 b refl h) refl
