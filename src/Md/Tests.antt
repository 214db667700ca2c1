-- ===== src/Md/Tests.antt =====
-- md and pb/md: the theorems at concrete inputs.
use nproto.Prelude.{Text, codes, ◌≡◌, refl, some, List, [], ◌∷◌}
use nproto.Md.{pb, has_key, values, new_pb_meta_data}
use nproto.Md.Laws.{has_key-new_pb_meta_data}
use nproto.Samples.{some_md}

has_key-new_pb_meta_data_example :
    (has_key (pb (new_pb_meta_data (some some_md))) (codes "a") ≡ has_key some_md (codes "a"))
    × (values (pb (new_pb_meta_data (some some_md))) (codes "a") ≡ values some_md (codes "a"))
has_key-new_pb_meta_data_example = has_key-new_pb_meta_data some_md (codes "a")

abbrev pairs : List Text
pairs = codes "k" ∷ codes "1" ∷ codes "k" ∷ codes "2" ∷ []

-- The tracing key of the wrapped meta data is hidden.
values_traced : values some_md (codes "nptracing") ≡ codes "new" ∷ []
unfolding values
values_traced = refl
