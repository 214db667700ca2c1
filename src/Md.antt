-- ===== src/Md.antt =====
-- md/md.go, md/meta_data.go, pb/md/md.go and tracing/md.go: meta data, in its three
-- implementations, and the context that carries it.
pub mod Laws
mod Tests
use nproto.Prelude.{
  Text, codes, Map, ◌==◌, if◌then◌else◌, lookup, insert, keys, nat_beq, length, ℕ, ◌%◌, Bool, true,
  false, Option, none, some, List, [], ◌∷◌, text_eq, list_beq,
}

-- md.MetaData
abbrev pub MetaData : Type 0
MetaData = Map Text (List Text)

-- nppbmd.MetaData: an entry may hold a nil *MetaDataValueList.
abbrev pub PbMetaData : Type 0
PbMetaData = Map Text (Option (List Text))

-- The interface md.MD, one constructor for each type that implements it; `traced` is *tracingMD.
-- A nil MD is `none` of `Option MD`. A nil slice of values is the empty list.
pub data Md : Type 0 where
  meta : MetaData → Md
  pb : PbMetaData → Md
  traced : Md → Text → Md

abbrev pub tracing_md_key : Text
tracing_md_key = codes "nptracing"

abbrev pub or_empty : Option (List Text) → List Text
or_empty none = []
or_empty (some v) = v

abbrev pub is_some {ℓ} : {A : Type ℓ} → Option A → Bool
is_some none = false
is_some (some a) = true

-- md[key] of a map to pointers, and the nil check on the pointer.
abbrev pub pb_values : Option (Option (List Text)) → List Text
pb_values none = []
pb_values (some v) = or_empty v

module _ {S : Type 0} where
  -- `for key := range md { if ok := cb(key); !ok { return } }`; `S` is what the callback changes.
  pub range_keys : (Text → S → Bool × S) → List Text → S → S
  range_keys cb [] s = s
  range_keys cb (k ∷ ks) s =
      let (ok, s') = cb k s in let rest = range_keys cb ks s' in if ok then rest else s'

  -- The callback that tracingMD.Keys hands to the wrapped MD.
  abbrev pub skip_tracing : (Text → S → Bool × S) → Text → S → Bool × S
  skip_tracing cb k s = if k == tracing_md_key then (true, s) else cb k s

  -- MD.Keys
  pub keys_cb : Md → (Text → S → Bool × S) → S → S
  unfolding range_keys
  keys_cb (meta m) cb s = range_keys cb (keys m) s
  keys_cb (pb m) cb s = range_keys cb (keys m) s
  keys_cb (traced md data_) cb s =
      let (ok, s') = cb tracing_md_key s in
      let rest = keys_cb md (skip_tracing cb) s' in if ok then rest else s'

-- MD.HasKey
pub has_key : Md → Text → Bool
has_key (meta m) k = is_some (lookup k m)
has_key (pb m) k = is_some (lookup k m)
has_key (traced md data_) k = if k == tracing_md_key then true else has_key md k

-- MD.Values
unfoldable pub values : Md → Text → List Text
unfolding lookup list_beq
values (meta m) k = or_empty (lookup k m)
values (pb m) k = pb_values (lookup k m)
values (traced md data_) k = if k == tracing_md_key then data_ ∷ [] else values md k

-- The loop of NewMetaDataPairs.
pub fill_pairs : List Text → MetaData → MetaData
fill_pairs [] m = m
fill_pairs (k ∷ []) m = m
fill_pairs (k ∷ v ∷ kv) m = fill_pairs kv (insert k (v ∷ []) m)

-- NewMetaDataPairs; `none` is its panic.
pub new_meta_data_pairs : List Text → Option MetaData
unfolding fill_pairs
new_meta_data_pairs kv = if nat_beq (length kv % 2) 1 then none else some (fill_pairs kv [])

-- NewMetaDataFromMD; a nil map reads as the empty one.
pub new_meta_data_from_md : Option Md → MetaData
unfolding keys_cb
new_meta_data_from_md none = []
new_meta_data_from_md (some md) = keys_cb md (λ k ret. (true, insert k (values md k) ret)) []

-- nppbmd.NewMetaData
unfoldable pub new_pb_meta_data : Option Md → PbMetaData
unfolding keys_cb
new_pb_meta_data none = []
new_pb_meta_data (some md) = keys_cb md (λ k ret. (true, insert k (some (values md k)) ret)) []

-- The values in a context.Context that this program reads: the meta data under its two keys, the
-- deadline, and the current span (its number).
pub record Context : Type 0 where
  pub outgoing : Option Md
  pub incoming : Option Md
  pub deadline : Option ℕ
  pub span : Option ℕ

-- NewOutgoingContextWithMD, NewIncomingContextWithMD
unfoldable pub new_outgoing_context_with_md : Context → Option Md → Context
new_outgoing_context_with_md ctx md = record ctx { outgoing = md }

unfoldable pub new_incoming_context_with_md : Context → Option Md → Context
new_incoming_context_with_md ctx md = record ctx { incoming = md }

-- MDFromOutgoingContext, MDFromIncomingContext
unfoldable pub md_from_outgoing_context : Context → Option Md
md_from_outgoing_context ctx = ctx.outgoing

unfoldable pub md_from_incoming_context : Context → Option Md
md_from_incoming_context ctx = ctx.incoming
