-- ===== src/Md/Laws.antt =====
-- md/meta_data.go, pb/md/md.go, tracing/md.go: the three implementations of MD agree on what a
-- key is, and conversions between them keep every value.
use nproto.Prelude.{
  Text, Map, ◌==◌, if◌then◌else◌, lookup, insert, keys, nat_beq, nat_eq, length, ◌%◌, ◌≡◌, inl, inr,
  refl, sym, ◌∙◌, Bool, true, false, Option, none, some, List, [], ◌∷◌, ◌++◌, append-nil,
  append_assoc, arith, text_eq, list_beq_iff, pair_eq, Bool-cases, Option-cases, lookup-insert,
}
use nproto.Md.{
  MetaData, Md, meta, pb, traced, tracing_md_key, is_some, range_keys, skip_tracing, keys_cb,
  has_key, values, fill_pairs, new_meta_data_pairs, new_meta_data_from_md, new_pb_meta_data,
}

pub contains : Text → List Text → Bool
contains k [] = false
contains k (j ∷ js) = if j == k then true else contains k js

without_tracing : List Text → List Text
without_tracing [] = []
without_tracing (k ∷ ks) =
    let rest = without_tracing ks in if k == tracing_md_key then rest else k ∷ rest

-- The keys in the order in which the callback gets them.
pub key_list : Md → List Text
unfolding without_tracing
key_list (meta m) = keys m
key_list (pb m) = keys m
key_list (traced md data_) = tracing_md_key ∷ without_tracing (key_list md)

module _ {S : Type 0} (cb : Text → S → Bool × S) where
  range_keys-skip_tracing :
      (ks : List Text) (s : S)
      → range_keys (skip_tracing cb) ks s ≡ range_keys cb (without_tracing ks) s
  unfolding range_keys without_tracing
  range_keys-skip_tracing [] s = refl
  range_keys-skip_tracing (k ∷ ks) s = elim (Bool-cases (k == tracing_md_key)) [
    | inl e ↦ rw e (range_keys-skip_tracing ks s)
    | inr e ↦ rw e (ground (arith, range_keys-skip_tracing ks (cb k s).1))
  ]

-- The keys that Keys hands to a callback which never stops.
pub collected : Md → List Text
collected md = keys_cb md (λ k acc. (true, acc ++ k ∷ [])) []

keys_cb-range :
    {S : Type 0} (md : Md) (cb : Text → S → Bool × S) (s : S)
    → keys_cb md cb s ≡ range_keys cb (key_list md) s
unfolding keys_cb key_list
keys_cb-range (meta m) cb s = refl
keys_cb-range (pb m) cb s = refl
keys_cb-range (traced md data_) cb s =
    let rest =
      keys_cb-range md (skip_tracing cb) (cb tracing_md_key s).1
      ∙ range_keys-skip_tracing cb (key_list md) (cb tracing_md_key s).1 in
    ground (arith, rest)

module _ {V : Type 0} where
  contains-keys : (m : Map Text V) (k : Text) → contains k (keys m) ≡ is_some (lookup k m)
  unfolding contains lookup
  contains-keys [] k = refl
  contains-keys ((j, v) ∷ m) k = ground (arith, contains-keys m k)

  -- What a loop that stores a value for each key leaves behind.
  lookup-range :
      (f : Text → V) (ks : List Text) (m : Map Text V) (j : Text)
      → lookup j (range_keys (λ k ret. (true, insert k (f k) ret)) ks m)
        ≡ (if contains j ks then some (f j) else lookup j m)
  unfolding range_keys contains
  lookup-range f [] m j = refl
  lookup-range f (k ∷ ks) m j =
      ground
        (arith, lookup-range f ks (insert k (f k) m) j, lookup-insert k j (f k) m, list_beq_iff k j)

contains-without_tracing :
    (ks : List Text) (k : Text)
    → contains k (without_tracing ks) ≡ (if k == tracing_md_key then false else contains k ks)
unfolding contains without_tracing
contains-without_tracing [] k = ground arith
contains-without_tracing (j ∷ ks) k = ground (
  arith,
  contains-without_tracing ks k,
  list_beq_iff j k,
  list_beq_iff j tracing_md_key,
  list_beq_iff k tracing_md_key,
)

contains-key_list : (md : Md) (k : Text) → contains k (key_list md) ≡ has_key md k
unfolding key_list has_key contains
contains-key_list (meta m) k = contains-keys m k
contains-key_list (pb m) k = contains-keys m k
contains-key_list (traced md data_) k = ground (
  arith,
  contains-without_tracing (key_list md) k,
  contains-key_list md k,
  list_beq_iff tracing_md_key k,
  list_beq_iff k tracing_md_key,
)

range_keys-collect :
    (ks acc : List Text) → range_keys (λ k a. (true, a ++ k ∷ [])) ks acc ≡ acc ++ ks
unfolding range_keys
range_keys-collect [] acc = sym (append-nil acc)
range_keys-collect (k ∷ ks) acc =
    range_keys-collect ks (acc ++ k ∷ []) ∙ append_assoc acc (k ∷ []) ks

-- In every implementation of MD, the keys that Keys hands to a callback which never stops it are
-- exactly those for which HasKey answers true.
pub collected-has_key : (md : Md) (k : Text) → contains k (collected md) ≡ has_key md k
unfolding collected
collected-has_key md k =
    rw (keys_cb-range md (λ k a. (true, a ++ k ∷ [])) [], range_keys-collect (key_list md) [])
      (contains-key_list md k)

values_absent : (md : Md) (k : Text) → has_key md k ≡ false → values md k ≡ []
unfolding has_key values
values_absent (meta m) k h = elim (Option-cases (lookup k m)) [
  | inl e ↦ rw e
  | inr (v, e) ↦ absurd (cc)
]
values_absent (pb m) k h = ground arith
values_absent (traced md data_) k h = ground (arith, values_absent md k)

stored :
    {V : Type 0} (f : Text → V) (md : Md) (k : Text)
    → lookup k (keys_cb md (λ k ret. (true, insert k (f k) ret)) [])
      ≡ (if has_key md k then some (f k) else none)
unfolding lookup
stored f md k =
    rw (keys_cb-range md (λ k ret. (true, insert k (f k) ret)) [], ← contains-key_list md k)
      (lookup-range f (key_list md) [] k)

-- NewMetaDataFromMD keeps, for every key, whether it is there and its values, from whichever
-- implementation of MD the copy is made.
pub has_key-new_meta_data_from_md :
    (md : Md) (k : Text)
    → (has_key (meta (new_meta_data_from_md (some md))) k ≡ has_key md k)
      × (values (meta (new_meta_data_from_md (some md))) k ≡ values md k)
unfolding has_key values new_meta_data_from_md
has_key-new_meta_data_from_md md k = ground (arith, stored (values md) md k, values_absent md k)

-- nppbmd.NewMetaData, the form that goes over the wire, keeps for every key whether it is there and
-- its values, from whichever implementation of MD it is made.
pub has_key-new_pb_meta_data :
    (md : Md) (k : Text)
    → (has_key (pb (new_pb_meta_data (some md))) k ≡ has_key md k)
      × (values (pb (new_pb_meta_data (some md))) k ≡ values md k)
unfolding has_key values new_pb_meta_data
has_key-new_pb_meta_data md k =
    ground (arith, stored (λ j. some (values md j)) md k, values_absent md k)

-- What a list of key/value pairs says of a key: the last value wins; `none` if a value is missing.
pub last_value : Text → List Text → List Text → Option (List Text)
last_value k [] old = some old
last_value k (j ∷ []) old = none
last_value k (j ∷ v ∷ kv) old = last_value k kv (if j == k then v ∷ [] else old)

pub values_of : Text → Option MetaData → Option (List Text)
values_of k none = none
values_of k (some m) = some (values (meta m) k)

values-fill_pairs :
    (kv : List Text) (m : MetaData) (k : Text)
    → (if nat_beq (length kv % 2) 1 then none else some (values (meta (fill_pairs kv m)) k))
      ≡ last_value k kv (values (meta m) k)
unfolding values fill_pairs last_value
values-fill_pairs [] m k = refl
values-fill_pairs (j ∷ []) m k = refl
values-fill_pairs (j ∷ v ∷ kv) m k =
    ground (arith, values-fill_pairs kv (insert j (v ∷ []) m) k, lookup-insert j k (v ∷ []) m)

-- NewMetaDataPairs panics exactly on an odd number of strings; otherwise the values of every key
-- are the one value that was given last for it, or none.
pub values-new_meta_data_pairs :
    (kv : List Text) (k : Text) → values_of k (new_meta_data_pairs kv) ≡ last_value k kv []
unfolding new_meta_data_pairs values_of values lookup
values-new_meta_data_pairs kv k = ground (arith, values-fill_pairs kv [] k)
