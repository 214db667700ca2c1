-- ===== src/Stanmsg/Counts.antt =====
-- How often a connection and a key occur among the subscriptions of stanmsg/durconn.go.
use nproto.Prelude.{
  Map, ◌==◌, if◌then◌else◌, lookup, insert, nat_eq, ℕ, suc, ◌+◌, ◌≤◌, ◌≡◌, ◌≢◌, ◌↔◌, refl, true,
  none, List, [], ◌∷◌, ◌++◌, arith, text_eq, pair_eq, pair_beq_iff,
}
use nproto.Stanmsg.{Subscription, Key, at, remove, drop_conn, snapshot, has_pair}

unfoldable pub count : ℕ → Key → List (ℕ × Key) → ℕ
count c k [] = 0
count c k (p ∷ ps) = if at c k p then suc (count c k ps) else count c k ps

at_iff : (c : ℕ) (k : Key) (p : ℕ × Key) → (at c k p ≡ true) ↔ ((p.0 ≡ c) × (p.1 ≡ k))
at_iff c k p = ground (arith, pair_beq_iff p.1 k)

pub count-append :
    (c : ℕ) (k : Key) (xs ys : List (ℕ × Key)) → count c k (xs ++ ys) ≡ count c k xs + count c k ys
unfolding count
count-append c k [] ys = omega arith
count-append c k (p ∷ xs) ys = ground (arith, count-append c k xs ys)

-- Moving one pair from the list to a counter.
pub count-remove :
    (c d : ℕ) (k j : Key) (ps : List (ℕ × Key))
    → has_pair d j ps ≡ true
    → count c k ((d, j) ∷ []) + count c k (remove d j ps) ≡ count c k ps
unfolding count remove has_pair
count-remove c d k j [] h = absurd (cc)
count-remove c d k j (p ∷ ps) h =
    ground
      (arith, count-remove c d k j ps, pair_beq_iff p.1 j, pair_beq_iff p.1 k, pair_beq_iff j k)

pub count-drop_conn :
    (c d : ℕ) (k : Key) (ps : List (ℕ × Key)) → c ≢ d → count c k (drop_conn d ps) ≡ count c k ps
unfolding count drop_conn
count-drop_conn c d k [] h = refl
count-drop_conn c d k (p ∷ ps) h = ground (arith, count-drop_conn c d k ps h)

pub count-drop_conn_le :
    (c d : ℕ) (k : Key) (ps : List (ℕ × Key)) → count c k (drop_conn d ps) ≤ count c k ps
unfolding count drop_conn
count-drop_conn_le c d k [] = omega arith
count-drop_conn_le c d k (p ∷ ps) = ground (arith, count-drop_conn_le c d k ps)

module _ {W : Type 0} where
  -- How often a key is in the map of subscriptions.
  unfoldable pub count_key : Key → Map Key (Subscription W) → ℕ
  count_key k [] = 0
  count_key k (p ∷ m) = if p.0 == k then suc (count_key k m) else count_key k m

  pub count-snapshot :
      (c : ℕ) (k : Key) (m : Map Key (Subscription W)) → count c k (snapshot c m) ≡ count_key k m
  unfolding count count_key
  count-snapshot c k [] = refl
  count-snapshot c k (p ∷ m) = ground (arith, count-snapshot c k m)

  pub count-snapshot_ne :
      (c d : ℕ) (k : Key) (m : Map Key (Subscription W)) → c ≢ d → count c k (snapshot d m) ≡ 0
  unfolding count
  count-snapshot_ne c d k [] h = refl
  count-snapshot_ne c d k (p ∷ m) h = ground (arith, count-snapshot_ne c d k m h)

  pub count_key-lookup :
      (k : Key) (m : Map Key (Subscription W)) → lookup k m ≡ none → count_key k m ≡ 0
  unfolding count_key lookup
  count_key-lookup k [] h = refl
  count_key-lookup k (p ∷ m) h = ground (arith, count_key-lookup k m)

  -- Storing a new key.
  pub count_key-insert :
      (j k : Key) (s : Subscription W) (m : Map Key (Subscription W))
      → lookup j m ≡ none
      → count_key k (insert j s m) ≡ count_key k m + count 0 k ((0, j) ∷ [])
  unfolding count_key lookup insert count
  count_key-insert j k s [] h = ground arith
  count_key-insert j k s (p ∷ m) h =
      ground
        (arith, count_key-insert j k s m, pair_beq_iff p.0 j, pair_beq_iff p.0 k, pair_beq_iff j k)
