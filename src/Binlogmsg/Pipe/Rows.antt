-- ===== src/Binlogmsg/Pipe/Rows.antt =====
-- binlogmsg/binlogmsg.go: how often a row stands among those that the pipe works on.
use nproto.Prelude.{
  pair_eq, ◌==◌, ◌&&◌, Bool, if◌then◌else◌, nat_beq, Option, none, some, List, [], ◌∷◌, ◌++◌, map,
  ℕ, ◌+◌, ◌≡◌, refl, arith,
}
use nproto.Go.{Error}
use nproto.Binlogmsg.{MsgEntry, set_publish_err, get_publish_err}
use nproto.Binlogmsg.Pipe.{Row, row_of, ack}

pub get_publish_err-set_publish_err :
    (e : Option Error) (entry : MsgEntry) → get_publish_err (set_publish_err e entry) ≡ some e
unfolding get_publish_err set_publish_err
get_publish_err-set_publish_err none entry = refl
get_publish_err-set_publish_err (some e) entry = refl

pub row_of-set_publish_err :
    (e : Option Error) (entry : MsgEntry) → row_of (set_publish_err e entry) ≡ row_of entry
unfolding set_publish_err row_of
row_of-set_publish_err none entry = refl
row_of-set_publish_err (some e) entry = refl

abbrev pub row_beq : Row → Row → Bool
row_beq p q = (p.0 == q.0) && nat_beq p.1 q.1

unfoldable pub count_row : Row → List Row → ℕ
count_row i [] = 0
count_row i (j ∷ js) = let rest = count_row i js in if row_beq j i then rest + 1 else rest

-- 1 for a result without an error.
unfoldable pub is_ok : Option (Option Error) → ℕ
is_ok (some none) = 1
is_ok (some (some e)) = 0
is_ok none = 0

abbrev pub ok_at : Row → MsgEntry → ℕ
ok_at i entry = if row_beq (row_of entry) i then is_ok (get_publish_err entry) else 0

unfoldable pub oks : Row → List MsgEntry → ℕ
oks i [] = 0
oks i (entry ∷ entries) = let rest = oks i entries in ok_at i entry + rest

pub oks-append : (i : Row) (xs ys : List MsgEntry) → oks i (xs ++ ys) ≡ oks i xs + oks i ys
unfolding oks
oks-append i [] ys = omega arith
oks-append i (x ∷ xs) ys = omega (arith, oks-append i xs ys)

pub ack_counts :
    (e : Option Error) (entry : MsgEntry) (acked : List Row) (i : Row)
    → count_row i (ack e (row_of entry) acked)
      ≡ ok_at i (set_publish_err e entry) + count_row i acked
unfolding ack count_row is_ok
ack_counts none entry acked i =
    rw (row_of-set_publish_err none entry, get_publish_err-set_publish_err none entry)
      (ground arith)
ack_counts (some e) entry acked i =
    rw (row_of-set_publish_err (some e) entry, get_publish_err-set_publish_err (some e) entry)
      (ground arith)

abbrev pub rows : List MsgEntry → List Row
rows entries = map row_of entries

pub count-rows_append :
    (i : Row) (xs ys : List MsgEntry)
    → count_row i (rows (xs ++ ys)) ≡ count_row i (rows xs) + count_row i (rows ys)
unfolding count_row
count-rows_append i [] ys = omega arith
count-rows_append i (x ∷ xs) ys = ground (arith, count-rows_append i xs ys)

pub count-one :
    (i j : Row) (js : List Row) → count_row i (j ∷ js) ≡ count_row i (j ∷ []) + count_row i js
unfolding count_row
count-one i j js = ground arith

pub count-nil : (i : Row) → count_row i [] ≡ 0
unfolding count_row
count-nil i = refl
