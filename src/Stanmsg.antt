-- ===== src/Stanmsg.antt =====
-- stanmsg/durconn.go, stanmsg/utils.go and stanmsg/errors.go: the durable connection to
-- nats-streaming-server, its subscriptions, and what it does with messages.
pub mod Counts
pub mod Invariant
pub mod Safety
pub mod Reconnect
pub mod Messages
pub mod Options
pub mod Retry
pub mod Defaults
mod Tests
use nproto.Prelude.{
  Text, codes, Map, Bool, true, false, ◌==◌, if◌then◌else◌, not, ◌&&◌, Option, none, some, List, [],
  ◌∷◌, ◌++◌, map, ℕ, suc, ◌+◌, ◌-◌, ◌<◌, ◌≡◌, pair_eq, nat_eq, nat_beq, lookup, insert,
}
use nproto.Go.{Value, Error, plain_error, Result, ok, err, Printer}
use nproto.Md.{
  Context, pb, new_pb_meta_data, md_from_outgoing_context, new_incoming_context_with_md,
}
use nproto.Enc.{Encoder, Decoder}
use nproto.Msg.{
  MsgSpec, subject_name, new_msg, MsgAssertion, msg_passes, msg_fails, msg_crashes, assert_msg_type,
  MsgHandler, MessageWithMd, MsgWire,
}

-- stanmsg/errors.go
abbrev pub err_closed : Error
err_closed = plain_error (codes "stanmsg.DurConn closed")

abbrev pub err_dup_subscription : Error
err_dup_subscription = plain_error (codes "stanmsg.DurConn duplicated subscription")

abbrev pub err_not_connected : Error
err_not_connected = plain_error (codes "stanmsg.DurConn not connected")

-- subjectFormat
unfoldable pub subject_format : Text → Text → Text
subject_format prefix subject = prefix ++ b'.' ∷ subject

-- subscription; its options are the AckWait durations, in nanoseconds.
pub record Subscription (W : Type 0) : Type 0 where
  pub spec : MsgSpec
  pub queue : Text
  pub handler : MsgHandler W
  pub stan_options : List ℕ
  pub decoder : Decoder

-- (subject, queue)
abbrev pub Key : Type 0
Key = Text × Text

unfoldable pub key_of : {W : Type 0} → Subscription W → Key
unfolding subject_name
key_of sub = (subject_name sub.spec, sub.queue)

-- The holder of connectMu: nobody; a connect that has taken the old connection out of the DurConn, if
-- there was one, and has not closed it yet; one that is in stan.Connect; or one that has the new
-- connection and has not stored it yet.
pub data Phase : Type 0 where
  idle : Phase
  releasing : Option ℕ → Phase
  dialing : Phase
  updating : ℕ → Phase

-- DurConn with its goroutines. Connections are numbered. `waiting` counts the goroutines of
-- goConnect before connectMu; `opened` are the connections on which Close has not been called
-- (scStaleCh of the others is closed); `lost` are those that stan has found to be broken; `closing` is
-- the connection that Close has taken out of the DurConn and has not closed yet; `pending` are the
-- subscriptions that a subscribeAll has still to make, each with its connection; `made` are
-- those that QueueSubscribe has made.
pub record DurConn (W : Type 0) : Type 0 where
  pub closed : Bool
  pub subs : Map Key (Subscription W)
  pub sc : Option ℕ
  pub phase : Phase
  pub waiting : ℕ
  pub next_conn : ℕ
  pub opened : List ℕ
  pub lost : List ℕ
  pub closing : Option ℕ
  pub pending : List (ℕ × Key)
  pub made : List (ℕ × Key)

abbrev pub at : ℕ → Key → ℕ × Key → Bool
at c k p = nat_beq p.0 c && (p.1 == k)

-- The first occurrence of a pair taken out.
pub remove : ℕ → Key → List (ℕ × Key) → List (ℕ × Key)
remove c k [] = []
remove c k (p ∷ ps) = if at c k p then ps else p ∷ remove c k ps

pub drop_conn : ℕ → List (ℕ × Key) → List (ℕ × Key)
drop_conn c [] = []
drop_conn c (p ∷ ps) = let rest = drop_conn c ps in if nat_beq p.0 c then rest else p ∷ rest

-- sc.Close() and close(scStaleCh)
pub close_conn : ℕ → List ℕ → List ℕ
close_conn c [] = []
close_conn c (d ∷ ds) = let rest = close_conn c ds in if nat_beq d c then rest else d ∷ rest

pub close_held : Option ℕ → List ℕ → List ℕ
unfolding close_conn
close_held none opened = opened
close_held (some c) opened = close_conn c opened

module _ {W : Type 0} where
  -- NewDurConn's connection, with its first goConnect.
  unfoldable pub new_dur_conn : DurConn W
  new_dur_conn = record {
    closed = false;
    subs = [];
    sc = none;
    phase = idle;
    waiting = 1;
    next_conn = 0;
    opened = [];
    lost = [];
    closing = none;
    pending = [];
    made = [];
  }

  -- connect, from taking connectMu to the end of its first section under mu.
  unfoldable pub reset_connection : DurConn W → DurConn W
  reset_connection dc =
      if dc.closed
      then record dc { waiting = dc.waiting - 1 }
      else record dc { waiting = dc.waiting - 1; phase = releasing dc.sc; sc = none }

  -- connect closes the old connection, if there was one, outside of mu.
  unfoldable pub release_old : Option ℕ → DurConn W → DurConn W
  unfolding close_held
  release_old old dc = record dc { phase = dialing; opened = close_held old dc.opened }

  -- stan.Connect fails: another goConnect, and connectMu is released.
  unfoldable pub connect_failed : DurConn W → DurConn W
  connect_failed dc = record dc { phase = idle; waiting = dc.waiting + 1 }

  -- stan.Connect succeeds.
  unfoldable pub connected : DurConn W → DurConn W
  connected dc = record dc {
    phase = updating dc.next_conn;
    next_conn = dc.next_conn + 1;
    opened = dc.next_conn ∷ dc.opened;
  }

  abbrev pub snapshot : ℕ → Map Key (Subscription W) → List (ℕ × Key)
  snapshot c = map (λ p. (c, p.0))

  -- connect, from the new connection on: close it if the DurConn has been closed, else store it and
  -- start subscribeAll on the subscriptions of that moment. A DurConn that is closed stays so, and
  -- the first case is one step, at the close of the new connection.
  unfoldable pub update_connection : ℕ → DurConn W → DurConn W
  unfolding close_conn
  update_connection c dc =
      if dc.closed
      then record dc { phase = idle; opened = close_conn c dc.opened }
      else record dc { phase = idle; sc = some c; pending = snapshot c dc.subs ++ dc.pending }

  -- The ConnectionLostHandler.
  unfoldable pub connection_lost : DurConn W → DurConn W
  connection_lost dc = record dc { waiting = dc.waiting + 1 }

  -- The end of subscribeOne: the subscription is stored, and made if there is a connection.
  pub store_sub : DurConn W → Subscription W → DurConn W
  unfolding insert key_of
  store_sub dc sub = record dc { subs = insert (key_of sub) sub dc.subs }

  -- subscribeOne on a DurConn that is not closed: the entry found for the key, the connection in use,
  -- and the answer of QueueSubscribe, if it is called.
  pub subscribe_new :
      Option (Subscription W)
      → Option ℕ
      → DurConn W
      → Subscription W
      → Option Error
      → Option Error × DurConn W
  unfolding store_sub key_of
  subscribe_new (some old) sc dc sub sub_err = (some err_dup_subscription, dc)
  subscribe_new none none dc sub sub_err = (none, store_sub dc sub)
  subscribe_new none (some c) dc sub (some e) = (some e, dc)
  subscribe_new none (some c) dc sub none =
      (none, record (store_sub dc sub) { made = (c, key_of sub) ∷ dc.made })

  -- subscribeOne
  unfoldable pub subscribe_one :
      DurConn W → Subscription W → Option Error → Option Error × DurConn W
  unfolding lookup subscribe_new key_of
  subscribe_one dc sub sub_err =
      if dc.closed
      then (some err_closed, dc)
      else subscribe_new (lookup (key_of sub) dc.subs) dc.sc dc sub sub_err

  -- One successful subscribe in the loop of subscribeAll.
  unfoldable pub subscribed : ℕ → Key → DurConn W → DurConn W
  unfolding remove
  subscribed c k dc = record dc { pending = remove c k dc.pending; made = (c, k) ∷ dc.made }

  -- subscribeAll returns on the closed scStaleCh of its connection.
  unfoldable pub stale : ℕ → DurConn W → DurConn W
  unfolding drop_conn
  stale c dc = record dc { pending = drop_conn c dc.pending }

  -- Close, to the end of its section under mu.
  unfoldable pub close : DurConn W → DurConn W
  close dc = if dc.closed then dc else record dc { closed = true; closing = dc.sc; sc = none }

  -- Close closes the connection that it has taken.
  unfoldable pub close_taken : ℕ → DurConn W → DurConn W
  unfolding close_conn
  close_taken c dc = record dc { closing = none; opened = close_conn c dc.opened }

  -- stan finds a connection broken.
  unfoldable pub break_conn : ℕ → DurConn W → DurConn W
  break_conn c dc = record dc { lost = c ∷ dc.lost }

pub is_open : ℕ → List ℕ → Bool
is_open c [] = false
is_open c (d ∷ ds) = if nat_beq d c then true else is_open c ds

pub has_pair : ℕ → Key → List (ℕ × Key) → Bool
has_pair c k [] = false
has_pair c k (p ∷ ps) = if at c k p then true else has_pair c k ps

-- The interleavings of the goroutines, of the calls of Subscribe and Close, and of what
-- nats-streaming-server does. A failed subscribe in subscribeAll changes nothing.
pub data Step {W : Type 0} (s t : DurConn W) : Type 0 where
  reset : 0 < s.waiting → s.phase ≡ idle → t ≡ reset_connection s → Step s t
  release : (old : Option ℕ) → s.phase ≡ releasing old → t ≡ release_old old s → Step s t
  dial_fails : s.phase ≡ dialing → t ≡ connect_failed s → Step s t
  dial_succeeds : s.phase ≡ dialing → t ≡ connected s → Step s t
  update : (c : ℕ) → s.phase ≡ updating c → t ≡ update_connection c s → Step s t
  lose : (c : ℕ) → is_open c s.opened ≡ true → t ≡ connection_lost (break_conn c s) → Step s t
  subscribe_call :
      (sub : Subscription W) (e : Option Error) → t ≡ (subscribe_one s sub e).1 → Step s t
  attempt : (c : ℕ) (k : Key) → has_pair c k s.pending ≡ true → t ≡ subscribed c k s → Step s t
  give_up : (c : ℕ) → is_open c s.opened ≡ false → t ≡ stale c s → Step s t
  close_call : t ≡ close s → Step s t
  close_conn_call : (c : ℕ) → s.closing ≡ some c → t ≡ close_taken c s → Step s t

pub data Reach {W : Type 0} : DurConn W → Type 0 where
  start : {s : DurConn W} → s ≡ new_dur_conn → Reach s
  next : {s t : DurConn W} → Reach s → Step s t → Reach t
