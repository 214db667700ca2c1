-- ===== src/Stanmsg/Tests.antt =====
-- stanmsg: the theorems at concrete inputs.
use nproto.Prelude.{
  Option, Bool, List, if◌then◌else◌, ltb, ◌==◌, pair_eq, codes, ◌≡◌, ◌≢◌, ◌↔◌, ◌⊎◌, refl, [], ◌∷◌,
  true, false, none, some, ℕ, ◌+◌, ◌<◌, ◌≤◌, length, arith, lookup, list_beq,
}
use nproto.Go.{Value, ok, raw, type_of}
use nproto.Md.{Context, new_pb_meta_data}
use nproto.Enc.{Encoder, Decoder, encoded}
use nproto.Msg.{MsgSpec, raw_msg, msg_type, subject_name, new_msg, MessageWithMd, MsgWire}
use nproto.Stanmsg.{
  Subscription, DurConn, Key, key_of, new_dur_conn, reset_connection, connected, update_connection,
  subscribe_one, Reach, start, next, reset, dial_succeeds, update, subscribe_call, idle,
  release_old, release, close, close_call, connection_lost, break_conn, lose, is_open, dialing,
  releasing, updating, subject_format,
}
use nproto.Stanmsg.Counts.{count, count_key}
use nproto.Stanmsg.Safety.{subscribed_once, opened_bound}
use nproto.Stanmsg.Reconnect.{reconnects}
use nproto.Stanmsg.Retry.{Ended, all_made, subscribe_all, subscribe_round, all_done, after_round}
use nproto.Stanmsg.Retry.Laws.{times, subscribe_all_ends}
use nproto.Stanmsg.Retry.Steps.{make_all, subscribe_all-Reach}
use nproto.Stanmsg.Messages.{
  publish_async, published, handle_msg, Handled, returns, message_context,
}
use nproto.Stanmsg.Messages.Laws.{publish_async_iff, handle_msg_acks}
use nproto.Samples.{printer, background}

abbrev news : MsgSpec
news = raw_msg (codes "news")

abbrev pass_encoder : Encoder
pass_encoder (raw f b) format bytes = encoded f b
pass_encoder v format bytes = encoded format []

abbrev pass_decoder : Decoder
pass_decoder format bytes v = (none, raw format bytes)

abbrev sub : Subscription ℕ
sub = record {
  spec = news;
  queue = codes "q";
  handler = λ ctx v w. (none, w + 1);
  stan_options = [];
  decoder = pass_decoder;
}

abbrev news_key : Key
news_key = (codes "news", codes "q")

abbrev d1 : DurConn ℕ
d1 = (subscribe_one new_dur_conn sub none).1

abbrev d2 : DurConn ℕ
d2 = reset_connection d1

abbrev d3 : DurConn ℕ
d3 = connected (release_old none d2)

abbrev d4 : DurConn ℕ
d4 = update_connection 0 d3

-- The subscription is stored before the first connection, which then takes it over.
d3-Reach : Reach d3
unfolding new_dur_conn subscribe_one reset_connection release_old connected list_beq key_of
d3-Reach =
    next
      (next
        (next (next (start refl) (subscribe_call sub none refl)) (reset (omega arith) refl refl))
        (release none refl refl))
      (dial_succeeds refl refl)

d4-Reach : Reach d4
unfolding new_dur_conn subscribe_one reset_connection release_old connected update_connection
    list_beq key_of
d4-Reach = next d3-Reach (update 0 refl refl)

subscribed_once_example : count 0 news_key d4.made + count 0 news_key d4.pending ≡ 1
unfolding new_dur_conn subscribe_one reset_connection release_old connected update_connection
    list_beq key_of lookup
subscribed_once_example = subscribed_once d4 0 news_key sub d4-Reach refl refl

-- Close has taken the connection and not closed it yet.
abbrev d5 : DurConn ℕ
d5 = close d4

d5-Reach : Reach d5
d5-Reach = next d4-Reach (close_call refl)

opened_bound_example :
    (length d5.opened ≤ 1)
    × ((d5.closed ≡ false) ⊎ (d5.phase ≢ idle) ⊎ (d5.closing ≢ none) ⊎ (d5.opened ≡ []))
opened_bound_example = opened_bound d5 d5-Reach

-- The connection in use is lost.
abbrev d6 : DurConn ℕ
d6 = connection_lost (break_conn 0 d4)

d6-Reach : Reach d6
unfolding new_dur_conn subscribe_one reset_connection release_old connected update_connection
    list_beq key_of is_open
d6-Reach = next d4-Reach (lose 0 refl refl)

reconnects_example :
    (d6.closed ≡ true)
    ⊎ (0 < d6.waiting)
    ⊎ ((c : ℕ) × (d6.sc ≡ some c) × (d6.phase ≡ idle) × (is_open c d6.lost ≡ false))
    ⊎ (d6.phase ≡ dialing)
    ⊎ ((old : Option ℕ) × (d6.phase ≡ releasing old))
    ⊎ ((c : ℕ) × (d6.phase ≡ updating c) × (is_open c d6.lost ≡ false))
reconnects_example = reconnects {s = d6} d6-Reach

abbrev sent : MessageWithMd
sent = record { meta_data = new_pb_meta_data none; msg_format = codes "json"; msg_bytes = 7 ∷ [] }

abbrev wire : MsgWire
wire = record { marshal_message = λ m. ok (1 ∷ []); unmarshal_message = λ b. ok sent }

abbrev note : Value
note = raw (codes "json") (7 ∷ [])

publish_async_iff_example :
    (publish_async printer wire (codes "stan") d4 pass_encoder background news note
      ≡ published 0 (codes "stan.news") (1 ∷ []))
    ↔ ((type_of note ≡ some (msg_type news))
        × ((pass_encoder note [] []).error ≡ none)
        × (wire.marshal_message (record {
          meta_data = new_pb_meta_data background.outgoing;
          msg_format = (pass_encoder note [] []).format;
          msg_bytes = (pass_encoder note [] []).bytes;
        })
            ≡ ok (1 ∷ []))
        × (d4.closed ≡ false)
        × (d4.sc ≡ some 0)
        × (subject_format (codes "stan") (subject_name news) ≡ codes "stan.news"))
publish_async_iff_example =
    publish_async_iff printer wire (codes "stan") d4 pass_encoder background news note 0
      (codes "stan.news") (1 ∷ [])

abbrev run : Context → Value → ℕ → Handled × ℕ
run ctx v w = (returns none, w + 1)

handle_msg_acks_example :
    ((handle_msg wire background run news pass_decoder (1 ∷ []) 5).0 ≡ true) ↔ (
      (m : MessageWithMd) × (v : Value) × (wire.unmarshal_message (1 ∷ []) ≡ ok m)
      × (pass_decoder m.msg_format m.msg_bytes (new_msg news) ≡ (none, v))
      × ((run (message_context background m) v 5).0 ≡ returns none))
handle_msg_acks_example = handle_msg_acks wire background run news pass_decoder (1 ∷ []) 5

-- The second subscription is refused in the first round.
abbrev answers : ℕ → Key → Bool
answers i k = if k == news_key then true else ltb 0 i

abbrev other_key : Key
other_key = (codes "other", codes "q")

subscribe_all_ends_example :
    (e : Ended) × (made : List Key) × (subscribe_all answers
        (λ i k. false)
        (λ i. false)
        2
        0
        ((news_key, false) ∷ (other_key, false) ∷ [])
      ≡ some (e, made))
    × ((k : Key)
        → (times k made ≤ times k (news_key ∷ other_key ∷ []))
          × (e ≡ all_made → times k made ≡ times k (news_key ∷ other_key ∷ [])))
unfolding list_beq
subscribe_all_ends_example =
    subscribe_all_ends answers (λ i k. false) (λ i. false) 1 (news_key ∷ other_key ∷ [])
      ((0, omega arith, omega arith, refl), ((1, omega arith, omega arith, refl), tt))

-- The subscription that is stored before the first connection is refused in the first round.
abbrev refused_once : ℕ → Key → Bool
refused_once i k = ltb 0 i

subscribe_all-Reach_example :
    Reach (make_all 0 (news_key ∷ []) (update_connection 0 d3))
    × ((k : Key)
        → (count 0 k (make_all 0 (news_key ∷ []) (update_connection 0 d3)).made
            ≤ count_key k d3.subs)
          × (all_made ≡ all_made
              → count 0 k (make_all 0 (news_key ∷ []) (update_connection 0 d3)).made
                ≡ count_key k d3.subs))
unfolding subscribe_all subscribe_round all_done after_round list_beq new_dur_conn subscribe_one
    reset_connection release_old connected update_connection key_of
subscribe_all-Reach_example =
    subscribe_all-Reach refused_once (λ i k. false) (λ i. false) 2 0 d3 all_made (news_key ∷ [])
      d3-Reach refl refl refl
