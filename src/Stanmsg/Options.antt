-- ===== src/Stanmsg/Options.antt =====
-- stanmsg/options.go with NewDurConn and NewSubscriber of stanmsg/durconn.go.
pub mod Laws
use nproto.Prelude.{
  Text, codes, Bool, true, false, if◌then◌else◌, Option, none, some, List, [], ◌∷◌, ◌++◌, ℕ,
}
use nproto.Prelude.Int.{ℤ, pos, negsuc, pos_part}
use nproto.Go.{Error, plain_error, Result, ok, err, Printer}
use nproto.Md.{Context}
use nproto.Enc.{Decoder}
use nproto.Names.{matches_prefix}
use nproto.Msg.{MsgSpec, MsgHandler}
use nproto.Options.{at_least, Runners, replace_runner, close_current, apply_all}
use nproto.Stanmsg.{Subscription, DurConn, subscribe_one}

-- DurConnOption, by the functions that make one; `none` is a nil argument. The logger and the
-- three callbacks are left out of the model. Durations are in nanoseconds.
pub data DurConnOption : Type 0 where
  dc_opt_logger : DurConnOption
  dc_opt_runner : Option ℕ → DurConnOption
  dc_opt_subject_prefix : Text → DurConnOption
  dc_opt_context : Option Context → DurConnOption
  dc_opt_reconnect_wait : ℤ → DurConnOption
  dc_opt_sub_retry_wait : ℤ → DurConnOption
  dc_opt_stan_ping_interval : ℤ → DurConnOption
  dc_opt_stan_ping_max_out : ℤ → DurConnOption
  dc_opt_stan_pub_ack_wait : ℤ → DurConnOption
  dc_opt_connect_cb : DurConnOption
  dc_opt_disconnect_cb : DurConnOption
  dc_opt_subscribe_cb : DurConnOption

-- The fields of a DurConn that options set.
pub record DurConfig : Type 0 where
  pub ctx : Context
  pub subject_prefix : Text
  pub runners : Runners
  pub reconnect_wait : ℤ
  pub sub_retry_wait : ℤ
  pub ping_interval : ℤ
  pub ping_max_out : ℤ
  pub pub_ack_wait : ℤ

-- The options of NewSubscriber's function: SubOptStanAckWait with its duration, or a value of another
-- type, by what %v prints for it.
pub data AnyOption : Type 0 where
  stan_ack_wait : ℤ → AnyOption
  other_option : Text → AnyOption

-- stanmsg/errors.go
abbrev pub err_nc_max_reconnect : Error
err_nc_max_reconnect = plain_error (codes "stanmsg.DurConn nats.Conn should have MaxReconnects < 0")

-- A value that an option stores if it is large enough, or its error.
abbrev pub checked : ℕ → ℤ → Text → DurConfig → Result DurConfig
checked bound i message c = if at_least bound i then ok c else err (plain_error message)

module _ (fmt : Printer) (duration_string : ℤ → Text) where
  -- The option functions.
  unfoldable pub apply_option : DurConnOption → DurConfig → Result DurConfig
  unfolding replace_runner matches_prefix
  apply_option dc_opt_logger c = ok c
  apply_option (dc_opt_runner none) c =
      err (plain_error (codes "DCOptRunner got nil taskrunner.TaskRunner"))
  apply_option (dc_opt_runner (some r)) c = ok (record c { runners = replace_runner r c.runners })
  apply_option (dc_opt_subject_prefix prefix) c =
      if matches_prefix prefix
      then ok (record c { subject_prefix = prefix })
      else err (
          plain_error (codes "DCOptSubjectPrefix got invalid subject prefix " ++ fmt.verb_q prefix))
  apply_option (dc_opt_context none) c =
      err (plain_error (codes "DCOptContext got nil context.Context"))
  apply_option (dc_opt_context (some ctx)) c = ok (record c { ctx = ctx })
  apply_option (dc_opt_reconnect_wait t) c =
      checked 1 t (codes "DCOptReconnectWait got non-positive duration " ++ duration_string t)
        (record c { reconnect_wait = t })
  apply_option (dc_opt_sub_retry_wait t) c =
      checked 1 t (codes "DCOptSubRetryWait got non-positive duration " ++ duration_string t)
        (record c { sub_retry_wait = t })
  apply_option (dc_opt_stan_ping_interval i) c =
      checked 1 i
        (codes "DCOptStanPingInterval got too small interval (" ++ fmt.format_int i ++ codes "<1)")
        (record c { ping_interval = i })
  apply_option (dc_opt_stan_ping_max_out i) c =
      checked 2 i
        (codes "DCOptStanPingMaxOut got too small max out (" ++ fmt.format_int i ++ codes "<2)")
        (record c { ping_max_out = i })
  apply_option (dc_opt_stan_pub_ack_wait t) c =
      checked 1 t (codes "DCOptStanPubAckWait got non-positive duration " ++ duration_string t)
        (record c { pub_ack_wait = t })
  apply_option dc_opt_connect_cb c = ok c
  apply_option dc_opt_disconnect_cb c = ok c
  apply_option dc_opt_subscribe_cb c = ok c

  -- SubOptStanAckWait, by the duration, on the options of a subscription.
  unfoldable pub apply_sub_option : ℤ → List ℕ → Result (List ℕ)
  apply_sub_option t waits =
      if at_least 1 t
      then ok (waits ++ pos_part t ∷ [])
      else err
          (plain_error (codes "SubOptStanAckWait got non-positive duration " ++ duration_string t))

  unfoldable pub apply_any_option : AnyOption → List ℕ → Result (List ℕ)
  unfolding apply_sub_option
  apply_any_option (other_option printed) waits =
      err (plain_error (codes "Expect SubOption but got " ++ printed))
  apply_any_option (stan_ack_wait t) waits = apply_sub_option t waits

  -- NewSubscriber's function, up to the answer of QueueSubscribe.
  unfoldable pub subscribe_with :
      {W : Type 0}
      → DurConn W
      → Decoder
      → MsgSpec
      → Text
      → MsgHandler W
      → List AnyOption
      → Option Error
      → Option Error × DurConn W
  unfolding apply_any_option apply_all subscribe_one
  subscribe_with dc decoder spec queue handler opts sub_err =
      let (e, waits) = apply_all apply_any_option opts [] in
      elim e [
        | some e' ↦ (some e', dc)
        | none ↦
            subscribe_one dc
              (record {
                spec = spec;
                queue = queue;
                handler = handler;
                stan_options = waits;
                decoder = decoder;
              })
              sub_err
      ]

  -- The deferred function of NewDurConn.
  unfoldable pub close_on_error : Option Error × DurConfig → Option Error × DurConfig
  unfolding close_current
  close_on_error (none, c) = (none, c)
  close_on_error (some e, c) = (some e, record c { runners = close_current c.runners })

  module _ (background : Context) (default_ping_interval default_ping_max_out : ℤ) where
    -- The defaults; those of the pings are stan.DefaultPingInterval and stan.DefaultPingMaxOut.
    unfoldable pub default_config : ℕ → DurConfig
    default_config runner = record {
      ctx = background;
      subject_prefix = codes "stanmsg";
      runners = record { current = runner; closed_runners = [] };
      reconnect_wait = pos 5000000000;
      sub_retry_wait = pos 5000000000;
      ping_interval = default_ping_interval;
      ping_max_out = default_ping_max_out;
      pub_ack_wait = pos 2000000000;
    }

    -- NewDurConn for nc.Opts.MaxReconnect, the options and the runner of limitedrunner.Must().
    unfoldable pub new_dur_config : ℕ → ℤ → List DurConnOption → Option Error × Option DurConfig
    unfolding apply_option close_on_error default_config apply_all
    new_dur_config runner max_reconnect opts =
        if at_least 0 max_reconnect
        then (some err_nc_max_reconnect, none)
        else (let (e, c) = close_on_error (apply_all apply_option opts (default_config runner)) in
            (e, some c))
