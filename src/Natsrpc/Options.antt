-- ===== src/Natsrpc/Options.antt =====
-- natsrpc/options.go with NewServerConn of natsrpc/server.go and NewClientConn of natsrpc/client.go.
pub mod Laws
mod Tests
use nproto.Prelude.{
  Text, codes, Bool, true, false, if◌then◌else◌, not, ◌==◌, text_eq, Option, none, some, List, [],
  ◌∷◌, ◌++◌, ℕ,
}
use nproto.Prelude.Int.{ℤ, pos, negsuc}
use nproto.Go.{Error, plain_error, Result, ok, err, Printer}
use nproto.Md.{Context}
use nproto.Names.{matches_prefix}
use nproto.Options.{at_least, Runners, replace_runner, close_current, apply_all}
use nproto.Natsrpc.{err_nc_max_reconnect}
use nproto.Natsrpc.Server.{ServerConn}

-- ServerConnOption, by the functions that make one; `none` is a nil argument. The logger is left
-- out of the model.
pub data ServerConnOption : Type 0 where
  sc_opt_logger : ServerConnOption
  sc_opt_runner : Option ℕ → ServerConnOption
  sc_opt_subject_prefix : Text → ServerConnOption
  sc_opt_group : Text → ServerConnOption
  sc_opt_context : Option Context → ServerConnOption

-- The fields of a ServerConn that options set.
pub record ServerConfig : Type 0 where
  pub ctx : Context
  pub subject_prefix : Text
  pub group : Text
  pub runners : Runners

-- ClientConnOption
pub data ClientConnOption : Type 0 where
  cc_opt_subject_prefix : Text → ClientConnOption
  cc_opt_timeout : ℤ → ClientConnOption

-- The fields of a ClientConn that options set; the timeout is a Duration in nanoseconds.
pub record ClientConfig : Type 0 where
  pub subject_prefix : Text
  pub timeout : ℤ

module _ (fmt : Printer) (duration_string : ℤ → Text) where
  -- The option functions of a server; context.Background() is `background`.
  unfoldable pub apply_server_option : ServerConnOption → ServerConfig → Result ServerConfig
  unfolding replace_runner matches_prefix
  apply_server_option sc_opt_logger c = ok c
  apply_server_option (sc_opt_runner none) c =
      err (plain_error (codes "SCOptRunner got nil taskrunner.TaskRunner"))
  apply_server_option (sc_opt_runner (some r)) c =
      ok (record c { runners = replace_runner r c.runners })
  apply_server_option (sc_opt_subject_prefix prefix) c =
      if matches_prefix prefix
      then ok (record c { subject_prefix = prefix })
      else err (
          plain_error (codes "SCOptSubjectPrefix got invalid subject prefix " ++ fmt.verb_q prefix))
  apply_server_option (sc_opt_group group) c =
      if group == []
      then err (plain_error (codes "SCOptGroup got empty group"))
      else ok (record c { group = group })
  apply_server_option (sc_opt_context none) c =
      err (plain_error (codes "SCOptContext got nil context.Context"))
  apply_server_option (sc_opt_context (some ctx)) c = ok (record c { ctx = ctx })

  -- The deferred function of NewServerConn.
  unfoldable pub close_on_error : Option Error × ServerConfig → Option Error × ServerConfig
  unfolding close_current
  close_on_error (none, c) = (none, c)
  close_on_error (some e, c) = (some e, record c { runners = close_current c.runners })

  unfoldable pub default_server_config : Context → ℕ → ServerConfig
  default_server_config background runner = record {
    ctx = background;
    subject_prefix = codes "natsrpc";
    group = codes "def";
    runners = record { current = runner; closed_runners = [] };
  }

  -- NewServerConn for nc.Opts.MaxReconnect, the options and the runner of limitedrunner.Must(); no
  -- object is made if MaxReconnect is not negative.
  unfoldable pub new_server_conn :
      Context → ℕ → ℤ → List ServerConnOption → Option Error × Option ServerConfig
  unfolding apply_server_option close_on_error default_server_config apply_all
  new_server_conn background runner max_reconnect opts =
      if at_least 0 max_reconnect
      then (some err_nc_max_reconnect, none)
      else (let (e, c) =
            close_on_error
              (apply_all apply_server_option opts (default_server_config background runner)) in
          (e, some c))

  -- The option functions of a client.
  unfoldable pub apply_client_option : ClientConnOption → ClientConfig → Result ClientConfig
  unfolding matches_prefix
  apply_client_option (cc_opt_subject_prefix prefix) c =
      if matches_prefix prefix
      then ok (record c { subject_prefix = prefix })
      else err (
          plain_error (codes "CCOptSubjectPrefix got invalid subject prefix " ++ fmt.verb_q prefix))
  apply_client_option (cc_opt_timeout t) c =
      if at_least 1 t
      then ok (record c { timeout = t })
      else err (plain_error (codes "CCOptTimeout got non-positive duration " ++ duration_string t))

  unfoldable pub default_client_config : ClientConfig
  default_client_config = record { subject_prefix = codes "natsrpc"; timeout = pos 5000000000 }

  -- NewClientConn
  unfoldable pub new_client_conn : ℤ → List ClientConnOption → Option Error × Option ClientConfig
  unfolding apply_client_option default_client_config apply_all
  new_client_conn max_reconnect opts =
      if at_least 0 max_reconnect
      then (some err_nc_max_reconnect, none)
      else (let (e, c) = apply_all apply_client_option opts default_client_config in (e, some c))

-- The ServerConn that NewServerConn returns.
unfoldable pub server_conn_of : {W : Type 0} → ServerConfig → ServerConn W
server_conn_of c = record {
  ctx = c.ctx;
  subject_prefix = c.subject_prefix;
  group = c.group;
  runner_open = true;
  closed = false;
  subs = [];
  method_maps = [];
  active = [];
  next_id = 0;
}
