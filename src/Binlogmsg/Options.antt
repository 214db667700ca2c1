-- ===== src/Binlogmsg/Options.antt =====
-- binlogmsg/options.go with NewMsgPipe of binlogmsg/binlogmsg.go.
use nproto.Prelude.{Text, codes, if◌then◌else◌, Option, List, ◌++◌}
use nproto.Prelude.Int.{ℤ, pos}
use nproto.Go.{Error, plain_error, Result, ok, err, Printer}
use nproto.Options.{at_least, apply_all}

-- MsgPipeOption, by the functions that make one; the logger is left out of the model, durations are
-- in nanoseconds.
pub data MsgPipeOption : Type 0 where
  pipe_opt_logger : MsgPipeOption
  pipe_opt_max_inflight : ℤ → MsgPipeOption
  pipe_opt_retry_wait : ℤ → MsgPipeOption

-- The fields of a MsgPipe that options set.
pub record PipeConfig : Type 0 where
  pub max_inflight : ℤ
  pub retry_wait : ℤ

module _ (fmt : Printer) (duration_string : ℤ → Text) where
  -- The option functions.
  unfoldable pub apply_pipe_option : MsgPipeOption → PipeConfig → Result PipeConfig
  apply_pipe_option pipe_opt_logger c = ok c
  apply_pipe_option (pipe_opt_max_inflight n) c =
      if at_least 1 n
      then ok (record c { max_inflight = n })
      else err (
          plain_error
            (codes "PipeOptMaxInflight should be at least 1, but got " ++ fmt.format_int n))
  apply_pipe_option (pipe_opt_retry_wait t) c =
      if at_least 1 t
      then ok (record c { retry_wait = t })
      else err
          (plain_error (codes "PipeOptRetryWait got non-positive duration " ++ duration_string t))

  -- NewMsgPipe for a downstream that is a MsgPublisher or a MsgAsyncPublisher.
  unfoldable pub new_msg_pipe : List MsgPipeOption → Option Error × PipeConfig
  unfolding apply_pipe_option apply_all
  new_msg_pipe opts =
      apply_all apply_pipe_option opts
        (record { max_inflight = pos 4096; retry_wait = pos 5000000000 })
