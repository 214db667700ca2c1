-- ===== src/Tracing.antt =====
-- tracing/util.go, tracing/rpc/rpc.go and tracing/rpc/var.go: span contexts in meta data, and the middlewares of rpc that
-- open and finish spans.
pub mod Laws
pub mod Finish
pub mod Messages
mod Tests
use nproto.Prelude.{Text, codes, Option, none, some, List, [], ◌∷◌, ◌++◌, ℕ, ◌+◌}
use nproto.Go.{Value, Error, Result, ok, err, Printer}
use nproto.Md.{
  Md, meta, traced, values, tracing_md_key, Context, new_outgoing_context_with_md,
  md_from_outgoing_context, md_from_incoming_context,
}
use nproto.Rpc.{
  RpcSpec, svc_name, method_name, RpcHandler, RpcMiddleware, Outcome, output, failed, panicked,
  error_text,
}

-- What tracer.Extract answers: a span context, ErrSpanContextNotFound, or another error.
pub data Extraction : Type 0 where
  found : ℕ → Extraction
  not_found : Extraction
  corrupt : Error → Extraction

-- ot.Tracer on the Binary format. A span and its context are the span's number.
pub record Tracer : Type 0 where
  pub inject : ℕ → Result Text
  pub extract : Text → Extraction

-- ot.ChildOf and ot.FollowsFrom
pub data Reference : Type 0 where
  child_of : ℕ → Reference
  follows_from : ℕ → Reference

-- otext.SpanKindRPCClient, SpanKindRPCServer, SpanKindProducer and SpanKindConsumer
pub data Kind : Type 0 where
  rpc_client : Kind
  rpc_server : Kind
  producer : Kind
  consumer : Kind

-- tracer.StartSpan's arguments, with the number of the new span.
pub record Span : Type 0 where
  pub id : ℕ
  pub op_name : Text
  pub reference : Reference
  pub kind : Kind
  pub component : Text

-- What the tracer has recorded: the spans started, and for each Finish the span with the message
-- of the error set on it, both the latest first.
pub record Trace : Type 0 where
  pub next_span : ℕ
  pub started : List Span
  pub finished : List (ℕ × Option Text)

unfoldable pub start_span : Text → Reference → Kind → Text → Trace → Trace
start_span op ref kind component trace = record trace {
  next_span = trace.next_span + 1;
  started =
      (record {
        id = trace.next_span;
        op_name = op;
        reference = ref;
        kind = kind;
        component = component;
      })
      ∷ trace.started;
}

-- InjectSpanCtx
unfoldable pub inject_span_ctx : Tracer → ℕ → Option Md → Result Md
inject_span_ctx tracer span_ctx md = elim (tracer.inject span_ctx) [
  | err e ↦ err e
  | ok data_ ↦ ok (traced (elim md [ none ↦ meta [] | some m ↦ m ]) data_)
]

-- From the values of TracingMDKey on.
unfoldable pub extract_first : Tracer → List Text → Result (Option ℕ)
extract_first tracer [] = ok none
extract_first tracer (data_ ∷ more) = elim (tracer.extract data_) [
  | found span_ctx ↦ ok (some span_ctx)
  | not_found ↦ ok none
  | corrupt e ↦ err e
]

-- ExtractSpanCtx
unfoldable pub extract_span_ctx : Tracer → Option Md → Result (Option ℕ)
unfolding extract_first values
extract_span_ctx tracer none = ok none
extract_span_ctx tracer (some md) = extract_first tracer (values md tracing_md_key)

-- SetSpanError and span.Finish
unfoldable pub finish_span : Printer → ℕ → Option Error → Trace → Trace
finish_span fmt span none trace = record trace { finished = (span, none) ∷ trace.finished }
finish_span fmt span (some e) trace = record trace {
  finished = (span, some (error_text fmt e)) ∷ trace.finished;
}

module _ {W : Type 0} (fmt : Printer) (tracer : Tracer) where
  -- A nil handler panics.
  unfoldable pub call : Option (RpcHandler (Trace × W)) → RpcHandler (Trace × W)
  call none ctx input s = (panicked, s)
  call (some h) ctx input s = h ctx input s

  -- The deferred function, also on a panic, when err is still nil.
  unfoldable pub finish_call : ℕ → Outcome × (Trace × W) → Outcome × (Trace × W)
  unfolding finish_span
  finish_call span (failed e, (trace, w)) = (failed e, (finish_span fmt span (some e) trace, w))
  finish_call span (output v, (trace, w)) = (output v, (finish_span fmt span none trace, w))
  finish_call span (panicked, (trace, w)) = (panicked, (finish_span fmt span none trace, w))

  -- The client's wrapper from the injection on.
  unfoldable pub client_injected :
      Option (RpcHandler (Trace × W)) → ℕ → Result Md → RpcHandler (Trace × W)
  unfolding finish_call call new_outgoing_context_with_md
  client_injected handler span (err e) ctx input s = finish_call span (failed e, s)
  client_injected handler span (ok md) ctx input s =
      finish_call span (call handler (new_outgoing_context_with_md ctx (some md)) input s)

  -- The client's wrapper, by the span in the context.
  unfoldable pub client_traced :
      Text → Option (RpcHandler (Trace × W)) → Option ℕ → RpcHandler (Trace × W)
  unfolding start_span client_injected inject_span_ctx call md_from_outgoing_context
  client_traced op handler none ctx input s = call handler ctx input s
  client_traced op handler (some parent) ctx input (trace, w) =
      client_injected handler trace.next_span
        (inject_span_ctx tracer trace.next_span (md_from_outgoing_context ctx)) ctx input
        (start_span op (child_of parent) rpc_client (codes "nprpc.client") trace, w)

  -- WrapRPCClient
  unfoldable pub wrap_rpc_client : RpcMiddleware (Trace × W)
  unfolding client_traced svc_name method_name
  wrap_rpc_client spec handler = some (λ ctx input s.
      client_traced (codes "RPC Client " ++ svc_name spec ++ codes ":" ++ method_name spec) handler
        ctx.span ctx input s)

  -- The server's wrapper from the extracted span context on.
  unfoldable pub server_traced :
      Text → Option (RpcHandler (Trace × W)) → Result (Option ℕ) → RpcHandler (Trace × W)
  unfolding start_span finish_call call
  server_traced op handler (err e) ctx input s = (failed e, s)
  server_traced op handler (ok none) ctx input s = call handler ctx input s
  server_traced op handler (ok (some parent)) ctx input (trace, w) = finish_call trace.next_span (
      call handler (record ctx { span = some trace.next_span }) input
        (start_span op (child_of parent) rpc_server (codes "nprpc.server") trace, w))

  -- WrapRPCServer
  unfoldable pub wrap_rpc_server : RpcMiddleware (Trace × W)
  unfolding server_traced svc_name method_name extract_span_ctx md_from_incoming_context
  wrap_rpc_server spec handler = some (λ ctx input s.
      server_traced (codes "RPC Server " ++ svc_name spec ++ codes ":" ++ method_name spec) handler
        (extract_span_ctx tracer (md_from_incoming_context ctx)) ctx input s)
