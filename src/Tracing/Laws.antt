-- ===== src/Tracing/Laws.antt =====
-- tracing/util.go, tracing/md.go and tracing/rpc/rpc.go: a span context on its way from a client to
-- a server, and the spans of one call.
use nproto.Prelude.{
  Text, codes, text_eq, list_beq_iff, ℕ, ◌+◌, ◌≡◌, ◌≢◌, refl, ap, ◌∙◌, Option, none, some, [], ◌∷◌,
  ◌++◌, arith,
}
use nproto.Go.{Value, ok, Printer}
use nproto.Md.{
  Md, meta, traced, pb, values, tracing_md_key, new_pb_meta_data, Context,
  new_outgoing_context_with_md, new_incoming_context_with_md, md_from_outgoing_context,
  md_from_incoming_context,
}
use nproto.Md.Laws.{has_key-new_pb_meta_data}
use nproto.Rpc.{
  Outcome, output, failed, panicked, error_text, RpcSpec, svc_name, method_name, RpcHandler,
}
use nproto.Tracing.{
  finish_span, found, Tracer, child_of, rpc_client, rpc_server, Trace, start_span, inject_span_ctx,
  extract_first, extract_span_ctx, call, finish_call, client_injected, client_traced,
  wrap_rpc_client, server_traced, wrap_rpc_server,
}

-- What a call came to, as a finished span records it: the message of the error that it returned.
abbrev pub recorded : Printer → Outcome → Option Text
recorded fmt (failed e) = some (error_text fmt e)
recorded fmt (output v) = none
recorded fmt panicked = none

-- The MD that InjectSpanCtx wraps; nil is the empty one.
abbrev pub or_empty_md : Option Md → Md
or_empty_md none = meta []
or_empty_md (some md) = md

values_traced_key : (md : Md) (data_ : Text) → values (traced md data_) tracing_md_key ≡ data_ ∷ []
unfolding values
values_traced_key md data_ = ground (arith, list_beq_iff tracing_md_key tracing_md_key)

values_traced_other :
    (md : Md) (data_ key : Text)
    → key ≢ tracing_md_key
    → values (traced md data_) key ≡ values md key
unfolding values
values_traced_other md data_ key ne = ground (arith, list_beq_iff key tracing_md_key)

extract_of_values :
    (tracer : Tracer) (md : Md) (data_ : Text) (span : ℕ)
    → values md tracing_md_key ≡ data_ ∷ []
    → tracer.extract data_ ≡ found span
    → extract_span_ctx tracer (some md) ≡ ok (some span)
unfolding extract_span_ctx extract_first
extract_of_values tracer md data_ span v e = rw (v, extract_span_ctx) (rw (e, extract_first) refl)

carried :
    (tracer : Tracer) (md : Md) (span : ℕ) (data_ : Text)
    → tracer.extract data_ ≡ found span
    → extract_span_ctx tracer (some (pb (new_pb_meta_data (some (traced md data_)))))
      ≡ ok (some span)
carried tracer md span data_ r =
    extract_of_values tracer (pb (new_pb_meta_data (some (traced md data_)))) data_ span
      ((has_key-new_pb_meta_data (traced md data_) tracing_md_key).1 ∙ values_traced_key md data_) r

kept :
    (md : Md) (data_ key : Text)
    → key ≢ tracing_md_key
    → values (pb (new_pb_meta_data (some (traced md data_)))) key ≡ values md key
kept md data_ key ne =
    (has_key-new_pb_meta_data (traced md data_) key).1 ∙ values_traced_other md data_ key ne

inject_as :
    (tracer : Tracer) (md : Option Md) (span : ℕ) (data_ : Text)
    → tracer.inject span ≡ ok data_
    → inject_span_ctx tracer span md ≡ ok (traced (or_empty_md md) data_)
unfolding inject_span_ctx
inject_as tracer none span data_ w = rw (w, inject_span_ctx) refl
inject_as tracer (some md) span data_ w = rw (w, inject_span_ctx) refl

-- A span context that InjectSpanCtx puts into meta data, whatever is in there, an older span context
-- included, is the one that ExtractSpanCtx finds after the meta data has been converted for the
-- wire, if the tracer reads what it has written; every other key keeps its values.
pub extract_span_ctx-inject_span_ctx :
    (tracer : Tracer) (md : Option Md) (span : ℕ) (data_ key : Text)
    → tracer.inject span ≡ ok data_
    → tracer.extract data_ ≡ found span
    → key ≢ tracing_md_key
    → (out : Md) × (inject_span_ctx tracer span md ≡ ok out)
      × (extract_span_ctx tracer (some (pb (new_pb_meta_data (some out)))) ≡ ok (some span))
      × (values (pb (new_pb_meta_data (some out))) key ≡ values (or_empty_md md) key)
extract_span_ctx-inject_span_ctx tracer md span data_ key w r ne = (
  traced (or_empty_md md) data_,
  inject_as tracer md span data_ w,
  carried tracer (or_empty_md md) span data_ r,
  kept (or_empty_md md) data_ key ne,
)

module _ {W : Type 0} (fmt : Printer) (tracer : Tracer) (spec : RpcSpec)
    (handler : Option (RpcHandler (Trace × W))) (server_ctx : Context) where
  -- A server that is called in a context of its own, with the client's outgoing meta data in the
  -- form that goes over the wire.
  abbrev pub over_wire : RpcHandler (Trace × W)
  over_wire ctx input s =
      call fmt tracer (wrap_rpc_server fmt tracer spec handler)
        (new_incoming_context_with_md server_ctx (some (pb (new_pb_meta_data ctx.outgoing)))) input
        s

  abbrev pub client_started : ℕ → Trace → Trace
  client_started parent =
      start_span (codes "RPC Client " ++ svc_name spec ++ codes ":" ++ method_name spec)
        (child_of parent) rpc_client (codes "nprpc.client")

  abbrev pub server_started : ℕ → Trace → Trace
  server_started parent =
      start_span (codes "RPC Server " ++ svc_name spec ++ codes ":" ++ method_name spec)
        (child_of parent) rpc_server (codes "nprpc.server")

  over_wire_traced :
      (ctx : Context) (md : Md) (input : Value) (t : Trace) (w : W) (span : ℕ) (data_ : Text)
      → ctx.outgoing ≡ some (traced md data_)
      → tracer.extract data_ ≡ found span
      → over_wire ctx input (t, w)
        ≡ finish_call fmt tracer t.next_span (
            call fmt tracer handler
              (record server_ctx {
                incoming = some (pb (new_pb_meta_data (some (traced md data_))));
                span = some t.next_span;
              })
              input
              (server_started span t, w))
  unfolding wrap_rpc_server server_traced call new_incoming_context_with_md md_from_incoming_context
  over_wire_traced ctx md input t w span data_ o r =
      rw o (rw (carried tracer md span data_ r, server_traced) refl)

  finish_call_lem :
      (span : ℕ) (r : Outcome × (Trace × W))
      → finish_call fmt tracer span r
        ≡ (r.0, (record (r.1.0) { finished = (span, recorded fmt r.0) ∷ r.1.0.finished }, r.1.1))
  unfolding finish_call finish_span
  finish_call_lem span (failed e, (t, w)) = refl
  finish_call_lem span (output v, (t, w)) = refl
  finish_call_lem span (panicked, (t, w)) = refl

  -- The call with the two deferred functions.
  finished_twice :
      (ctx : Context) (input : Value) (t : Trace) (w : W) (parent : ℕ) (data_ : Text)
      → ctx.span ≡ some parent
      → tracer.inject t.next_span ≡ ok data_
      → tracer.extract data_ ≡ found t.next_span
      → call fmt tracer (wrap_rpc_client fmt tracer spec (some over_wire)) ctx input (t, w)
        ≡ finish_call fmt tracer t.next_span (
            finish_call fmt tracer (t.next_span + 1) (
              call fmt tracer handler
                (record server_ctx {
                  incoming =
                      some (pb (new_pb_meta_data (some (traced (or_empty_md ctx.outgoing) data_))));
                  span = some (t.next_span + 1);
                })
                input
                (server_started t.next_span (client_started parent t), w)))
  unfolding wrap_rpc_client client_traced client_injected call new_outgoing_context_with_md
      md_from_outgoing_context start_span
  finished_twice ctx input t w parent data_ h q r =
      rw (h, wrap_rpc_client)
        (rw (inject_as tracer ctx.outgoing t.next_span data_ q, client_injected)
          (ap (finish_call fmt tracer t.next_span) (
            over_wire_traced
              (new_outgoing_context_with_md ctx (some (traced (or_empty_md ctx.outgoing) data_)))
              (or_empty_md ctx.outgoing) input (client_started parent t) w t.next_span data_ refl
              r)))

  -- A call in a context with a span, through WrapRPCClient, over the wire and through WrapRPCServer,
  -- with a tracer that reads what it has written: the server's handler runs once, in a span that is
  -- the child of the client's span, which is the child of the caller's; then the server's span
  -- and after it the client's are finished with the error that the handler returned, if it did, and
  -- the client gets what the handler came to.
  pub traced_call :
      (ctx : Context) (input : Value) (t : Trace) (w : W) (parent : ℕ) (data_ : Text)
      → ctx.span ≡ some parent
      → tracer.inject t.next_span ≡ ok data_
      → tracer.extract data_ ≡ found t.next_span
      → let r =
          call fmt tracer handler
            (record server_ctx {
              incoming =
                  some (pb (new_pb_meta_data (some (traced (or_empty_md ctx.outgoing) data_))));
              span = some (t.next_span + 1);
            })
            input
            (server_started t.next_span (client_started parent t), w) in
        call fmt tracer (wrap_rpc_client fmt tracer spec (some over_wire)) ctx input (t, w) ≡ (
          r.0,
          (
            record (r.1.0) {
              finished =
                  (t.next_span, recorded fmt r.0)
                  ∷ (t.next_span + 1, recorded fmt r.0)
                  ∷ r.1.0.finished;
            },
            r.1.1,
          ),
        )
  traced_call ctx input t w parent data_ h q r =
      let called =
        call fmt tracer handler
          (record server_ctx {
            incoming =
                some (pb (new_pb_meta_data (some (traced (or_empty_md ctx.outgoing) data_))));
            span = some (t.next_span + 1);
          })
          input (server_started t.next_span (client_started parent t), w) in
      finished_twice ctx input t w parent data_ h q r
      ∙ ap (finish_call fmt tracer t.next_span) (finish_call_lem (t.next_span + 1) called)
      ∙ finish_call_lem t.next_span _
