-- ===== src/Tracing/Tests.antt =====
-- tracing: the theorems at concrete inputs.
use nproto.Prelude.{
  Text, codes, ◌≡◌, ◌≢◌, inr, refl, [], ◌∷◌, true, false, none, some, ℕ, ◌+◌, arith, text_eq,
  list_beq_iff,
}
use nproto.Go.{val, message, ok, err, plain_error}
use nproto.Md.{Md, traced, pb, values, tracing_md_key, new_pb_meta_data, Context}
use nproto.Rpc.{RpcSpec, raw_spec, Outcome, RpcHandler, output}
use nproto.Msg.{MsgSpec, raw_msg, MsgHandler, MsgPublisher, MsgAsyncPublisher, Async}
use nproto.Tracing.{
  Extraction, found, not_found, Tracer, Trace, inject_span_ctx, extract_span_ctx, call,
  wrap_rpc_client, wrap_rpc_server,
}
use nproto.Tracing.Laws.{
  extract_span_ctx-inject_span_ctx, or_empty_md, over_wire, client_started, server_started,
  traced_call, recorded,
}
use nproto.Tracing.Finish.{Finishes, Finishes-refl, MaybeSettles, wrap_rpc-Settles}
use nproto.Tracing.Messages.{wrap_msg_publisher, wrap_msg_subscriber, wrap_msg_async_publisher}
use nproto.Tracing.Messages.Laws.{PublisherSettles, HandlerSettles, wrap_msg-Settles}
use nproto.Tracing.Messages.Callbacks.{CallsOnce, wrap_msg_async_publisher-Settles}
use nproto.Samples.{printer, background, some_md}

abbrev number : Text → Extraction
number (n ∷ []) = found n
number _ = not_found

abbrev tracer : Tracer
tracer = record { inject = λ n. ok (n ∷ []); extract = number }

abbrev broken : Tracer
broken = record { inject = λ n. err (plain_error (codes "broken")); extract = number }

abbrev no_spans : Trace
no_spans = record { next_span = 7; started = []; finished = [] }

abbrev in_span : Context
in_span = record background { span = some 3 }

abbrev ping : RpcSpec
ping = raw_spec (codes "svc") (codes "ping")

abbrev news : MsgSpec
news = raw_msg (codes "news")

abbrev echo : RpcHandler (Trace × ℕ)
echo ctx input (t, w) = (output input, (t, w + 1))

other_key : codes "a" ≢ tracing_md_key
other_key = λ h. absurd (ground (arith, list_beq_iff (codes "a") tracing_md_key))

extract_span_ctx-inject_span_ctx_example :
    (out : Md) × (inject_span_ctx tracer 5 (some some_md) ≡ ok out)
    × (extract_span_ctx tracer (some (pb (new_pb_meta_data (some out)))) ≡ ok (some 5))
    × (values (pb (new_pb_meta_data (some out))) (codes "a")
        ≡ values (or_empty_md (some some_md)) (codes "a"))
extract_span_ctx-inject_span_ctx_example =
    extract_span_ctx-inject_span_ctx tracer (some some_md) 5 (5 ∷ []) (codes "a") refl refl
      other_key

abbrev server_part : Outcome × (Trace × ℕ)
server_part =
    call printer tracer (some echo)
      (record background {
        incoming =
            some (pb (new_pb_meta_data (some (traced (or_empty_md in_span.outgoing) (7 ∷ [])))));
        span = some 8;
      })
      (val (message 1) 0)
      (
        server_started printer tracer ping (some echo) background 7
            (client_started printer tracer ping (some echo) background 3 no_spans),
        41,
      )

traced_call_example :
    call printer tracer
      (wrap_rpc_client printer tracer ping
        (some (over_wire printer tracer ping (some echo) background)))
      in_span
      (val (message 1) 0)
      (no_spans, 41)
    ≡ (
      server_part.0,
      (
        record (server_part.1.0) {
          finished =
              (7, recorded printer server_part.0)
              ∷ (8, recorded printer server_part.0)
              ∷ server_part.1.0.finished;
        },
        server_part.1.1,
      ),
    )
traced_call_example =
    traced_call printer tracer ping (some echo) background in_span (val (message 1) 0) no_spans 41 3
      (7 ∷ []) refl refl refl

wrap_rpc-Settles_example :
    MaybeSettles printer tracer (wrap_rpc_client printer tracer ping (some echo))
    × MaybeSettles printer tracer (wrap_rpc_server printer tracer ping (some echo))
wrap_rpc-Settles_example =
    wrap_rpc-Settles printer tracer ping (some echo) (λ ctx input t w. Finishes-refl t)

abbrev publisher : MsgPublisher (Trace × ℕ)
publisher ctx spec msg (t, w) = (none, (t, w + 1))

abbrev handler : MsgHandler (Trace × ℕ)
handler ctx msg (t, w) = (none, (t, w + 1))

wrap_msg-Settles_example :
    PublisherSettles printer tracer (wrap_msg_publisher printer tracer true publisher)
    × HandlerSettles printer tracer (wrap_msg_subscriber printer tracer news (codes "q") handler)
wrap_msg-Settles_example =
    wrap_msg-Settles printer tracer true publisher news (codes "q") handler
      (λ ctx spec msg t w. Finishes-refl t) (λ ctx msg t w. Finishes-refl t)

abbrev async_publisher : MsgAsyncPublisher (Trace × ℕ)
async_publisher ctx spec msg (t, w) = (record { returned = none; calls = none ∷ [] }, (t, w + 1))

abbrev sent : Async × (Trace × ℕ)
sent =
    wrap_msg_async_publisher printer tracer false async_publisher in_span news (val (message 1) 0)
      (no_spans, 41)

wrap_msg_async_publisher-Settles_example : CallsOnce sent.0 × Finishes no_spans sent.1.0
wrap_msg_async_publisher-Settles_example =
    wrap_msg_async_publisher-Settles printer tracer false async_publisher in_span news
      (val (message 1) 0) no_spans 41 (λ n. (n ∷ [], refl))
      (λ ctx spec msg t w. (inr (refl, none, refl), Finishes-refl t))
