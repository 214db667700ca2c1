-- ===== src/Tracing/Messages.antt =====
-- tracing/msg/msg.go and tracing/msg/var.go: the middlewares of msg that open and finish spans.
pub mod Laws
pub mod Callbacks
use nproto.Prelude.{Text, codes, Bool, true, false, Option, none, some, List, [], ◌∷◌, ◌++◌, ℕ}
use nproto.Go.{Value, Error, Result, ok, err, Printer}
use nproto.Md.{
  Md, Context, new_outgoing_context_with_md, md_from_outgoing_context, md_from_incoming_context,
}
use nproto.Msg.{
  MsgSpec, subject_name, MsgHandler, MsgMiddleware, MsgPublisher, MsgAsyncPublisher, Async,
}
use nproto.Tracing.{
  Tracer, Reference, child_of, follows_from, Kind, producer, consumer, Trace, start_span,
  finish_span, inject_span_ctx, extract_span_ctx,
}

-- The parent of a publisher's span: for a downstream the one in the meta data, which the span
-- follows; else the current span, referred to by `ref`.
unfoldable pub find_parent :
    Tracer → Bool → (ℕ → Reference) → Context → Result (Option (ℕ × Reference))
unfolding extract_span_ctx md_from_outgoing_context
find_parent tracer true ref ctx = elim (extract_span_ctx tracer (md_from_outgoing_context ctx)) [
  | err e ↦ err e
  | ok none ↦ ok none
  | ok (some parent) ↦ ok (some (parent, follows_from parent))
]
find_parent tracer false ref ctx = elim ctx.span [
  | none ↦ ok none
  | some parent ↦ ok (some (parent, ref parent))
]

-- `fin` in the callbacks of an asynchronous call, and after an error that it returned.
unfoldable pub finish_calls : Printer → ℕ → List (Option Error) → Trace → Trace
unfolding finish_span
finish_calls fmt span [] trace = trace
finish_calls fmt span (e ∷ es) trace = finish_calls fmt span es (finish_span fmt span e trace)

unfoldable pub finish_returned : Printer → ℕ → Option Error → Trace → Trace
unfolding finish_span
finish_returned fmt span none trace = trace
finish_returned fmt span (some e) trace = finish_span fmt span (some e) trace

module _ {W : Type 0} (fmt : Printer) (tracer : Tracer) where
  -- The deferred function of WrapMsgPublisher and WrapMsgSubscriber.
  unfoldable pub finish_msg : ℕ → Option Error × (Trace × W) → Option Error × (Trace × W)
  unfolding finish_span
  finish_msg span (e, (trace, w)) = (e, (finish_span fmt span e trace, w))

  -- WrapMsgPublisher from the injection on.
  unfoldable pub publish_injected :
      MsgPublisher (Trace × W) → ℕ → Result Md → MsgPublisher (Trace × W)
  unfolding finish_msg new_outgoing_context_with_md
  publish_injected publisher span (err e) ctx spec msg s = finish_msg span (some e, s)
  publish_injected publisher span (ok md) ctx spec msg s =
      finish_msg span (publisher (new_outgoing_context_with_md ctx (some md)) spec msg s)

  -- WrapMsgPublisher from the parent on.
  unfoldable pub publish_traced :
      MsgPublisher (Trace × W) → Result (Option (ℕ × Reference)) → MsgPublisher (Trace × W)
  unfolding publish_injected start_span inject_span_ctx subject_name md_from_outgoing_context
  publish_traced publisher (err e) ctx spec msg s = (some e, s)
  publish_traced publisher (ok none) ctx spec msg s = publisher ctx spec msg s
  publish_traced publisher (ok (some (parent, ref))) ctx spec msg (trace, w) =
      publish_injected publisher trace.next_span
        (inject_span_ctx tracer trace.next_span (md_from_outgoing_context ctx)) ctx spec msg
        (
          start_span (codes "Msg Publisher " ++ subject_name spec) ref producer
              (codes "npmsg.publisher") trace,
          w,
        )

  -- WrapMsgPublisher
  unfoldable pub wrap_msg_publisher : Bool → MsgPublisher (Trace × W) → MsgPublisher (Trace × W)
  unfolding publish_traced find_parent
  wrap_msg_publisher downstream publisher ctx spec msg s =
      publish_traced publisher (find_parent tracer downstream child_of ctx) ctx spec msg s

  unfoldable pub finish_async : ℕ → Async × (Trace × W) → Async × (Trace × W)
  unfolding finish_calls finish_returned
  finish_async span (r, (trace, w)) =
      (r, (finish_returned fmt span r.returned (finish_calls fmt span r.calls trace), w))

  -- WrapMsgAsyncPublisher from the injection on: an injection error returns without `fin`.
  unfoldable pub async_injected :
      MsgAsyncPublisher (Trace × W) → ℕ → Result Md → MsgAsyncPublisher (Trace × W)
  unfolding finish_async new_outgoing_context_with_md
  async_injected publisher span (err e) ctx spec msg s =
      (record { returned = some e; calls = [] }, s)
  async_injected publisher span (ok md) ctx spec msg s =
      finish_async span (publisher (new_outgoing_context_with_md ctx (some md)) spec msg s)

  -- WrapMsgAsyncPublisher from the parent on.
  unfoldable pub async_traced :
      MsgAsyncPublisher (Trace × W)
      → Result (Option (ℕ × Reference))
      → MsgAsyncPublisher (Trace × W)
  unfolding async_injected start_span inject_span_ctx subject_name md_from_outgoing_context
  async_traced publisher (err e) ctx spec msg s = (record { returned = some e; calls = [] }, s)
  async_traced publisher (ok none) ctx spec msg s = publisher ctx spec msg s
  async_traced publisher (ok (some (parent, ref))) ctx spec msg (trace, w) =
      async_injected publisher trace.next_span
        (inject_span_ctx tracer trace.next_span (md_from_outgoing_context ctx)) ctx spec msg
        (
          start_span (codes "Msg AsyncPublisher " ++ subject_name spec) ref producer
              (codes "npmsg.async.publisher") trace,
          w,
        )

  -- WrapMsgAsyncPublisher
  unfoldable pub wrap_msg_async_publisher :
      Bool → MsgAsyncPublisher (Trace × W) → MsgAsyncPublisher (Trace × W)
  unfolding async_traced find_parent
  wrap_msg_async_publisher downstream publisher ctx spec msg s =
      async_traced publisher (find_parent tracer downstream follows_from ctx) ctx spec msg s

  -- WrapMsgSubscriber from the extracted span context on.
  unfoldable pub subscriber_traced :
      Text → MsgHandler (Trace × W) → Result (Option ℕ) → MsgHandler (Trace × W)
  unfolding finish_msg start_span
  subscriber_traced op handler (err e) ctx msg s = (some e, s)
  subscriber_traced op handler (ok none) ctx msg s = handler ctx msg s
  subscriber_traced op handler (ok (some parent)) ctx msg (trace, w) = finish_msg trace.next_span (
      handler (record ctx { span = some trace.next_span }) msg
        (start_span op (follows_from parent) consumer (codes "npmsg.subscriber") trace, w))

  -- WrapMsgSubscriber
  unfoldable pub wrap_msg_subscriber : MsgMiddleware (Trace × W)
  unfolding subscriber_traced subject_name extract_span_ctx md_from_incoming_context
  wrap_msg_subscriber spec queue handler ctx msg s =
      subscriber_traced (codes "Msg Subscriber " ++ subject_name spec ++ codes ":" ++ queue) handler
        (extract_span_ctx tracer (md_from_incoming_context ctx)) ctx msg s
