-- ===== src/Tracing/Messages/Callbacks.antt =====
-- tracing/msg/msg.go: how often the middleware of asynchronous publishers finishes its spans.
use nproto.Prelude.{
  Text, codes, ℕ, ◌≡◌, ◌≢◌, ◌⊎◌, inl, refl, Bool, Option, none, some, List, [], ◌∷◌, arith,
}
use nproto.Go.{Value, Error, Result, ok, err, Printer}
use nproto.Md.{Md, Context, new_outgoing_context_with_md}
use nproto.Msg.{MsgSpec, MsgAsyncPublisher, Async}
use nproto.Tracing.{Tracer, Reference, Kind, producer, inject_span_ctx, Trace, start_span}
use nproto.Tracing.Finish.{Finishes, Finishes-refl, Finishes-finish_span}
use nproto.Tracing.Messages.{
  finish_calls, finish_returned, finish_async, async_injected, async_traced,
  wrap_msg_async_publisher,
}

-- What PublishAsync promises: an error and no callback, or no error and one callback.
abbrev pub CallsOnce : Async → Type 0
CallsOnce r =
    ((r.returned ≢ none) × (r.calls ≡ []))
    ⊎ ((r.returned ≡ none) × (e : Option Error) × (r.calls ≡ e ∷ []))

finish_promised :
    (fmt : Printer) (op : Text) (ref : Reference) (kind : Kind) (component : Text) (t u : Trace)
    (returned : Option Error) (calls : List (Option Error))
    → CallsOnce (record { returned = returned; calls = calls })
    → Finishes (start_span op ref kind component t) u
    → Finishes t (finish_returned fmt t.next_span returned (finish_calls fmt t.next_span calls u))
unfolding finish_returned finish_calls
finish_promised fmt op ref kind component t u none [] once v = absurd (ground (arith, once))
finish_promised fmt op ref kind component t u none (e ∷ []) once v =
    Finishes-finish_span fmt op ref kind component t u e v
finish_promised fmt op ref kind component t u none (e ∷ f ∷ es) once v =
    absurd (ground (arith, once))
finish_promised fmt op ref kind component t u (some e) [] once v =
    Finishes-finish_span fmt op ref kind component t u (some e) v
finish_promised fmt op ref kind component t u (some e) (f ∷ es) once v =
    absurd (ground (arith, once))

module _ {W : Type 0} (fmt : Printer) (tracer : Tracer) where
  abbrev pub AsyncSettles : MsgAsyncPublisher (Trace × W) → Type 0
  AsyncSettles publisher =
      (ctx : Context) (spec : MsgSpec) (msg : Value) (t : Trace) (w : W)
      → CallsOnce (publisher ctx spec msg (t, w)).0 × Finishes t (publisher ctx spec msg (t, w)).1.0

  finish_async-Settles :
      (op : Text) (ref : Reference) (kind : Kind) (component : Text) (t : Trace)
      (r : Async × (Trace × W))
      → CallsOnce r.0 × Finishes (start_span op ref kind component t) r.1.0
      → CallsOnce (finish_async fmt tracer t.next_span r).0
        × Finishes t (finish_async fmt tracer t.next_span r).1.0
  unfolding finish_async
  finish_async-Settles op ref kind component t (r, (u, w)) (once, v) =
      (once, finish_promised fmt op ref kind component t u r.returned r.calls once v)

  async_injected-Settles :
      (publisher : MsgAsyncPublisher (Trace × W)) (md : Md) (ctx : Context) (spec : MsgSpec)
      (msg : Value) (op : Text) (ref : Reference) (kind : Kind) (component : Text) (t : Trace)
      (w : W)
      → AsyncSettles publisher
      → CallsOnce
          (async_injected fmt tracer publisher t.next_span
            (ok md)
            ctx
            spec
            msg
            (start_span op ref kind component t, w)).0
        × Finishes t
            (async_injected fmt tracer publisher t.next_span
              (ok md)
              ctx
              spec
              msg
              (start_span op ref kind component t, w)).1.0
  unfolding async_injected
  async_injected-Settles publisher md ctx spec msg op ref kind component t w v =
      finish_async-Settles op ref kind component t
        (publisher (new_outgoing_context_with_md ctx (some md)) spec msg
          (start_span op ref kind component t, w))
        (v _ spec msg _ w)

  async_traced-Settles :
      (publisher : MsgAsyncPublisher (Trace × W)) (parent : Result (Option (ℕ × Reference)))
      (ctx : Context) (spec : MsgSpec) (msg : Value) (t : Trace) (w : W)
      → ((p : ℕ × Reference)
          → parent ≡ ok (some p)
          → (data_ : Text) × (tracer.inject t.next_span ≡ ok data_))
      → AsyncSettles publisher
      → CallsOnce (async_traced fmt tracer publisher parent ctx spec msg (t, w)).0
        × Finishes t (async_traced fmt tracer publisher parent ctx spec msg (t, w)).1.0
  unfolding async_traced inject_span_ctx
  async_traced-Settles publisher (err e) ctx spec msg t w injects v =
      (inl (λ q. cc, refl), Finishes-refl t)
  async_traced-Settles publisher (ok none) ctx spec msg t w injects v = v ctx spec msg t w
  async_traced-Settles publisher (ok (some (parent, ref))) ctx spec msg t w injects v =
      let (data_, e) = injects (parent, ref) refl in
      rw (e, inject_span_ctx, async_traced)
        (async_injected-Settles publisher _ ctx spec msg _ ref producer
          (codes "npmsg.async.publisher") t w v)

  -- WrapMsgAsyncPublisher keeps the promise of PublishAsync and keeps spans settled where injection
  -- succeeds: if every call of the publisher either returns an error or calls back once, and it
  -- finishes exactly the spans that it starts, each once, then the same holds of the wrapped one.
  pub wrap_msg_async_publisher-Settles :
      (downstream : Bool) (publisher : MsgAsyncPublisher (Trace × W)) (ctx : Context)
      (spec : MsgSpec) (msg : Value) (t : Trace) (w : W)
      → ((n : ℕ) → (data_ : Text) × (tracer.inject n ≡ ok data_))
      → AsyncSettles publisher
      → CallsOnce (wrap_msg_async_publisher fmt tracer downstream publisher ctx spec msg (t, w)).0
        × Finishes t
            (wrap_msg_async_publisher fmt tracer downstream publisher ctx spec msg (t, w)).1.0
  unfolding wrap_msg_async_publisher
  wrap_msg_async_publisher-Settles downstream publisher ctx spec msg t w injects v =
      async_traced-Settles publisher _ ctx spec msg t w (λ p q. injects t.next_span) v
