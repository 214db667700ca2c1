-- ===== src/Tracing/Messages/Laws.antt =====
-- tracing/msg/msg.go: how often the middlewares of msg finish the spans that they start.
use nproto.Prelude.{Text, codes, ℕ, Bool, Option, none, some}
use nproto.Go.{Value, Error, Result, ok, err, Printer}
use nproto.Md.{Md, Context, new_outgoing_context_with_md}
use nproto.Msg.{MsgSpec, MsgHandler, MsgPublisher}
use nproto.Tracing.{Tracer, Reference, follows_from, Kind, producer, consumer, Trace, start_span}
use nproto.Tracing.Finish.{Finishes, Finishes-refl, Finishes-finish_span}
use nproto.Tracing.Messages.{
  finish_msg, publish_injected, publish_traced, wrap_msg_publisher, subscriber_traced,
  wrap_msg_subscriber,
}

module _ {W : Type 0} (fmt : Printer) (tracer : Tracer) where
  abbrev pub PublisherSettles : MsgPublisher (Trace × W) → Type 0
  PublisherSettles publisher =
      (ctx : Context) (spec : MsgSpec) (msg : Value) (t : Trace) (w : W)
      → Finishes t (publisher ctx spec msg (t, w)).1.0

  abbrev pub HandlerSettles : MsgHandler (Trace × W) → Type 0
  HandlerSettles handler =
      (ctx : Context) (msg : Value) (t : Trace) (w : W) → Finishes t (handler ctx msg (t, w)).1.0

  finish_msg-Finishes :
      (op : Text) (ref : Reference) (kind : Kind) (component : Text) (t : Trace)
      (r : Option Error × (Trace × W))
      → Finishes (start_span op ref kind component t) r.1.0
      → Finishes t (finish_msg fmt tracer t.next_span r).1.0
  unfolding finish_msg
  finish_msg-Finishes op ref kind component t (e, (u, w)) v =
      Finishes-finish_span fmt op ref kind component t u e v

  publish_injected-Finishes :
      (publisher : MsgPublisher (Trace × W)) (md : Result Md) (ctx : Context) (spec : MsgSpec)
      (msg : Value) (op : Text) (ref : Reference) (kind : Kind) (component : Text) (t : Trace)
      (w : W)
      → PublisherSettles publisher
      → Finishes t
          (publish_injected fmt tracer publisher t.next_span md ctx spec msg
            (start_span op ref kind component t, w)).1.0
  unfolding publish_injected
  publish_injected-Finishes publisher (err e) ctx spec msg op ref kind component t w v =
      finish_msg-Finishes op ref kind component t (some e, (start_span op ref kind component t, w))
        (Finishes-refl (start_span op ref kind component t))
  publish_injected-Finishes publisher (ok md) ctx spec msg op ref kind component t w v =
      finish_msg-Finishes op ref kind component t
        (publisher (new_outgoing_context_with_md ctx (some md)) spec msg
          (start_span op ref kind component t, w))
        (v _ spec msg _ w)

  publish_traced-Settles :
      (publisher : MsgPublisher (Trace × W)) (parent : Result (Option (ℕ × Reference)))
      (ctx : Context) (spec : MsgSpec) (msg : Value) (t : Trace) (w : W)
      → PublisherSettles publisher
      → Finishes t (publish_traced fmt tracer publisher parent ctx spec msg (t, w)).1.0
  unfolding publish_traced
  publish_traced-Settles publisher (err e) ctx spec msg t w v = Finishes-refl t
  publish_traced-Settles publisher (ok none) ctx spec msg t w v = v ctx spec msg t w
  publish_traced-Settles publisher (ok (some (parent, ref))) ctx spec msg t w v =
      publish_injected-Finishes publisher _ ctx spec msg _ ref producer (codes "npmsg.publisher") t
        w v

  subscriber_traced-Settles :
      (op : Text) (handler : MsgHandler (Trace × W)) (parent : Result (Option ℕ)) (ctx : Context)
      (msg : Value) (t : Trace) (w : W)
      → HandlerSettles handler
      → Finishes t (subscriber_traced fmt tracer op handler parent ctx msg (t, w)).1.0
  unfolding subscriber_traced
  subscriber_traced-Settles op handler (err e) ctx msg t w v = Finishes-refl t
  subscriber_traced-Settles op handler (ok none) ctx msg t w v = v ctx msg t w
  subscriber_traced-Settles op handler (ok (some parent)) ctx msg t w v =
      finish_msg-Finishes op (follows_from parent) consumer (codes "npmsg.subscriber") t
        (handler (record ctx { span = some t.next_span }) msg
          (start_span op (follows_from parent) consumer (codes "npmsg.subscriber") t, w))
        (v _ msg _ w)

  -- WrapMsgPublisher and WrapMsgSubscriber keep spans settled: if every call of the publisher and of
  -- the handler finishes exactly the spans that it starts, each once, then so does every call of
  -- the wrapped ones, also where injection or extraction fails.
  pub wrap_msg-Settles :
      (downstream : Bool) (publisher : MsgPublisher (Trace × W)) (spec : MsgSpec) (queue : Text)
      (handler : MsgHandler (Trace × W))
      → PublisherSettles publisher
      → HandlerSettles handler
      → PublisherSettles (wrap_msg_publisher fmt tracer downstream publisher)
        × HandlerSettles (wrap_msg_subscriber fmt tracer spec queue handler)
  unfolding wrap_msg_publisher wrap_msg_subscriber
  wrap_msg-Settles downstream publisher spec queue handler v h = (
    λ ctx spec' msg t w. publish_traced-Settles publisher _ ctx spec' msg t w v,
    λ ctx msg t w. subscriber_traced-Settles _ handler _ ctx msg t w h,
  )
