-- ===== src/Tracing/Finish.antt =====
-- tracing/rpc/rpc.go: how often a span is finished.
use nproto.Prelude.{
  Text, codes, if◌then◌else◌, nat_beq, leb, ltb, ℕ, ◌+◌, ◌≤◌, ◌≡◌, refl, Option, none, some, List,
  [], ◌∷◌, arith,
}
use nproto.Go.{Value, Error, Result, ok, err, Printer}
use nproto.Md.{Md, Context}
use nproto.Rpc.{RpcSpec, RpcHandler, Outcome, output, failed, panicked}
use nproto.Tracing.{
  Tracer, Reference, child_of, Kind, rpc_client, rpc_server, Trace, start_span, finish_span, call,
  finish_call, client_injected, client_traced, wrap_rpc_client, server_traced, wrap_rpc_server,
}

-- How often Finish has been called on a span.
unfoldable pub times : ℕ → List (ℕ × Option Text) → ℕ
times i [] = 0
times i (p ∷ ps) = let rest = times i ps in if nat_beq p.0 i then rest + 1 else rest

-- 1 if the span was started between two moments.
abbrev pub is_new : ℕ → Trace → Trace → ℕ
is_new i t u = if leb t.next_span i then (if ltb i u.next_span then 1 else 0) else 0

-- From one trace to a later one: every span started in between is finished exactly once, and no
-- other span is finished.
abbrev pub Finishes : Trace → Trace → Type 0
Finishes t u =
    (t.next_span ≤ u.next_span) × ((i : ℕ) → times i u.finished ≡ times i t.finished + is_new i t u)

pub Finishes-refl : (t : Trace) → Finishes t t
Finishes-refl t = (omega arith, λ i. ground arith)

times-finish_span :
    (fmt : Printer) (span : ℕ) (e : Option Error) (t : Trace) (i : ℕ)
    → times i (finish_span fmt span e t).finished
      ≡ (if nat_beq span i then times i t.finished + 1 else times i t.finished)
unfolding times finish_span
times-finish_span fmt span none t i = refl
times-finish_span fmt span (some e) t i = refl

finish_span-next_span :
    (fmt : Printer) (span : ℕ) (e : Option Error) (t : Trace)
    → (finish_span fmt span e t).next_span ≡ t.next_span
unfolding finish_span
finish_span-next_span fmt span none t = refl
finish_span-next_span fmt span (some e) t = refl

-- A span that is started, and finished after a part that finishes its own.
pub Finishes-finish_span :
    (fmt : Printer) (op : Text) (ref : Reference) (kind : Kind) (component : Text) (t u : Trace)
    (e : Option Error)
    → Finishes (start_span op ref kind component t) u
    → Finishes t (finish_span fmt t.next_span e u)
unfolding start_span
Finishes-finish_span fmt op ref kind component t u e (later, counts) =
    let next = finish_span-next_span fmt t.next_span e u in
    (
      omega (arith, next, later),
      λ i. ground (arith, next, later, counts i, times-finish_span fmt t.next_span e u i),
    )

module _ {W : Type 0} (fmt : Printer) (tracer : Tracer) where
  -- Every call of the handler finishes exactly the spans that it starts, each once.
  abbrev pub Settles : RpcHandler (Trace × W) → Type 0
  Settles h =
      (ctx : Context) (input : Value) (t : Trace) (w : W) → Finishes t (h ctx input (t, w)).1.0

  -- The same of a handler that may be nil.
  abbrev pub MaybeSettles : Option (RpcHandler (Trace × W)) → Type 0
  MaybeSettles none = Unit
  MaybeSettles (some h) = Settles h

  call-Settles :
      (handler : Option (RpcHandler (Trace × W)))
      → MaybeSettles handler
      → Settles (call fmt tracer handler)
  unfolding call
  call-Settles none v ctx input t w = Finishes-refl t
  call-Settles (some h) v ctx input t w = v ctx input t w

  finish_call-Finishes :
      (op : Text) (ref : Reference) (kind : Kind) (component : Text) (t : Trace)
      (r : Outcome × (Trace × W))
      → Finishes (start_span op ref kind component t) r.1.0
      → Finishes t (finish_call fmt tracer t.next_span r).1.0
  unfolding finish_call
  finish_call-Finishes op ref kind component t (failed e, (u, w)) v =
      Finishes-finish_span fmt op ref kind component t u (some e) v
  finish_call-Finishes op ref kind component t (output x, (u, w)) v =
      Finishes-finish_span fmt op ref kind component t u none v
  finish_call-Finishes op ref kind component t (panicked, (u, w)) v =
      Finishes-finish_span fmt op ref kind component t u none v

  client_injected-Finishes :
      (handler : Option (RpcHandler (Trace × W))) (md : Result Md) (ctx : Context) (input : Value)
      (op : Text) (ref : Reference) (kind : Kind) (component : Text) (t : Trace) (w : W)
      → MaybeSettles handler
      → Finishes t
          (client_injected fmt tracer handler t.next_span md ctx input
            (start_span op ref kind component t, w)).1.0
  unfolding client_injected
  client_injected-Finishes handler (err e) ctx input op ref kind component t w v =
      finish_call-Finishes op ref kind component t
        (failed e, (start_span op ref kind component t, w))
        (Finishes-refl (start_span op ref kind component t))
  client_injected-Finishes handler (ok md) ctx input op ref kind component t w v =
      finish_call-Finishes op ref kind component t _ (call-Settles handler v _ input _ w)

  client_traced-Settles :
      (op : Text) (handler : Option (RpcHandler (Trace × W))) (parent : Option ℕ) (ctx : Context)
      (input : Value) (t : Trace) (w : W)
      → MaybeSettles handler
      → Finishes t (client_traced fmt tracer op handler parent ctx input (t, w)).1.0
  unfolding client_traced
  client_traced-Settles op handler none ctx input t w v = call-Settles handler v ctx input t w
  client_traced-Settles op handler (some parent) ctx input t w v =
      client_injected-Finishes handler _ ctx input op (child_of parent) rpc_client
        (codes "nprpc.client") t w v

  server_traced-Settles :
      (op : Text) (handler : Option (RpcHandler (Trace × W))) (parent : Result (Option ℕ))
      (ctx : Context) (input : Value) (t : Trace) (w : W)
      → MaybeSettles handler
      → Finishes t (server_traced fmt tracer op handler parent ctx input (t, w)).1.0
  unfolding server_traced
  server_traced-Settles op handler (err e) ctx input t w v = Finishes-refl t
  server_traced-Settles op handler (ok none) ctx input t w v = call-Settles handler v ctx input t w
  server_traced-Settles op handler (ok (some parent)) ctx input t w v =
      finish_call-Finishes op (child_of parent) rpc_server (codes "nprpc.server") t _
        (call-Settles handler v _ input _ w)

  -- WrapRPCClient and WrapRPCServer keep spans settled: if every call of a handler finishes exactly
  -- the spans that it starts, each once, then so does every call of the wrapped handler, also
  -- where injection or extraction fails and where the handler is nil, fails or panics.
  pub wrap_rpc-Settles :
      (spec : RpcSpec) (handler : Option (RpcHandler (Trace × W)))
      → MaybeSettles handler
      → MaybeSettles (wrap_rpc_client fmt tracer spec handler)
        × MaybeSettles (wrap_rpc_server fmt tracer spec handler)
  unfolding wrap_rpc_client wrap_rpc_server
  wrap_rpc-Settles spec handler v = (
    λ ctx input t w. client_traced-Settles _ handler ctx.span ctx input t w v,
    λ ctx input t w. server_traced-Settles _ handler _ ctx input t w v,
  )
