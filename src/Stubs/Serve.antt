-- ===== src/Stubs/Serve.antt =====
-- cmd/protoc-gen-nproto2/gen.go: Serve{{ .GoName }} on a server that keeps the promises of an
-- RPCServer.
use nproto.Prelude.{
  Text, ◌==◌, ◌≡◌, refl, sym, ◌∙◌, ◌⊎◌, inl, inr, true, false, Bool-cases, Option-cases, Option,
  none, some, List, [], ◌∷◌, text_eq, pair_eq, pair_beq_iff, All,
}
use mathlib.Core.Path.{subst}
use nproto.Go.{Error}
use nproto.Rpc.{RpcSpec, RpcHandler, RpcServer, regist_handler}
use nproto.Rpc.Registry.{key_of, Registry}
use nproto.Stubs.{Stub, stub_handler, deregister, serve}

module _ {W : Type 0} where
  -- No stub of the list is for this key.
  abbrev pub Absent : Text × Text → List (Stub W) → Type 0
  Absent k xs = All (λ x. (key_of x.spec == k) ≡ false) xs

  abbrev pub Distinct : List (Stub W) → Type 0
  Distinct [] = Unit
  Distinct (x ∷ xs) = Absent (key_of x.spec) xs × Distinct xs

  abbrev pub handler_of : Stub W → Option (RpcHandler W)
  handler_of x = some (stub_handler x.method x.impl)

key_eq : (a b : Text × Text) → (a == b) ≡ true → a ≡ b
key_eq a b h = (pair_beq_iff a b).0 h

key_sym : (a b : Text × Text) → (a == b) ≡ false → (b == a) ≡ false
key_sym a b h = elim (Bool-cases (b == a)) [
  | inl e ↦
      let same : a ≡ b = sym (key_eq b a e) in
      let q : (a == b) ≡ true = (pair_beq_iff a b).1 same in absurd (cc)
  | inr e ↦ e
]

module _ {W S : Type 0} (server : RpcServer W S) (registry : Registry server) where
  -- All methods are served and nothing else has changed, or there was an error and, if none
  -- of the methods was served before, nothing has changed.
  abbrev pub AllOrNothing : List (Stub W) → S → Option Error × S → Type 0
  AllOrNothing xs s r =
      ((r.0 ≡ none)
        × All (λ x. registry.found r.1 (key_of x.spec) ≡ handler_of x) xs
        × ((k : Text × Text) → Absent k xs → registry.found r.1 k ≡ registry.found s k))
      ⊎ ((e : Error) × (r.0 ≡ some e)
          × (All (λ x. registry.found s (key_of x.spec) ≡ none) xs
              → (k : Text × Text) → registry.found r.1 k ≡ registry.found s k))

  -- What is found for the methods of a list after the registration of another one.
  still_none :
      (spec : RpcSpec) (h : Option (RpcHandler W)) (s : S) (xs : List (Stub W))
      → registry.Holds s
      → Absent (key_of spec) xs
      → All (λ x. registry.found s (key_of x.spec) ≡ none) xs
      → All (λ x. registry.found (regist_handler server spec h s).1 (key_of x.spec) ≡ none) xs
  still_none spec h s [] v away free = tt
  still_none spec h s (x ∷ xs) v away free = (
    registry.others spec h s (key_of x.spec) v (key_sym (key_of x.spec) (key_of spec) away.0)
        ∙ free.0,
    still_none spec h s xs v away.1 free.1,
  )

  module _ (x : Stub W) (xs : List (Stub W)) (s : S) (v : registry.Holds s)
      (away : Absent (key_of x.spec) xs) where
    abbrev first : Option Error × S
    first = regist_handler server x.spec (handler_of x) s

    -- The first method is refused.
    serve_refused : (e : Error) → first.0 ≡ some e → AllOrNothing (x ∷ xs) s (some e, first.1)
    serve_refused e h = inr (
      e,
      refl,
      λ free k. elim (Bool-cases (key_of x.spec == k)) [
        | inl same ↦
            let q = key_eq (key_of x.spec) k same in
            rw (← q) (registry.rejected x.spec (handler_of x) s e v h)
        | inr other ↦ registry.others x.spec (handler_of x) s k v other
      ],
    )

    -- The first method is registered, then all the later ones or none.
    serve_accepted :
        (r : Option Error × S)
        → first.0 ≡ none
        → registry.Holds r.1
        → AllOrNothing xs first.1 r
        → AllOrNothing (x ∷ xs) s (deregister server x.spec r)
    unfolding deregister
    serve_accepted (none, t) h vt (inl (no_err, all_found, kept)) = inl (
      refl,
      (kept (key_of x.spec) away ∙ registry.accepted x.spec (handler_of x) s v h, all_found),
      λ k absent. kept k absent.1 ∙ registry.others x.spec (handler_of x) s k v absent.0,
    )
    serve_accepted (none, t) h vt (inr (e, some_err, kept)) = absurd (cc)
    serve_accepted (some e, t) h vt (inl (no_err, all_found, kept)) = absurd (cc)
    serve_accepted (some e, t) h vt (inr (f, some_err, kept)) = inr (
      e,
      refl,
      λ free k. elim (Bool-cases (key_of x.spec == k)) [
        | inl same ↦
            let q = key_eq (key_of x.spec) k same in
            rw (← q) (registry.withdrawn x.spec t vt ∙ sym free.0)
        | inr other ↦
            registry.others x.spec none t k vt other
            ∙ kept (still_none x.spec (handler_of x) s xs v away free.1) k
            ∙ registry.others x.spec (handler_of x) s k v other
      ],
    )

  deregister-Holds :
      (spec : RpcSpec) (r : Option Error × S)
      → registry.Holds r.1
      → registry.Holds (deregister server spec r).1
  unfolding deregister
  deregister-Holds spec (none, t) v = v
  deregister-Holds spec (some e, t) v = registry.keeps spec none t v

  serve_go :
      (x : Stub W) (xs : List (Stub W)) (s : S)
      → (regist_handler server x.spec (handler_of x) s).0 ≡ none
      → serve server (x ∷ xs) s
        ≡ deregister server x.spec
            (serve server xs (regist_handler server x.spec (handler_of x) s).1)
  unfolding serve
  serve_go x xs s h = rw (h, serve) refl

  serve_stop :
      (x : Stub W) (xs : List (Stub W)) (s : S) (e : Error)
      → (regist_handler server x.spec (handler_of x) s).0 ≡ some e
      → serve server (x ∷ xs) s ≡ (some e, (regist_handler server x.spec (handler_of x) s).1)
  unfolding serve
  serve_stop x xs s e h = rw (h, serve) refl

  abbrev Serves : List (Stub W) → S → Option Error × S → Type 0
  Serves xs s r = registry.Holds r.1 × AllOrNothing xs s r

  -- The generated Serve function on any server that keeps the promises of a registry, for methods
  -- with different names: it keeps the server's invariant; without an error each
  -- method is served by its stub and nothing else has changed; with an error, if none of
  -- the methods was served before, every method of every service is served as before.
  pub serve-AllOrNothing :
      (xs : List (Stub W)) (s : S)
      → Distinct xs
      → registry.Holds s
      → registry.Holds (serve server xs s).1 × AllOrNothing xs s (serve server xs s)
  unfolding serve
  serve-AllOrNothing [] s distinct v = (v, inl (refl, tt, λ k absent. refl))
  serve-AllOrNothing (x ∷ xs) s distinct v =
      let s1 = (regist_handler server x.spec (handler_of x) s).1 in
      let v1 = registry.keeps x.spec (handler_of x) s v in
      elim (Option-cases (regist_handler server x.spec (handler_of x) s).0) [
        | inl h ↦
            let (vr, rest) = serve-AllOrNothing xs s1 distinct.1 v1 in
            subst (Serves (x ∷ xs) s) (sym (serve_go x xs s h)) (
              deregister-Holds x.spec (serve server xs s1) vr,
              serve_accepted x xs s v distinct.0 (serve server xs s1) h vr rest,
            )
        | inr (e, h) ↦
            subst (Serves (x ∷ xs) s) (sym (serve_stop x xs s e h))
              (v1, serve_refused x xs s v distinct.0 e h)
      ]
