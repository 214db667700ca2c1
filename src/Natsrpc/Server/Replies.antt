-- ===== src/Natsrpc/Server/Replies.antt =====
-- natsrpc/server.go: which requests are answered.
use nproto.Prelude.{
  Text, nat_eq, ℕ, ◌≡◌, ◌↔◌, ◌⊎◌, inl, inr, refl, ◌∙◌, Option, none, some, arith, text_eq, pair_eq,
  Option-cases,
}
use nproto.Go.{Value, nil, Error, Result-cases, ok, err, Printer}
use nproto.Md.{Context}
use nproto.Rpc.{new_input, Outcome, output, failed, panicked}
use nproto.Rpc.Laws.{assert_output_type_cases}
use nproto.Natsrpc.{subject_parser, Request, Response, Wire}
use nproto.Natsrpc.Server.{MethodInfo, MethodMap, find_method}
use nproto.Natsrpc.Server.Requests.{
  reply, handled, handle_msg, request_context, answer, call_handler, run_task,
}

no_reply :
    (wire : Wire) (r : Option Response)
    → reply wire r ≡ none
    → (r ≡ none)
      ⊎ ((resp : Response) × (e : Error) × (r ≡ some resp) × (wire.marshal_response resp ≡ err e))
unfolding reply
no_reply wire none h = inl refl
no_reply wire (some resp) h = elim (Result-cases (wire.marshal_response resp)) [
  | inl (b, m) ↦ absurd (let k = rw (m, reply) at h in cc)
  | inr (e, m) ↦ inr (resp, e, refl, m)
]

module _ {W : Type 0} (fmt : Printer) (wire : Wire) where
  answer_silent :
      (svc method : Text) (info : MethodInfo W) (req : Request) (r : Outcome)
      → (answer fmt wire svc method info req r ≡ none) ↔ ((r ≡ panicked) ⊎ (r ≡ output nil))
  unfolding answer
  answer_silent svc method info req panicked = (λ h. inl refl, λ h. refl)
  answer_silent svc method info req (failed e) = (λ h. cc, λ h. ground arith)
  answer_silent svc method info req (output v) = (
    λ h. inr (ground (arith, (assert_output_type_cases fmt info.spec v).1)),
    λ h. ground (arith, (assert_output_type_cases fmt info.spec v).1),
  )

  call_handler_silent :
      (ctx : Context) (now : ℕ) (svc method : Text) (info : MethodInfo W) (req : Request)
      (decoded : Option Error × Value) (w : W)
      → ((call_handler fmt wire ctx now svc method info req decoded w).0 ≡ none) ↔ (
          (decoded.0 ≡ none)
          × (((info.handler (request_context ctx now req) decoded.1 w).0 ≡ panicked)
              ⊎ ((info.handler (request_context ctx now req) decoded.1 w).0 ≡ output nil)))
  unfolding call_handler
  call_handler_silent ctx now svc method info req (some e, input) w =
      (λ h. absurd (cc), λ h. absurd (cc))
  call_handler_silent ctx now svc method info req (none, input) w =
      let both =
        answer_silent svc method info req (info.handler (request_context ctx now req) input w).0 in
      (λ h. (refl, both.0 h), λ h. both.1 h.1)

  abbrev IsSilent : Context → ℕ → Text → MethodMap W → Text → W → Type 0
  IsSilent ctx now method mm data_ w =
      (info : MethodInfo W) × (req : Request) × (input : Value) × (find_method mm method
        ≡ some info)
      × (wire.unmarshal_request data_ ≡ ok req)
      × (info.decoder req.input_format req.input_bytes (new_input info.spec) ≡ (none, input))
      × (((info.handler (request_context ctx now req) input w).0 ≡ panicked)
          ⊎ ((info.handler (request_context ctx now req) input w).0 ≡ output nil))

  run_task_sound :
      (ctx : Context) (now : ℕ) (svc method : Text) (mm : MethodMap W) (data_ : Text) (w : W)
      → (run_task fmt wire ctx now svc method mm data_ w).0 ≡ none
      → IsSilent ctx now method mm data_ w
  unfolding run_task
  run_task_sound ctx now svc method mm data_ w h = elim (Option-cases (find_method mm method)) [
    | inl f ↦ absurd (let k = rw (f, run_task) at h in cc)
    | inr (info, f) ↦ elim (Result-cases (wire.unmarshal_request data_)) [
      | inl (req, u) ↦
          let k = rw (f, u, run_task) at h in
          let decoded = info.decoder req.input_format req.input_bytes (new_input info.spec) in
          let (d, s) = (call_handler_silent ctx now svc method info req decoded w).0 k in
          (info, req, decoded.1, f, u, λ i. (d i, decoded.1), s)
      | inr (e, u) ↦ absurd (let k = rw (f, u, run_task) at h in cc)
    ]
  ]

  run_task_complete :
      (ctx : Context) (now : ℕ) (svc method : Text) (mm : MethodMap W) (data_ : Text) (w : W)
      → IsSilent ctx now method mm data_ w
      → (run_task fmt wire ctx now svc method mm data_ w).0 ≡ none
  unfolding run_task
  run_task_complete ctx now svc method mm data_ w (info, req, input, f, u, d, s) =
      rw (f, u, run_task)
        (rw d ((call_handler_silent ctx now svc method info req (none, input) w).1 (refl, s)))

  handle_msg_task :
      (ctx : Context) (prefix : Text) (now : ℕ) (svc method : Text) (mm : MethodMap W)
      (subject data_ : Text) (w : W)
      → subject_parser prefix svc subject ≡ some method
      → handle_msg fmt wire ctx prefix now svc mm none subject data_ w
        ≡ handled
            (reply wire (run_task fmt wire ctx now svc method mm data_ w).0)
            (run_task fmt wire ctx now svc method mm data_ w).1
  unfolding handle_msg
  handle_msg_task ctx prefix now svc method mm subject data_ w p = rw (p, handle_msg) refl

  -- A request on a subject of the service, whose task the runner has taken, gets no reply exactly in
  -- two cases: the method is there, the request and its input decode, and the handler panics or
  -- returns a nil output with a nil error; or there is a response, and proto.Marshal refuses
  -- it. In all other cases, undecodable requests and unknown methods included, the bytes of a
  -- response go to Publish.
  pub handle_msg_silent :
      (ctx : Context) (prefix : Text) (now : ℕ) (svc method : Text) (mm : MethodMap W)
      (subject data_ : Text) (w : W)
      → subject_parser prefix svc subject ≡ some method
      → ((w' : W) × (handle_msg fmt wire ctx prefix now svc mm none subject data_ w
            ≡ handled none w'))
        ↔ (((info : MethodInfo W) × (req : Request) × (input : Value) × (find_method mm method
                ≡ some info)
              × (wire.unmarshal_request data_ ≡ ok req)
              × (info.decoder req.input_format req.input_bytes (new_input info.spec)
                  ≡ (none, input))
              × (((info.handler (request_context ctx now req) input w).0 ≡ panicked)
                  ⊎ ((info.handler (request_context ctx now req) input w).0 ≡ output nil)))
            ⊎ ((resp : Response) × (e : Error) × ((run_task fmt wire ctx now svc method mm data_
                    w).0
                  ≡ some resp)
                × (wire.marshal_response resp ≡ err e)))
  unfolding reply
  handle_msg_silent ctx prefix now svc method mm subject data_ w p =
      let task = handle_msg_task ctx prefix now svc method mm subject data_ w p in
      (
        λ (w', h).
            let empty : reply wire (run_task fmt wire ctx now svc method mm data_ w).0 ≡ none =
              cc in
            elim (no_reply wire _ empty) [
              | inl silent ↦ inl (run_task_sound ctx now svc method mm data_ w silent)
              | inr refused ↦ inr refused
            ],
        λ why. (
          (run_task fmt wire ctx now svc method mm data_ w).1,
          elim why [
            | inl silent ↦
                task ∙ rw (run_task_complete ctx now svc method mm data_ w silent, reply) refl
            | inr (resp, e, r, m) ↦ task ∙ rw (r, reply) (rw m refl)
          ],
        ),
      )
