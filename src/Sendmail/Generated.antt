-- ===== src/Sendmail/Generated.antt =====
-- examples/sendmail/pb.nproto.go: the generated code of the example, and that it is what the
-- templates of protoc-gen-nproto2 give. Email, EmailEntry, Empty and EmailEntries have the numbers 1 to 4.
use nproto.Prelude.{
  Text, Map, codes, ◌≡◌, refl, ap, ◌∙◌, Option, none, some, List, [], ◌∷◌, ℕ, text_eq, Option-cases,
  inl, inr,
}
use mathlib.Core.Path.{fun_ext}
use nproto.Go.{Value, message, val, Error, Printer}
use nproto.Md.{Context}
use nproto.Rpc.{
  RpcSpec, new_rpc_spec, must, panicked, RpcHandler, RpcClient, make_handler, RpcServer,
  regist_handler,
}
use nproto.Msg.{MsgSpec, stub_msg, MsgPublisher}
use nproto.Stanmsg.Messages.{Handled, panics}
use nproto.Stubs.{
  Method, Stub, TypedMethod, new_message, assert_message, to_outcome, call_impl, stub_handler,
  client_method, deregister, serve,
}

-- The methods of the service.
abbrev pub send_method : Method
send_method = record { go_name = codes "Send"; input = 1; output_ = 2 }

abbrev pub list_method : Method
list_method = record { go_name = codes "List"; input = 3; output_ = 4 }

-- SendMailSvc, on the contents of its messages.
pub record SendMailSvc (W : Type 0) : Type 0 where
  pub send : TypedMethod W
  pub list : TypedMethod W

pub record SendMailSvcSpec : Type 0 where
  pub spec_send : RpcSpec
  pub spec_list : RpcSpec

pub record ClientSendMailSvc (W : Type 0) : Type 0 where
  pub handler_send : Option (RpcHandler W)
  pub handler_list : Option (RpcHandler W)

-- NewSendMailSvcSpec; `none` is the panic of MustRPCSpec.
unfoldable pub new_send_mail_svc_spec : Printer → Text → Option SendMailSvcSpec
unfolding must new_rpc_spec new_message
new_send_mail_svc_spec fmt svc =
    elim (must
      (new_rpc_spec fmt svc (codes "Send") (some (new_message 1)) (some (new_message 2)))) [
        | none ↦ none
        | some s ↦
            elim (must
              (new_rpc_spec fmt svc (codes "List") (some (new_message 3)) (some (new_message 4)))) [
                | none ↦ none
                | some l ↦ some (record { spec_send = s; spec_list = l })
              ]
      ]

-- SpecMap
unfoldable pub send_mail_spec_map : SendMailSvcSpec → Map Text RpcSpec
send_mail_spec_map spec = (codes "List", spec.spec_list) ∷ (codes "Send", spec.spec_send) ∷ []

module _ {W : Type 0} where
  -- The two function literals of ServeSendMailSvc.
  unfoldable pub serve_send : SendMailSvc W → RpcHandler W
  unfolding assert_message to_outcome
  serve_send svc ctx input w = elim (assert_message 1 input) [
    | none ↦ (panicked, w)
    | some c ↦ let (r, w') = svc.send ctx c w in (to_outcome 2 r, w')
  ]

  unfoldable pub serve_list : SendMailSvc W → RpcHandler W
  unfolding assert_message to_outcome
  serve_list svc ctx input w = elim (assert_message 3 input) [
    | none ↦ (panicked, w)
    | some c ↦ let (r, w') = svc.list ctx c w in (to_outcome 4 r, w')
  ]

  -- ServeSendMailSvc, for its two function literals.
  unfoldable pub serve_handlers :
      {S : Type 0}
      → RpcServer W S
      → SendMailSvcSpec
      → RpcHandler W
      → RpcHandler W
      → S
      → Option Error × S
  unfolding regist_handler deregister
  serve_handlers server spec send list s =
      let (e1, s1) = regist_handler server spec.spec_send (some send) s in
      elim e1 [
        | some e ↦ (some e, s1)
        | none ↦ deregister server spec.spec_send (
            let (e2, s2) = regist_handler server spec.spec_list (some list) s1 in
            elim e2 [ some e ↦ (some e, s2) | none ↦ deregister server spec.spec_list (none, s2) ])
      ]

  unfoldable pub serve_send_mail_svc :
      {S : Type 0} → RpcServer W S → SendMailSvcSpec → SendMailSvc W → S → Option Error × S
  unfolding serve_handlers serve_send serve_list
  serve_send_mail_svc server spec svc s =
      serve_handlers server spec (serve_send svc) (serve_list svc) s

  -- InvokeSendMailSvc
  unfoldable pub invoke_send_mail_svc : RpcClient W → SendMailSvcSpec → ClientSendMailSvc W
  unfolding make_handler
  invoke_send_mail_svc client spec = record {
    handler_send = make_handler client spec.spec_send;
    handler_list = make_handler client spec.spec_list;
  }

  -- The methods of clientSendMailSvc.
  unfoldable pub client_send : ClientSendMailSvc W → TypedMethod W
  unfolding client_method
  client_send svc ctx c w = client_method send_method svc.handler_send ctx c w

  unfoldable pub client_list : ClientSendMailSvc W → TypedMethod W
  unfolding client_method
  client_list svc ctx c w = client_method list_method svc.handler_list ctx c w

-- EmailEntrySpec
abbrev pub email_entry_spec : Text → MsgSpec
email_entry_spec subject = stub_msg subject 2

-- PublishEmailEntry
unfoldable pub publish_email_entry :
    {W : Type 0} → MsgPublisher W → Context → Text → ℕ → W → Option Error × W
publish_email_entry publisher ctx subject c w =
    publisher ctx (email_entry_spec subject) (val (message 2) c) w

-- The function literal of SubscribeEmailEntry.
unfoldable pub email_entry_handler :
    {W : Type 0} → (Context → ℕ → W → Handled × W) → Context → Value → W → Handled × W
unfolding assert_message
email_entry_handler handler ctx msg w = elim (assert_message 2 msg) [
  | none ↦ (panics, w)
  | some c ↦ handler ctx c w
]

module _ {W : Type 0} (svc : SendMailSvc W) where
  serve_send-stub_handler : serve_send svc ≡ stub_handler send_method svc.send
  unfolding serve_send stub_handler call_impl
  serve_send-stub_handler = fun_ext λ ctx. fun_ext λ input. fun_ext λ w.
      elim (Option-cases (assert_message 1 input)) [
        | inl e ↦ rw (e, serve_send) refl
        | inr (c, e) ↦ rw (e, serve_send) refl
      ]

  serve_list-stub_handler : serve_list svc ≡ stub_handler list_method svc.list
  unfolding serve_list stub_handler call_impl
  serve_list-stub_handler = fun_ext λ ctx. fun_ext λ input. fun_ext λ w.
      elim (Option-cases (assert_message 3 input)) [
        | inl e ↦ rw (e, serve_list) refl
        | inr (c, e) ↦ rw (e, serve_list) refl
      ]

module _ {W S : Type 0} (server : RpcServer W S) (spec : SendMailSvcSpec)
    (svc : SendMailSvc W) where
  abbrev pub stubs : List (Stub W)
  stubs =
      record { method = send_method; spec = spec.spec_send; impl = svc.send }
      ∷ record { method = list_method; spec = spec.spec_list; impl = svc.list }
      ∷ []

  -- The generated file's Serve function is the templates' for its two methods.
  pub serve_send_mail_svc-serve :
      (s : S) → serve_send_mail_svc server spec svc s ≡ serve server stubs s
  unfolding serve_send_mail_svc serve serve_handlers
  serve_send_mail_svc-serve s =
      ap (λ h. serve_handlers server spec h (serve_list svc) s) (serve_send-stub_handler svc)
      ∙ ap (λ h. serve_handlers server spec (stub_handler send_method svc.send) h s)
          (serve_list-stub_handler svc)
