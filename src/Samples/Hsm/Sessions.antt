-- ===== src/Samples/Hsm/Sessions.antt =====
-- The sessions of the security module that hsm-samples/node/src/hsm-sample.ts opens.
use fabric_gateway.Base.{◌≡◌, refl, ap, ◌∙◌, String, List, [], ◌∷◌, inl, inr, arith}
use fabric_gateway.Effect.{Result, ok, err, Result-cases}
use fabric_gateway.Effect.Whole.{Preserves, Preserves->>=}
use fabric_gateway.Errors.{JsError, History}
use fabric_gateway.Platform.{Platform}
use fabric_gateway.Protos.{Protos}
use fabric_gateway.Client.{GatewayGrpcClient}
use fabric_gateway.Gateway.{GatewayImpl, connect, internal_connect}
use fabric_gateway.Gateway
use fabric_gateway.Identity.Pkcs11.{Handle, Calls}
use fabric_gateway.Identity.Hsm.{HsmSigner, new_signer, new_hsm_signer_factory, check_options}
use fabric_gateway.Identity.Hsm
use fabric_gateway.Identity.Hsm.Sessions.{
  open_after, with_signer, new_signer-open, remove, remove_self,
}
use fabric_gateway.Scenario.Context.{Connection}
use fabric_gateway.Scenario.HsmUsers.{Tokens}
use fabric_gateway.Samples.Runtime.{
  Machine, Setting, call, call_hsm, of_hsm, close_connection, try_finally, attempt,
}
use fabric_gateway.Samples.Hsm.{
  example_submit, run_example, close_all, run_with, new_hsm_signer, main, hsm_signer_options,
  get_ski_from_certificate,
}
use fabric_gateway.Samples.Ending.{
  open_in, IsSettled, HasOpen, call-HasOpen, log-HasOpen, iso_timestamp-HasOpen, attempt-HasOpen,
  Ends, with_session, EndsWith, EndsWith->>=, signer_after, finish-open,
}

module _ (sessions : List Handle) where
  module _ (pb : Protos) (node : Platform) (setting : Setting) (tokens : Tokens)
      (g : GatewayImpl) where
    example_submit-HasOpen : Preserves (HasOpen sessions) (example_submit pb node setting tokens g)
    unfolding example_submit
    example_submit-HasOpen =
        Preserves->>= (iso_timestamp-HasOpen sessions node setting) λ timestamp.
          Preserves->>= (log-HasOpen sessions _) λ _.
            Preserves->>= (call-HasOpen sessions _) λ submit_result.
              Preserves->>= (log-HasOpen sessions _) λ _.
                Preserves->>= (log-HasOpen sessions _) λ _.
                  Preserves->>= (call-HasOpen sessions _) λ evaluate_result. log-HasOpen sessions _

    run_example-HasOpen : Preserves (HasOpen sessions) (run_example pb node setting tokens g)
    run_example-HasOpen =
        Preserves->>= example_submit-HasOpen
          λ _. Preserves->>= (log-HasOpen sessions []) λ _. log-HasOpen sessions _

module _ (pb : Protos) (node : Platform) (setting : Setting) (tokens : Tokens) where
  factory-open :
      (library : String) (h : Calls)
      → open_after (new_hsm_signer_factory tokens.pkcs11 library h).1 ≡ open_after h
  unfolding new_hsm_signer_factory
  factory-open library h = ground arith

  close_all-open :
      (g : GatewayImpl) (client : Connection) (hsm : HsmSigner) (s : Machine × History)
      → open_in (close_all pb node setting tokens g client hsm s).1 ≡ remove hsm.session (open_in s)
  unfolding call close_connection call_hsm Gateway.close Hsm.close
  close_all-open g client hsm s = refl

  made-open :
      (t : Machine) (h : History) (others : List Handle) (y : Result JsError HsmSigner × Calls)
      → open_after y.1 ≡ with_signer y.0 others
      → open_in (of_hsm t h y).1 ≡ with_session (of_hsm t h y).0 others
  made-open t h others (ok hsm, calls) e = e
  made-open t h others (err x, calls) e = e

  new_hsm_signer-open :
      (pem : String) (s : Machine × History)
      → let y = new_hsm_signer pb node setting tokens pem s in
        open_in y.1 ≡ with_session y.0 (open_in s)
  unfolding new_hsm_signer attempt call_hsm
  new_hsm_signer-open pem s =
      elim (Result-cases (get_ski_from_certificate node tokens.get_key pem)) [
        | inl (ski, e) ↦ rw e (
            made-open s.0 s.1 (open_in s)
              (new_signer tokens.pkcs11 (hsm_signer_options pb node setting tokens ski)
                s.0.hsm_calls)
              (new_signer-open tokens.pkcs11 (hsm_signer_options pb node setting tokens ski)
                s.0.hsm_calls))
        | inr (x, e) ↦ rw e refl
      ]

  module _ (sessions : List Handle) where
    factory-HasOpen :
        (library : String)
        → Preserves (HasOpen sessions) (call_hsm (new_hsm_signer_factory tokens.pkcs11 library))
    unfolding call_hsm
    factory-HasOpen library = record { at = λ s p. factory-open library s.0.hsm_calls ∙ p }

    run_with-Ends :
        (client : Connection) (hsm : HsmSigner) (g : GatewayImpl) (s : Machine × History)
        → open_in s ≡ hsm.session ∷ sessions
        → Ends sessions (run_with pb node setting tokens client hsm (ok g) s)
    unfolding try_finally
    run_with-Ends client hsm g s e =
        let body = run_example pb node setting tokens g s in
        finish-open sessions (close_all pb node setting tokens g client hsm) body (
          close_all-open g client hsm body.1
          ∙ (ap (remove hsm.session)
                ((run_example-HasOpen (hsm.session ∷ sessions) pb node setting tokens g).at s e)
              ∙ remove_self hsm.session sessions))

    main-EndsWith :
        (clients : Connection → GatewayGrpcClient)
        → EndsWith sessions (main pb node setting tokens clients)
    unfolding main connect internal_connect
    main-EndsWith clients = EndsWith->>= sessions (log-HasOpen sessions _) λ _.
        EndsWith->>= sessions (attempt-HasOpen sessions _) λ client.
          EndsWith->>= sessions (attempt-HasOpen sessions _) λ library.
            EndsWith->>= sessions (factory-HasOpen library) λ _.
              EndsWith->>= sessions (attempt-HasOpen sessions _) λ credentials. record {
                at = λ s e.
                    signer_after sessions _
                      (new_hsm_signer pb node setting tokens (tokens.pkcs11.to_string credentials)
                        s)
                      (new_hsm_signer-open (tokens.pkcs11.to_string credentials) s
                        ∙ ap
                            (with_session
                              (new_hsm_signer pb node setting tokens
                                (tokens.pkcs11.to_string credentials) s).0)
                            e)
                      (λ hsm t. run_with-Ends client hsm _ t);
              }

-- Whatever the PKCS#11 library, the files and the gateway answer, the sample asks to close each session
-- that it has opened, and no other, unless it waits for a promise that is never settled.
pub main-sessions :
    (pb : Protos) (node : Platform) (setting : Setting) (tokens : Tokens)
    (clients : Connection → GatewayGrpcClient) (s : Machine × History)
    → IsSettled (main pb node setting tokens clients s).0
    → open_in (main pb node setting tokens clients s).1 ≡ open_in s
main-sessions pb node setting tokens clients s settled =
    (main-EndsWith pb node setting tokens (open_in s) clients).at s refl settled
