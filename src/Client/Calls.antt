-- ===== src/Client/Calls.antt =====
-- The calls of the gateway service that the methods of node/src/client.ts make.
use fabric_gateway.Base.{refl, String, Option, none, some, [], ◌∷◌, Bytes}
use fabric_gateway.Effect.{Result, ok, err}
use fabric_gateway.Effect.Made.{calls, Made, Makes, Makes->>=, Made-none}
use fabric_gateway.Errors.{JsError, GatewayError, Thrown, CallOptions, Event, History}
use fabric_gateway.Protos.{Protos, Wire}
use fabric_gateway.Protos.Gateway.{
  EvaluateRequest, EndorseRequest, SubmitRequest, SignedCommitStatusRequest,
}
use fabric_gateway.Client.{
  OptionsSupplier, GatewayClient, build_options, unary_call, evaluate, endorse, submit,
  commit_status, evaluate_method, endorse_method, submit_method, commit_status_method,
}

build_options-Made :
    (supplier : Option OptionsSupplier) (options : Option CallOptions) (h : History)
    → Made calls [] h (build_options supplier options h)
unfolding build_options
build_options-Made none options h = Made-none calls h (build_options none options h).0
build_options-Made (some supplier) options h =
    Made-none calls h (build_options (some supplier) options h).0

pub build_options-Makes :
    (supplier : Option OptionsSupplier) (options : Option CallOptions)
    → Makes calls [] (build_options supplier options)
build_options-Makes supplier options = record { at = build_options-Made supplier options }

called :
    {A : Type 0} (method : String) (request : Bytes) (options : CallOptions) (h : History)
    (r : Result Thrown A)
    → Made calls (method ∷ []) h (r, Event.unary_call method request options ∷ h)
called method request options h (ok a) = refl
called method request options h (err e) = (method ∷ [], [], refl, refl)

module _ (pb : Protos) (c : GatewayClient) {A B : Type 0} (method : String) (request : Wire A)
    (response : Wire B) (supplier : Option OptionsSupplier) (argument : A)
    (options : Option CallOptions) (wrap : GatewayError → Result JsError Thrown) where
  pub unary_call-Makes :
      Makes calls
        (method ∷ [])
        (unary_call pb c method request response supplier argument options wrap)
  unfolding unary_call
  unary_call-Makes =
      Makes->>= [] (method ∷ []) (build_options-Makes supplier options)
        λ built. record { at = λ h. called method (request.serialize_binary argument) built h _ }

module _ (pb : Protos) (c : GatewayClient) (options : Option CallOptions) where
  pub evaluate-Makes :
      (r : EvaluateRequest) → Makes calls (evaluate_method ∷ []) (evaluate pb c r options)
  unfolding evaluate
  evaluate-Makes r = unary_call-Makes pb c _ _ _ _ r options _

  pub endorse-Makes :
      (r : EndorseRequest) → Makes calls (endorse_method ∷ []) (endorse pb c r options)
  unfolding endorse
  endorse-Makes r = unary_call-Makes pb c _ _ _ _ r options _

  pub submit-Makes : (r : SubmitRequest) → Makes calls (submit_method ∷ []) (submit pb c r options)
  unfolding submit
  submit-Makes r = unary_call-Makes pb c _ _ _ _ r options _

  pub commit_status-Makes :
      (r : SignedCommitStatusRequest)
      → Makes calls (commit_status_method ∷ []) (commit_status pb c r options)
  unfolding commit_status
  commit_status-Makes r = unary_call-Makes pb c _ _ _ _ r options _
