-- ===== src/Client/Replies.antt =====
-- How a unary call ends, by what gRPC answers.
use fabric_gateway.Base.{◌≡◌, String, Option, ◌∷◌}
use fabric_gateway.Effect.{Result, ok}
use fabric_gateway.Errors.{JsError, GatewayError, Thrown, CallOptions, Event, History}
use fabric_gateway.Protos.{Protos, Wire}
use fabric_gateway.Client.{
  OptionsSupplier, GatewayClient, build_options, reply_to, unary_call, settle,
}

module _ (pb : Protos) (c : GatewayClient) {A B : Type 0} (method : String) (request : Wire A)
    (response : Wire B) (supplier : Option OptionsSupplier) (argument : A)
    (options : Option CallOptions) (wrap : GatewayError → Result JsError Thrown) (h : History)
    (built : CallOptions) (options_built : build_options supplier options h ≡ (ok built, h)) where
  abbrev pub logged : History
  logged = Event.unary_call method (request.serialize_binary argument) built ∷ h

  pub unary_call_lem :
      unary_call pb c method request response supplier argument options wrap h
      ≡ (settle pb wrap (reply_to c h method request response argument built), logged)
  unfolding unary_call
  unary_call_lem = rw options_built
