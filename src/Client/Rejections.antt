-- ===== src/Client/Rejections.antt =====
-- What a caller sees when gRPC reports an error of a `CommitStatus` call (node/src/client.ts, with
-- commitstatuserror.ts and gatewayerror.ts).
use fabric_gateway.Base.{◌≡◌, refl, Option, some, ◌∷◌, inl, inr}
use fabric_gateway.Effect.{Result, ok, err, Result-cases}
use fabric_gateway.Errors.{JsError, GatewayError, Thrown, CallOptions, Event, History}
use fabric_gateway.GatewayErrors.{new_gateway_error}
use fabric_gateway.Protos.{Protos}
use fabric_gateway.Protos.Gateway.{
  SignedCommitStatusRequest, CommitStatusResponse, CommitStatusRequest,
}
use fabric_gateway.Client.{
  GatewayClient, build_options, reply_to, called_back, commit_status, new_unary_callback,
  commit_status_method,
}
use fabric_gateway.Client.Replies.{unary_call_lem}

-- By what becomes of decoding the details of the error, and the bytes of the request.
abbrev pub reported :
    Result JsError GatewayError
    → Result JsError CommitStatusRequest
    → Result Thrown CommitStatusResponse
reported (ok g) (ok q) = err (Thrown.commit_status_error g q.transaction_id)
reported (ok g) (err x) = err (Thrown.uncaught x)
reported (err x) q = err (Thrown.uncaught x)

-- Where the options can be built and gRPC reports an error, with a response or without, a `CommitStatus`
-- call throws a commit status error, with the gateway error that the details decode to and the
-- transaction identifier in the bytes of the request. Where the details or these bytes cannot be
-- decoded, that exception escapes from the callback of gRPC instead.
pub commit_status_rejected :
    (pb : Protos) (c : GatewayClient) (h : History) (options : Option CallOptions)
    (built : CallOptions) (e : JsError) (r : SignedCommitStatusRequest)
    (v : Option CommitStatusResponse)
    → build_options c.default_options.commit_status_options options h ≡ (ok built, h)
    → reply_to c h commit_status_method pb.signed_commit_status_request pb.commit_status_response r
        built
      ≡ called_back (some e) v
    → commit_status pb c r options h ≡ (
      reported (new_gateway_error pb e) (pb.commit_status_request.deserialize_binary r.request),
      Event.unary_call commit_status_method
            (pb.signed_commit_status_request.serialize_binary r)
            built
          ∷ h,
    )
unfolding commit_status new_unary_callback
commit_status_rejected pb c h options built e r v b reply =
    rw
      (unary_call_lem pb c commit_status_method pb.signed_commit_status_request
        pb.commit_status_response c.default_options.commit_status_options r options _ h built b)
      (rw reply (elim (Result-cases (new_gateway_error pb e)) [
        | inr (x, read) ↦ rw read refl
        | inl (g, read) ↦
            rw read (elim (Result-cases (pb.commit_status_request.deserialize_binary r.request)) [
              | inl (q, decoded) ↦ rw decoded refl
              | inr (x, decoded) ↦ rw decoded refl
            ])
      ]))
