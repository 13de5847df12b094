-- ===== src/Tests/Rejecting.antt =====
-- The theorems about rejected calls, and about how a submission ends, at concrete inputs.
use fabric_gateway.Base.{◌≡◌, refl, none, [], ◌∷◌}
use fabric_gateway.Effect.{ok, err}
use fabric_gateway.Errors.{Thrown, Event}
use fabric_gateway.Client.{evaluate_method, endorse_method, submit_method, commit_status_method}
use fabric_gateway.Client
use fabric_gateway.Client.Rejections.{commit_status_rejected}
use fabric_gateway.Contract.{submit, submit_async}
use fabric_gateway.Contract.Submitting.{ending, submit-ending}
use fabric_gateway.Tests.Wires.{protos}
use fabric_gateway.Tests.Run.{run}
use fabric_gateway.Tests.World.{node, answering, rejecting, contract, rejected, rejection}
use fabric_gateway.Tests.Objects.{unsigned_commit}

commit_status_rejected_example :
    Client.commit_status protos rejecting unsigned_commit.signed_request none [] ≡ (
      err (Thrown.commit_status_error rejected "a1"),
      Event.unary_call commit_status_method
            (protos.signed_commit_status_request.serialize_binary unsigned_commit.signed_request)
            []
          ∷ [],
    )
unfolding run
commit_status_rejected_example =
    commit_status_rejected protos rejecting [] none [] rejection unsigned_commit.signed_request none
      refl refl

-- The service answers with the code `VALID`.
valid_run : (submit protos node answering contract "put" none []).0 ≡ ok (42 ∷ [])
unfolding run
valid_run = refl

submit-ending_example :
    submit protos node answering contract "put" none []
    ≡ ending protos answering (submit_async protos node answering contract "put" none [])
submit-ending_example = submit-ending protos node answering contract "put" none []
