-- ===== src/TransactionParser/First.antt =====
-- The loop over the actions of a transaction in node/src/transactionparser.ts.
use fabric_gateway.Base.{◌≡◌, List, [], ◌∷◌, ◌++◌, Bytes, append-nil, append_assoc}
use fabric_gateway.Effect.{ok, err}
use fabric_gateway.Errors.{JsError}
use fabric_gateway.Platform.{Platform}
use fabric_gateway.Protos.{Protos}
use fabric_gateway.Protos.Peer.{Payload, TransactionAction, TransactionProto}
use fabric_gateway.TransactionParser.{
  parse_result_from_transaction_action, no_proposal_response, parse_first,
  parse_result_from_payload,
}

module _ (pb : Protos) (node : Platform) where
  -- Reading each action fails, with these errors.
  pub data AllFail : List TransactionAction → List JsError → Type 0 where
    none_left : AllFail [] []
    fails :
        {a : TransactionAction} {e : JsError} {actions : List TransactionAction}
        {errors : List JsError}
        → parse_result_from_transaction_action pb node a ≡ err e
        → AllFail actions errors
        → AllFail (a ∷ actions) (e ∷ errors)

  parse_first-ok :
      (before after : List TransactionAction) (a : TransactionAction) (errors pushed : List JsError)
      (r : Bytes)
      → AllFail before errors
      → parse_result_from_transaction_action pb node a ≡ ok r
      → parse_first pb node (before ++ a ∷ after) pushed ≡ ok r
  unfolding parse_first
  parse_first-ok before after a errors pushed r none_left e = rw (e, parse_first)
  parse_first-ok before after a errors pushed r (fails {e = x} {actions} {errors = xs} f all) e =
      rw (f, parse_first) (parse_first-ok actions after a xs (pushed ++ x ∷ []) r all e)

  parse_first-err :
      (actions : List TransactionAction) (errors pushed : List JsError)
      → AllFail actions errors
      → parse_first pb node actions pushed ≡ err (no_proposal_response pb node (pushed ++ errors))
  unfolding parse_first
  parse_first-err actions errors pushed none_left = rw (append-nil pushed)
  parse_first-err actions errors pushed (fails {e = x} {actions = rest} {errors = xs} f all) =
      rw (f, parse_first) (simp append_assoc at (parse_first-err rest xs (pushed ++ x ∷ []) all))

  -- The result is that of the first action that can be read, whatever stands after it.
  pub parse_result_first :
      (payload : Payload) (t : TransactionProto) (before after : List TransactionAction)
      (a : TransactionAction) (errors : List JsError) (r : Bytes)
      → pb.transaction_proto.deserialize_binary payload.data_bytes ≡ ok t
      → t.actions ≡ before ++ a ∷ after
      → AllFail before errors
      → parse_result_from_transaction_action pb node a ≡ ok r
      → parse_result_from_payload pb node payload ≡ ok r
  unfolding parse_result_from_payload
  parse_result_first payload t before after a errors r e split all result =
      rw (e, split) (parse_first-ok before after a errors [] r all result)

  -- If no action can be read, the errors of all of them are reported, in order.
  pub parse_result_none :
      (payload : Payload) (t : TransactionProto) (errors : List JsError)
      → pb.transaction_proto.deserialize_binary payload.data_bytes ≡ ok t
      → AllFail t.actions errors
      → parse_result_from_payload pb node payload ≡ err (no_proposal_response pb node errors)
  unfolding parse_result_from_payload
  parse_result_none payload t errors e all = rw e (parse_first-err t.actions errors [] all)
