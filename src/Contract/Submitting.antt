-- ===== src/Contract/Submitting.antt =====
-- How submitting through a contract ends (`submit` of node/src/contract.ts, with commit.ts and
-- commiterror.ts).
use Prim.Native.String.{◌++◌}
use fabric_gateway.Base.{
  ◌≡◌, refl, String, Option, none, if◌then◌else◌, Bytes, ◌==◌, Bool-cases, inl, inr,
}
use fabric_gateway.Js.Text.{number_to_string}
use fabric_gateway.Effect.{Result, ok, err, Result-cases, continue_with, call_on, ◌>>=◌}
use fabric_gateway.Errors.{History, Thrown}
use fabric_gateway.Platform.{Platform}
use fabric_gateway.Protos.{Protos}
use fabric_gateway.Protos.Gateway.{CommitStatusResponse}
use fabric_gateway.Signing.Signable.{
  get_digest, sign_if_unsigned-signed, sign_if_unsigned-ok, sign_if_unsigned-err,
}
use fabric_gateway.Status.{Status, status_name, shown, new_commit_error}
use fabric_gateway.Client.{GatewayClient}
use fabric_gateway.Client
use fabric_gateway.Commit.{
  CommitImpl, SubmittedTransaction, commit_signable, is_signed, set_signature, new_status,
  get_status, get_result,
}
use fabric_gateway.ProposalBuilder.{ProposalOptions}
use fabric_gateway.Contract.{ContractImpl, result_if_successful, submit, submit_async}

-- What a caller gets of a transaction that is with the orderer, by how asking for its status ends.
abbrev pub settled : Protos → SubmittedTransaction → Result Thrown Status → Result Thrown Bytes
settled pb s (err x) = err x
settled pb s (ok status) =
    if status.code == pb.valid
    then ok s.result
    else err (
        Thrown.commit_error (record {
          message =
              "Transaction "
              ++ s.commit.transaction_id
              ++ " failed to commit with status code "
              ++ number_to_string status.code
              ++ " ("
              ++ shown (status_name pb status.code)
              ++ ")";
          code = status.code;
          transaction_id = s.commit.transaction_id;
        }))

-- The end of a submission, from the end of its part up to the orderer.
abbrev pub ending :
    Protos
    → GatewayClient
    → Result Thrown SubmittedTransaction × History
    → Result Thrown Bytes × History
ending pb client (err x, h) = (err x, h)
ending pb client (ok s, h) =
    let y = get_status pb client none (s.commit, h) in (settled pb s y.0, y.1.1)

-- A status, if there is one, is of this transaction, and successful if its code is `VALID`.
abbrev IsOf : Protos → String → Result Thrown Status × (CommitImpl × History) → Type 0
IsOf pb id (ok status, s) =
    (status.transaction_id ≡ id) × (status.successful ≡ (status.code == pb.valid))
IsOf pb id (err x, s) = Unit

module _ (pb : Protos) (client : GatewayClient) where
  replied :
      (c : CommitImpl) (x : Result Thrown CommitStatusResponse × History)
      → IsOf pb c.transaction_id (
          continue_with {B = Status}
            (λ response s. (ok (new_status pb c response), s))
            (x.0, (c, x.1)))
  unfolding new_status
  replied c (ok response, h) = (refl, refl)
  replied c (err x, h) = tt

  get_status-IsOf :
      (c : CommitImpl) (h : History) → IsOf pb c.transaction_id (get_status pb client none (c, h))
  unfolding get_status set_signature
  get_status-IsOf c h = elim (Bool-cases (is_signed c)) [
    | inl e ↦
        rw (sign_if_unsigned-signed commit_signable c h e)
          (replied c (Client.commit_status pb client c.signed_request none h))
    | inr e ↦ elim (Result-cases (c.signing_identity.signer h (get_digest commit_signable c))) [
      | inl (b, answer) ↦
          rw (sign_if_unsigned-ok commit_signable c h b e answer)
            (replied (set_signature b c) (Client.commit_status pb client _ none _))
      | inr (x, answer) ↦ rw (sign_if_unsigned-err commit_signable c h x e answer) tt
    ]
  ]

module _ (pb : Protos) (node : Platform) (client : GatewayClient) where
  settled_by :
      (s : SubmittedTransaction) (y : Result Thrown Status × (CommitImpl × History))
      → IsOf pb s.commit.transaction_id y
      → continue_with (result_if_successful pb node client s) (y.0, y.1.1)
        ≡ (settled pb s y.0, y.1.1)
  unfolding new_commit_error get_result
  settled_by s (ok status, t) (id, code) = elim (Bool-cases (status.code == pb.valid)) [
    | inl e ↦ rw (code, e) refl
    | inr e ↦ rw (code, e, id) refl
  ]
  settled_by s (err x, t) of = refl

  ended :
      (x : Result Thrown SubmittedTransaction × History)
      → continue_with
          (λ s.
            call_on s.commit (get_status pb client none) >>= result_if_successful pb node client s)
          x
        ≡ ending pb client x
  ended (ok s, h) =
      settled_by s (get_status pb client none (s.commit, h)) (get_status-IsOf pb client s.commit h)
  ended (err x, h) = refl

  -- Submitting ends as its part up to the orderer does, if that throws. Else the status of the
  -- commit is asked for: if that throws, so does submitting; if the code is `VALID`, the result of
  -- the transaction is returned; with any other code a commit error is thrown, which has that code
  -- and the identifier of the transaction, and names both in its message.
  pub submit-ending :
      (c : ContractImpl) (name : String) (options : Option ProposalOptions) (h : History)
      → submit pb node client c name options h
        ≡ ending pb client (submit_async pb node client c name options h)
  unfolding submit
  submit-ending c name options h = ended (submit_async pb node client c name options h)
