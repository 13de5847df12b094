-- ===== src/Scenario/World/Blocks.antt =====
-- The last committed block number that a scenario keeps, from which it replays events.
use fabric_gateway.Base.{ℕ, ◌≡◌, refl, ◌∙◌, some, Bytes}
use fabric_gateway.Effect.{Result, ok, err, continue_with}
use fabric_gateway.Errors.{Thrown, History}
use fabric_gateway.Platform.{Platform}
use fabric_gateway.Protos.{Protos}
use fabric_gateway.Client.{GatewayClient, GatewayGrpcClient}
use fabric_gateway.Status.{Status}
use fabric_gateway.Scenario.Utils.{Inspection, assert_defined}
use fabric_gateway.Scenario.Invocation.{
  TransactionInvocation, Invoke, evaluates, submits, submit_for_status, submit, run, caught,
  get_block_number,
}
use fabric_gateway.Scenario.Invocation
use fabric_gateway.Scenario.Invocation.Online.{settle, settle-continue_with}
use fabric_gateway.Scenario.Context.{Connection, client_of}
use fabric_gateway.Scenario.World.{CustomWorld, get_transaction}
use fabric_gateway.Scenario.World.Calls.{invoke_transaction, put_invoked, keep_block}

-- The block of a submission whose status is known; without one, the number before.
abbrev committed_block : ℕ → Result Thrown (Bytes × Status) → ℕ
committed_block before (ok (bytes, status)) = status.block_number
committed_block before (err x) = before

module _ (pb : Protos) (node : Platform) (client : GatewayClient) where
  abbrev pub block_after : Invoke → TransactionInvocation → History → ℕ
  block_after evaluates i h = i.block_number
  block_after submits i h = committed_block i.block_number (submit_for_status pb node client i h).0

  settle-block :
      (i : TransactionInvocation) (r : Result Thrown (Bytes × Status) × History)
      → (settle pb node client i r).1.0.block_number ≡ committed_block i.block_number r.0
  settle-block i (ok (b, s), h) = refl
  settle-block i (err x, h) = refl

  run-block :
      (invoke : Invoke) (i : TransactionInvocation) (h : History)
      → (run pb node client invoke (i, h)).1.0.block_number ≡ block_after invoke i h
  unfolding run submit
  run-block evaluates i h = refl
  run-block submits i h =
      rw (settle-continue_with pb node client i (submit_for_status pb node client i h))
        (settle-block i (submit_for_status pb node client i h))

  caught-block :
      (util : Inspection) (r : Result Thrown Bytes × (TransactionInvocation × History))
      → (caught pb node client util r).1.0.block_number ≡ r.1.0.block_number
  caught-block util (ok bytes, s) = refl
  caught-block util (err (Thrown.uncaught x), s) = refl
  caught-block util (err x, s) = refl

-- The step that keeps the block number returns where the invocation did.
keep_block-put_invoked :
    (pb : Protos) (node : Platform) (clients : Connection → GatewayGrpcClient) (k : Connection)
    (w : CustomWorld) (x : Result Thrown (Unit {0}) × (TransactionInvocation × History))
    → let kept =
        continue_with (λ _. keep_block pb node clients) (put_invoked pb node clients k w x) in
      kept.0 ≡ ok tt → kept.1.0.last_committed_block_number ≡ x.1.0.block_number
unfolding get_transaction assert_defined get_block_number
keep_block-put_invoked pb node clients k w (ok tt, (i, h)) e = refl
keep_block-put_invoked pb node clients k w (err x, (i, h)) e = cc

-- Where invoking the transaction returns, the last committed block number is that of its commit if it
-- was submitted and the gateway reported a status, whether of success or not; else it is the number
-- that the transaction had before, and the number of an earlier commit is gone.
pub invoke_transaction-last_block :
    (pb : Protos) (node : Platform) (clients : Connection → GatewayGrpcClient) (util : Inspection)
    (w : CustomWorld) (h : History) (i : TransactionInvocation) (k : Connection)
    → w.transaction ≡ some (i, k)
    → (invoke_transaction pb node clients util (w, h)).0 ≡ ok tt
    → (invoke_transaction pb node clients util (w, h)).1.0.last_committed_block_number
      ≡ block_after pb node (client_of pb node clients k) i.invoke i h
unfolding invoke_transaction get_transaction assert_defined Invocation.invoke_transaction
invoke_transaction-last_block pb node clients util w h i k e returned =
    let client = client_of pb node clients k in
    let invoked = caught pb node client util (run pb node client i.invoke (i, h)) in
    simp e (
      keep_block-put_invoked pb node clients k w invoked (simp e at returned)
      ∙ (caught-block pb node client util (run pb node client i.invoke (i, h))
          ∙ run-block pb node client i.invoke i h))
