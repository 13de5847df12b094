-- ===== src/Tests/Concurrent.antt =====
-- Two calls that race on one proposal, and the theorems about schedules there.
use fabric_gateway.Base.{◌≡◌, refl, subst, ◌⊎◌, true, [], ◌∷◌, Bytes, length, ltb, ltb-lt, arith}
use fabric_gateway.Effect.{Result, ok, err}
use fabric_gateway.Errors.{Thrown, Event, History}
use fabric_gateway.Signing.Signable.{get_digest}
use fabric_gateway.Signing.Concurrent.{
  starting, waiting, sent, calls_signer, stores, sends, System, moves, Reach, here, later, begin,
}
use fabric_gateway.Signing.Concurrent.Answers.{Answers, IsSignature, sent-IsSignature}
use fabric_gateway.Proposal.{proposal_signable, set_signature}
use fabric_gateway.Proposal.Sharing.{proposal_signable-IsSignable}
use fabric_gateway.Tests.Run.{run}
use fabric_gateway.Tests.World.{identity}
use fabric_gateway.Tests.Objects.{unsigned_proposal}

abbrev digest : Bytes
digest = get_digest proposal_signable unsigned_proposal

abbrev answer : Bytes
answer = 77 ∷ digest

-- Both calls have found no signature; the first one has sent its request.
abbrev raced : System proposal_signable
raced = record {
  object = set_signature answer unsigned_proposal;
  history = Event.sign digest ∷ Event.sign digest ∷ [];
  calls = sent answer ∷ waiting (ok answer) ∷ [];
}

race : Reach proposal_signable (begin proposal_signable unsigned_proposal [] 2) 4 raced
unfolding run
race =
    later
      (later
        (later (later here (moves [] (starting ∷ []) refl (calls_signer refl)))
          (moves (waiting (ok answer) ∷ []) [] refl (calls_signer refl)))
        (moves [] (waiting (ok answer) ∷ []) refl stores))
      (moves [] (waiting (ok answer) ∷ []) refl sends)

abbrev SignedOrThrown : Result Thrown Bytes → Type 0
SignedOrThrown (ok b) = ltb 0 (length b) ≡ true
SignedOrThrown (err x) = Unit

pub identity-signer :
    (past : History) (d b : Bytes) → identity.signer past d ≡ ok b → ltb 0 (length b) ≡ true
identity-signer past d b e = subst SignedOrThrown e (ltb-lt 0 (length (77 ∷ d)) (omega arith))

sent-IsSignature_example :
    IsSignature proposal_signable unsigned_proposal answer
    × ((ltb 0 (length answer) ≡ true) ⊎ Answers proposal_signable unsigned_proposal (ok []))
    × (proposal_signable.message raced.object ≡ proposal_signable.message unsigned_proposal)
sent-IsSignature_example =
    sent-IsSignature proposal_signable proposal_signable-IsSignable unsigned_proposal [] 2 4 raced
      [] (waiting (ok answer) ∷ []) answer race refl
