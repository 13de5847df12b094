-- ===== src/TransactionContext.antt =====
-- node/src/transactioncontext.ts: the nonce and the identifier of a new transaction.
pub mod Unique
use fabric_gateway.Base.{ℕ, String, ◌∷◌, ◌++◌, Bytes}
use fabric_gateway.Js.Buffer.{to_hex}
use fabric_gateway.Effect.{ok}
use fabric_gateway.Errors.{Event, M}
use fabric_gateway.Platform.{Platform}
use fabric_gateway.Protos.Peer.{SignatureHeader}
use fabric_gateway.Signing.{SigningIdentity, get_creator, hash}

pub record TransactionContext : Type 0 where
  pub transaction_id : String
  pub signature_header : SignatureHeader

abbrev pub nonce_length : ℕ
nonce_length = 24

-- The constructor, once the random bytes are there.
unfoldable pub context_of : SigningIdentity → Bytes → TransactionContext
unfolding get_creator hash
context_of identity nonce =
    let creator = get_creator identity in
    let salted_creator = nonce ++ creator in
    let raw_transaction_id = hash identity salted_creator in
    record {
      transaction_id = to_hex raw_transaction_id;
      signature_header = record { creator = creator; nonce = nonce };
    }

-- The constructor.
unfoldable pub new_transaction_context : Platform → SigningIdentity → M TransactionContext
unfolding context_of
new_transaction_context node identity h = (
  ok (context_of identity (node.random_bytes h nonce_length)),
  Event.random_bytes nonce_length ∷ h,
)
