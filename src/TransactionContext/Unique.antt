-- ===== src/TransactionContext/Unique.antt =====
-- The identifiers of the transactions of one identity (node/src/transactioncontext.ts).
use fabric_gateway.Base.{◌≡◌, ◌++◌, Bytes, All, append_cancel_right}
use fabric_gateway.Js.Buffer.{IsByte, to_hex_injective}
use fabric_gateway.Signing.{SigningIdentity, get_creator, hash}
use fabric_gateway.TransactionContext.{context_of}

-- Unless the hash gives the same bytes to two salted creators, two transactions of one identity with
-- the same identifier have the same nonce.
pub context_of-nonce :
    (identity : SigningIdentity) (nonce other : Bytes)
    → All IsByte (identity.hash (nonce ++ identity.creator))
    → All IsByte (identity.hash (other ++ identity.creator))
    → (identity.hash (nonce ++ identity.creator) ≡ identity.hash (other ++ identity.creator)
        → nonce ++ identity.creator ≡ other ++ identity.creator)
    → (context_of identity nonce).transaction_id ≡ (context_of identity other).transaction_id
    → (context_of identity nonce).signature_header.nonce
      ≡ (context_of identity other).signature_header.nonce
unfolding context_of get_creator hash
context_of-nonce identity nonce other b c no_collision same =
    append_cancel_right nonce other identity.creator (
      no_collision (
        to_hex_injective (identity.hash (nonce ++ identity.creator))
          (identity.hash (other ++ identity.creator)) b c same))
