-- ===== src/GatewayErrors/Details.antt =====
-- The details of an error, as a gateway puts them into gRPC metadata, and as the program reads them.
use fabric_gateway.Base.{◌≡◌, refl, some, List, [], ◌∷◌, map, map-append, sym, none, ap, ◌∙◌}
use fabric_gateway.Js.{Value, bytes}
use fabric_gateway.Effect.{ok}
use fabric_gateway.Errors.{Metadata, JsError, ErrorDetail}
use fabric_gateway.Protos.{Protos, RoundTrips}
use fabric_gateway.Protos.Gateway.{AnyProto}
use fabric_gateway.GatewayErrors.{
  details_key, traverse, concat, read_status, read_detail, new_gateway_error, buffer_from,
  status_details,
}

module _ (pb : Protos) where
  abbrev pub any_of : ErrorDetail → AnyProto
  any_of d = record {
    value =
        pb.error_detail_proto.serialize_binary
          (record { address = d.address; message = d.message; msp_id = d.msp_id });
  }

  -- A status message with details, as a value of the metadata.
  abbrev pub status_of : List ErrorDetail → Value
  status_of details =
      bytes (pb.status_proto.serialize_binary (record { details = map any_of details }))

concat-map :
    {A B : Type 0} (f : A → B) (xss : List (List A)) → concat (map (map f) xss) ≡ map f (concat xss)
unfolding concat
concat-map f [] = refl
concat-map f (xs ∷ xss) = rw (concat-map f xss) (sym (map-append f xs (concat xss)))

module _ (pb : Protos) (laws : RoundTrips pb) where
  read_status-status_of :
      (groups : List (List ErrorDetail))
      → traverse (read_status pb) (map (status_of pb) groups) ≡ ok (map (map (any_of pb)) groups)
  unfolding traverse read_status buffer_from
  read_status-status_of [] = refl
  read_status-status_of (g ∷ groups) =
      rw (laws.status_proto _) (rw (read_status-status_of groups) refl)

  read_detail-any_of :
      (details : List ErrorDetail)
      → traverse (read_detail pb) (map (any_of pb) details) ≡ ok details
  unfolding traverse read_detail
  read_detail-any_of [] = refl
  read_detail-any_of (d ∷ details) =
      rw (laws.error_detail_proto _) (rw (read_detail-any_of details) refl)

  -- Whatever statuses the metadata holds, the error has the details of all of them, in order, beside
  -- the message, the code and the cause.
  pub new_gateway_error-status_of :
      (e : JsError) (metadata : Metadata) (groups : List (List ErrorDetail))
      → e.metadata ≡ some metadata
      → metadata.get details_key ≡ map (status_of pb) groups
      → new_gateway_error pb e
        ≡ ok (record { message = e.message; code = e.code; details = concat groups; cause = e })
  unfolding new_gateway_error
  new_gateway_error-status_of e metadata groups present held =
      let values : status_details e ≡ map (status_of pb) groups =
        ap (λ m. elim m [ none ↦ [] | some held_by ↦ held_by.get details_key ]) present ∙ held in
      let read = ap (traverse (read_status pb)) values ∙ read_status-status_of groups in
      rw read (rw (concat-map (any_of pb) groups) (rw (read_detail-any_of (concat groups)) refl))
