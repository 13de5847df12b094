-- ===== src/Scenario/Fabric/Library.antt =====
-- The search for the PKCS#11 library of SoftHSM in scenario/node/src/fabric.ts, over the test whether a
-- file exists.
use fabric_gateway.Base.{String, List, [], ◌∷◌, Bool, if◌then◌else◌}
use fabric_gateway.Effect.{Result, ok}
use fabric_gateway.Errors.{JsError, throw_error}

abbrev pub common_soft_hsm_path_names : List String
common_soft_hsm_path_names =
    "/usr/lib/softhsm/libsofthsm2.so" ∷ "/usr/lib/x86_64-linux-gnu/softhsm/libsofthsm2.so"
    ∷ "/usr/local/lib/softhsm/libsofthsm2.so" ∷ "/usr/lib/libacsp-pkcs11.so" ∷ []

-- The loop over the names, to its `return`, and what follows it.
unfoldable pub try_path_names : (String → Bool) → List String → Result JsError String
try_path_names exists_sync [] = throw_error "Unable to find PKCS11 library"
try_path_names exists_sync (pathname_to_try ∷ others) =
    let rest = try_path_names exists_sync others in
    if exists_sync pathname_to_try then ok pathname_to_try else rest

unfoldable pub find_soft_hsm_pkcs11_lib : (String → Bool) → Result JsError String
unfolding try_path_names
find_soft_hsm_pkcs11_lib exists_sync = try_path_names exists_sync common_soft_hsm_path_names
