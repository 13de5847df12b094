-- ===== src/Client/Options.antt =====
-- The options of a call: those that the caller gives, over the defaults of the connection.
use fabric_gateway.Base.{◌≡◌, refl, ap, ◌∙◌, String, some, []}
use fabric_gateway.Js.Object.{get, assign, or_else, or_else-none, get-assign, HasDistinctKeys}
use fabric_gateway.Effect.{ok}
use fabric_gateway.Errors.{CallOptions, History}
use fabric_gateway.Client.{OptionsSupplier, build_options}

-- An option of the caller wins, and any other is the default's. No event is logged.
pub get-build_options :
    (supplier : OptionsSupplier) (options defaults : CallOptions) (key : String) (h : History)
    → supplier h ≡ ok defaults
    → HasDistinctKeys options
    → HasDistinctKeys defaults
    → (built : CallOptions) × ((build_options (some supplier) (some options) h ≡ (ok built, h))
        × (get key built ≡ or_else (get key options) (get key defaults)))
unfolding build_options get
get-build_options supplier options defaults key h supplied d e = (
  assign (assign [] defaults) options,
  (
    rw supplied refl,
    get-assign key (assign [] defaults) options d
        ∙ ap (or_else (get key options))
            (get-assign key [] defaults e ∙ or_else-none (get key defaults)),
  ),
)
