-- ===== src/Events/Draining.antt =====
-- Reading all the events of a stream of responses.
use fabric_gateway.Base.{
  ◌≡◌, refl, ℕ, zero, suc, ◌+◌, ◌<◌, ◌∙◌, sym, some, List, [], ◌∷◌, ◌++◌, map, length, arith,
}
use fabric_gateway.Errors.{Thrown}
use fabric_gateway.Protos.Gateway.{ChaincodeEventProto, ChaincodeEventsResponse}
use fabric_gateway.Client.{value, done, failed, Reads}
use fabric_gateway.Events.{
  ChaincodeEvent, new_chaincode_event, Generator, running, ended, start, next,
}

-- How reading a generator to its end comes out: the end of the responses, or an error.
pub data Ending : Type 0 where
  finished : Ending
  broken : Thrown → Ending

-- Calling `next` over and over yields these events, in this order, and then ends so.
pub data Yields (f : ℕ) (reads : Reads Thrown ChaincodeEventsResponse)
    : Generator → List ChaincodeEvent → Ending → Type 0 where
  stops : {g : Generator} → next f reads g ≡ some (done, ended) → Yields f reads g [] finished
  breaks :
      {g : Generator} {e : Thrown}
      → next f reads g ≡ some (failed e, ended)
      → Yields f reads g [] (broken e)
  yields :
      {g g' : Generator} {event : ChaincodeEvent} {events : List ChaincodeEvent} {ending : Ending}
      → next f reads g ≡ some (value event, g')
      → Yields f reads g' events ending
      → Yields f reads g (event ∷ events) ending

-- The responses from a position on, and how they end.
pub data Responds (reads : Reads Thrown ChaincodeEventsResponse)
    : ℕ → List ChaincodeEventsResponse → Ending → Type 0 where
  no_more : {i : ℕ} → reads i ≡ done → Responds reads i [] finished
  error : {i : ℕ} {e : Thrown} → reads i ≡ failed e → Responds reads i [] (broken e)
  more :
      {i : ℕ} {r : ChaincodeEventsResponse} {rs : List ChaincodeEventsResponse} {ending : Ending}
      → reads i ≡ value r
      → Responds reads (i + 1) rs ending
      → Responds reads i (r ∷ rs) ending

-- The events of the responses, in order, each with the number of its response's block.
abbrev pub events_of : ChaincodeEventsResponse → List ChaincodeEvent
events_of r = map (new_chaincode_event r.block_number) r.events

abbrev pub all_events : List ChaincodeEventsResponse → List ChaincodeEvent
all_events [] = []
all_events (r ∷ rs) = events_of r ++ all_events rs

module _ (reads : Reads Thrown ChaincodeEventsResponse) where
  next-value :
      {i : ℕ} {r : ChaincodeEventsResponse} (f b : ℕ)
      → reads i ≡ value r
      → next (suc f) reads (running i b []) ≡ next f reads (running (i + 1) r.block_number r.events)
  unfolding next
  next-value f b e = rw (e, next)

  -- Fuel beyond the number of the responses that are left changes nothing.
  fuel-irrelevant :
      {rs : List ChaincodeEventsResponse} {ending : Ending} {i : ℕ} (f k b : ℕ)
      (es : List ChaincodeEventProto)
      → Responds reads i rs ending
      → length rs < f
      → length rs < k
      → next f reads (running i b es) ≡ next k reads (running i b es)
  unfolding next
  fuel-irrelevant f k b (e ∷ es) responds p q = refl
  fuel-irrelevant zero k b [] responds p q = elim p [ ]
  fuel-irrelevant (suc f) zero b [] responds p q = elim q [ ]
  fuel-irrelevant (suc f) (suc k) b [] (no_more e) p q = rw (e, next)
  fuel-irrelevant (suc f) (suc k) b [] (error e) p q = rw (e, next)
  fuel-irrelevant {i = i} (suc f) (suc k) b [] (more {r} {rs} e responds) p q =
      next-value f b e
      ∙ (fuel-irrelevant {rs = rs} {i = i + 1} f k r.block_number r.events responds
            (omega (arith, p)) (omega (arith, q))
          ∙ sym (next-value k b e))

  Yields-same :
      {f : ℕ} {g g' : Generator} {events : List ChaincodeEvent} {ending : Ending}
      → next f reads g ≡ next f reads g'
      → Yields f reads g' events ending
      → Yields f reads g events ending
  Yields-same e (stops s) = stops (e ∙ s)
  Yields-same e (breaks s) = breaks (e ∙ s)
  Yields-same e (yields s rest) = yields (e ∙ s) rest

  running-Yields :
      {rs : List ChaincodeEventsResponse} {ending : Ending} {i : ℕ} (f b : ℕ)
      (es : List ChaincodeEventProto)
      → Responds reads i rs ending
      → length rs < f
      → Yields f reads (running i b es) (map (new_chaincode_event b) es ++ all_events rs) ending
  unfolding next
  running-Yields f b (e ∷ es) responds p = yields refl (running-Yields f b es responds p)
  running-Yields zero b [] responds p = elim p [ ]
  running-Yields (suc f) b [] (no_more e) p = stops (rw (e, next))
  running-Yields (suc f) b [] (error e) p = breaks (rw (e, next))
  running-Yields (suc f) b [] (more {r} e responds) p =
      Yields-same
        (next-value f b e
          ∙ fuel-irrelevant f (suc f) r.block_number r.events responds (omega (arith, p))
              (omega (arith, p)))
        (running-Yields (suc f) r.block_number r.events responds (omega (arith, p)))

  -- With fuel above the number of the responses, the generator yields the events of all of them, in
  -- order, each with its block's number, and then ends as the responses do.
  pub start-Yields :
      (f : ℕ) (rs : List ChaincodeEventsResponse) (ending : Ending)
      → Responds reads 0 rs ending
      → length rs < f
      → Yields f reads start (all_events rs) ending
  start-Yields f rs ending responds p = running-Yields f 0 [] responds p
