-- ===== src/Signing/Concurrent.antt =====
-- Calls that are made on one object at the same time. Each starts with `await this.#sign()`
-- (node/src/proposal.ts and the like), so that other calls run between its test of the signature, the
-- signer's answer, and the request.
pub mod Answers
pub mod Atomic
use fabric_gateway.Base.{ℕ, ◌+◌, repeat, ◌≡◌, true, false, List, ◌∷◌, ◌++◌, Bytes}
use fabric_gateway.Effect.{Result, ok, err}
use fabric_gateway.Errors.{Thrown, Event, History}
use fabric_gateway.Signing.Signable.{Signable, get_digest}

-- How far a call has come.
pub data Phase : Type 0 where
  starting : Phase
  -- The signer has been called, and its promise will end so.
  waiting : Result Thrown Bytes → Phase
  -- `#sign` has returned.
  ready : Phase
  -- The request is made, with this signature.
  sent : Bytes → Phase
  failed : Thrown → Phase

module _ {T : Type 0} (o : Signable T) where
  -- What one call does between two points where it waits.
  pub data Move (t : T) (h : History) : Phase → T → History → Phase → Type 0 where
    finds_signature : o.is_signed t ≡ true → Move t h starting t h ready
    calls_signer :
        o.is_signed t ≡ false
        → Move t h starting t
            (Event.sign (get_digest o t) ∷ h)
            (waiting ((o.signing_identity t).signer h (get_digest o t)))
    stores : {b : Bytes} → Move t h (waiting (ok b)) (o.set_signature b t) h ready
    rejects : {x : Thrown} → Move t h (waiting (err x)) t h (failed x)
    sends : Move t h ready t h (sent (o.signature t))

  -- The object, the history, and the calls.
  pub record System : Type 0 where
    pub object : T
    pub history : History
    pub calls : List Phase

  -- Any call may move next, and any other code may log an event. The number counts the moves of calls.
  pub data Step (s : System) : ℕ → System → Type 0 where
    moves :
        (before after : List Phase) {p q : Phase} {t : T} {h : History}
        → s.calls ≡ before ++ p ∷ after
        → Move s.object s.history p t h q
        → Step s 1 (record { object = t; history = h; calls = before ++ q ∷ after })
    elsewhere : (e : Event) → Step s 0 (record s { history = e ∷ s.history })

  -- A schedule, with the number of its moves.
  pub data Reach (s : System) : ℕ → System → Type 0 where
    here : Reach s 0 s
    later : {k m : ℕ} {u v : System} → Reach s k u → Step u m v → Reach s (m + k) v

  -- Some calls on a fresh object.
  abbrev pub begin : T → History → ℕ → System
  begin t h n = record { object = t; history = h; calls = repeat n starting }
