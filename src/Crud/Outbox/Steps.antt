-- ===== src/Crud/Outbox/Steps.antt =====
-- Sequences of calls that write one buffer of a participant (C/src/dcrud/ParticipantImpl.c).
use dcrud.Base.{
  ℕ, ◌≤◌, ◌≡◌, refl, sym, ◌∙◌, subst, Option, some, List, [], ◌∷◌, ◌++◌, length, length-append,
  arith,
}
use dcrud.Util.Status.{Status, no_error}
use dcrud.Io.ByteBuffer
use dcrud.Io.ByteBuffer.{Buffer, Order}
use dcrud.Io.ByteBuffer.Streams.{Fits, append, append-append}
use dcrud.Io.ByteBuffer.Wire.{IsOpen, append-IsOpen, order-append, Fits-append}
use dcrud.Io.ByteBuffer.RoundTrip.{append_none}
use dcrud.Io.ByteBuffer.Exchange.{clear-open, clear-IsOpen, cleared, holding, flip-holding}
use dcrud.Crud.Outbox.{Outbox, run_steps}

-- The steps all return `no_error`, and lead from one state to the other.
pub data Runs {S : Type 0} : List (S → Status × S) → S → S → Type 0 where
  stop : (s : S) → Runs [] s s
  step :
      {call : S → Status × S} {calls : List (S → Status × S)} {s t u : S}
      → call s ≡ (no_error, t)
      → Runs calls t u
      → Runs (call ∷ calls) s u

module _ {S : Type 0} where
  pub run_steps_lem :
      {calls : List (S → Status × S)} {s t : S} → Runs calls s t → run_steps calls s ≡ (no_error, t)
  unfolding run_steps
  run_steps_lem (Runs.stop s) = refl
  run_steps_lem (Runs.step e r) = rw e (run_steps_lem r)

  pub Runs-append :
      {first second : List (S → Status × S)} {s t u : S}
      → Runs first s t
      → Runs second t u
      → Runs (first ++ second) s u
  Runs-append (Runs.stop s) later = later
  Runs-append (Runs.step e r) later = Runs.step e (Runs-append r later)

-- `view b` is a state in which `b` is the buffer that the steps write.
module _ (view : Buffer → Outbox) (order : Order) where
  -- A step that puts these bytes to the buffer, if they fit.
  abbrev pub Appends : (Outbox → Status × Outbox) → List ℕ → Type 0
  Appends call s =
      (b : Buffer)
      → IsOpen b
      → b.order ≡ order
      → Fits b (length s)
      → call (view b) ≡ (no_error, view (append b s))

  -- Steps that put these bytes, one after the other.
  pub data Puts : List (Outbox → Status × Outbox) → List ℕ → Type 0 where
    nothing : Puts [] []
    more :
        {call : Outbox → Status × Outbox} {calls : List (Outbox → Status × Outbox)} (s t : List ℕ)
        → Appends call s
        → Puts calls t
        → Puts (call ∷ calls) (s ++ t)

  pub Puts-Runs :
      {calls : List (Outbox → Status × Outbox)} {s : List ℕ}
      → Puts calls s
      → (b : Buffer) → IsOpen b
      → b.order ≡ order
      → Fits b (length s)
      → Runs calls (view b) (view (append b s))
  Puts-Runs Puts.nothing b o e h =
      subst (λ c. Runs [] (view b) (view c)) (sym (append_none b)) (Runs.stop (view b))
  Puts-Runs (Puts.more {call} {calls} s t a p) b o e h =
      let both = length-append s t in
      let fits : Fits b (length s) = omega arith in
      subst (λ c. Runs (call ∷ calls) (view b) (view c)) (append-append b s t)
        (Runs.step (a b o e fits) (
          Puts-Runs p (append b s) (append-IsOpen s o fits) (order-append b s ∙ e)
            (Fits-append b s (length t) (omega arith))))

  module _ (on : (Option Buffer → Status × Option Buffer) → Outbox → Status × Outbox)
      (on_view : (call : Option Buffer → Status × Option Buffer) (b c : Buffer)
        → call (some b) ≡ (no_error, some c)
        → on call (view b) ≡ (no_error, view c)) where
    -- A message that is written between a clear and a flip.
    pub message-Runs :
        {calls : List (Outbox → Status × Outbox)} {s : List ℕ} {b : Buffer}
        → Puts calls s
        → IsOpen b
        → b.order ≡ order
        → length s ≤ b.capacity
        → Runs
            (on ByteBuffer.clear ∷ (calls ++ (on ByteBuffer.flip ∷ [])))
            (view b)
            (view (holding b s))
    message-Runs {s = s} {b = b} p o e k = Runs.step (on_view ByteBuffer.clear _ _ (clear-open o)) (
        Runs-append (Puts-Runs p (cleared b) (clear-IsOpen o) e (omega arith))
          (Runs.step (on_view ByteBuffer.flip _ _ (flip-holding o s k)) (Runs.stop _)))
