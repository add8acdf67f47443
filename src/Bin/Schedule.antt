-- ===== src/Bin/Schedule.antt =====
-- What ends the loop of `swandns-update` (src/bin/client.rs), and what does not.
use swandns.Prelude.{
  ℕ, zero, suc, pos, ◌≡◌, refl, sym, ap, ◌∙◌, true, false, none, some, List, [], ◌∷◌, ◌++◌, All,
  Result, Outcome, returned, panicked,
}
use mathlib.Core.List.{append-nil}
use swandns.Messages.{RecordReply}
use swandns.Client.{ClientError}
use swandns.Bin.{Round, LoopState, running, done, wait, after_update, update_in_loop}

-- A round with no shutdown and a time in the future.
pub record IsQuiet {W : Type 0} (round : Round W) : Type 0 where
  pub not_requested : round.is_shutdown_requested ≡ false
  pub not_cancelled : round.cancelled ≡ none
  pub scheduled : (n : ℕ) × (round.until_next ≡ some (pos n))
  pub sleeps : round.is_sleep_cancelled ≡ false

module _ {W : Type 0} (update : W → Outcome (Result ClientError (List RecordReply)) × W) where
  -- the world after so many updates
  abbrev pub world_after : {A : Type 0} → List A → W → W
  world_after [] w = w
  world_after (_ ∷ rounds) w = world_after rounds (update w).1

  abbrev pub NeverPanics : Type 0
  NeverPanics = (w : W) → (r : Result ClientError (List RecordReply)) × ((update w).0 ≡ returned r)

  wait_lem :
      (n : ℕ) (rest : W → LoopState × W) (w : W) → wait update (some (pos n)) false rest w ≡ rest w
  unfolding wait
  wait_lem zero rest w = refl
  wait_lem (suc n) rest w = refl

  after_update_lem :
      (round : Round W) (rest : W → LoopState × W)
      (p : Outcome (Result ClientError (List RecordReply)) × W)
      (r : Result ClientError (List RecordReply))
      → IsQuiet round
      → p.0 ≡ returned r
      → after_update update round rest p ≡ rest p.1
  unfolding after_update
  after_update_lem round rest (panicked, w) r quiet e = cc
  after_update_lem round rest (returned _, w) r quiet e =
      let (n, next) = quiet.scheduled in rw (next, quiet.sleeps) (wait_lem n rest w)

  quiet_rounds :
      (rounds rest : List (Round W)) (w : W)
      → NeverPanics
      → All IsQuiet rounds
      → update_in_loop update (rounds ++ rest) w ≡ update_in_loop update rest (world_after rounds w)
  unfolding update_in_loop
  quiet_rounds [] rest w safe quiet = refl
  quiet_rounds (round ∷ rounds) rest w safe (q, quiet) =
      let (r, e) = safe w in
      rw (q.not_requested, q.not_cancelled)
        (after_update_lem round (update_in_loop update (rounds ++ rest)) (update w) r q e
          ∙ quiet_rounds rounds rest (update w).1 safe quiet)

  -- As long as no update panics, no shutdown is requested, nothing is cancelled and the schedule
  -- gives a time that is not in the past, the loop makes one update in every round, whether updates
  -- succeed or fail; and at the round in which a shutdown is requested it ends, with no further
  -- update.
  pub update_in_loop_lem :
      (rounds rest : List (Round W)) (last : Round W) (w : W)
      → NeverPanics
      → All IsQuiet rounds
      → last.is_shutdown_requested ≡ true
      → (update_in_loop update rounds w ≡ (running, world_after rounds w))
        × (update_in_loop update (rounds ++ last ∷ rest) w ≡ (done, world_after rounds w))
  unfolding update_in_loop
  update_in_loop_lem rounds rest last w safe quiet stop = (
    ap (λ l. update_in_loop update l w) (sym (append-nil rounds))
        ∙ quiet_rounds rounds [] w safe quiet,
    quiet_rounds rounds (last ∷ rest) w safe quiet ∙ rw stop,
  )
