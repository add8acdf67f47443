-- ===== src/Client/Updates.antt =====
-- What `update_records` (src/client.rs) makes of the records of a configuration.
use swandns.Prelude.{
  ℕ, ◌+◌, ltb, ◌≡◌, refl, ap, ◌∙◌, List, [], ◌∷◌, if◌then◌else◌, Result, ok, err, Outcome, returned,
  panicked, arith,
}
use swandns.Messages.{RecordReply}
use swandns.Net.{AddressText}
use swandns.Util.{Host}
use swandns.Config.{ClientConfig, ClientRecordConfig}
use swandns.Client.{
  ClientError, records_not_updated, RetryLibrary, Network, update_record, after_update, update_all,
  errors_to_result, update_listed, update_records,
}

module _ {W : Type 0} (net : AddressText) (retry : RetryLibrary) (network : Network W) (host : Host)
    (cfg : ClientConfig) where
  abbrev pub failure : Outcome (Result ClientError RecordReply) → ℕ
  failure (returned (ok _)) = 0
  failure _ = 1

  abbrev pub Returns : Outcome (Result ClientError RecordReply) → Type 0
  Returns (returned _) = Unit
  Returns panicked = ⊥

  -- Every record is updated, one after the other: how many fail, and the world afterwards.
  abbrev pub failures : List ClientRecordConfig → W → ℕ
  failures [] w = 0
  failures (r ∷ rs) w =
      failure (update_record net retry network host cfg r w).0
      + failures rs (update_record net retry network host cfg r w).1

  abbrev pub world_after_all : List ClientRecordConfig → W → W
  world_after_all [] w = w
  world_after_all (r ∷ rs) w = world_after_all rs (update_record net retry network host cfg r w).1

  abbrev pub AllReturn : List ClientRecordConfig → W → Type 0
  AllReturn [] w = Unit
  AllReturn (r ∷ rs) w =
      Returns (update_record net retry network host cfg r w).0
      × AllReturn rs (update_record net retry network host cfg r w).1

  after_update_lem :
      (rest : ℕ → W → Outcome ℕ × W) (errors : ℕ) (p : Outcome (Result ClientError RecordReply) × W)
      → Returns p.0
      → after_update net retry network host rest errors p ≡ rest (errors + failure p.0) p.1
  unfolding after_update
  after_update_lem rest errors (returned (ok r), w) h = ap (λ n. rest n w) (omega arith)
  after_update_lem rest errors (returned (err e), w) h = refl
  after_update_lem rest errors (panicked, w) h = absurd h

  update_all_lem :
      (rs : List ClientRecordConfig) (errors : ℕ) (w : W)
      → AllReturn rs w
      → update_all net retry network host cfg rs errors w
        ≡ (returned (errors + failures rs w), world_after_all rs w)
  unfolding update_all
  update_all_lem [] errors w h = ap (λ n. (returned n, w)) (omega arith)
  update_all_lem (r ∷ rs) errors w (h, hs) =
      let p = update_record net retry network host cfg r w in
      after_update_lem (update_all net retry network host cfg rs) errors p h
      ∙ update_all_lem rs (errors + failure p.0) p.1 hs
      ∙ ap (λ n. (returned n, world_after_all rs p.1)) (omega arith)

  -- the result for so many failures
  abbrev pub result : ℕ → Outcome (Result ClientError (List RecordReply))
  result n = returned (if ltb 0 n then err (records_not_updated n) else ok [])

  update_listed_lem :
      (rs : List ClientRecordConfig) (w : W)
      → AllReturn rs w
      → update_listed net retry network host cfg rs w
        ≡ (result (failures rs w), world_after_all rs w)
  unfolding update_listed
  update_listed_lem [] w h = refl
  update_listed_lem (r ∷ rs) w h =
      ap (λ p. (errors_to_result p.0, p.1)) (update_all_lem (r ∷ rs) 0 w h)
      ∙ ap (λ n. (result n, world_after_all (r ∷ rs) w)) (omega arith)

  -- Unless one of them panics, all the records of the configuration are updated, in order, also
  -- after one that fails. The result is an error with the number of those that failed, if there
  -- are any; otherwise it is the empty list, whatever the server replied.
  pub update_records_lem :
      (w : W)
      → AllReturn cfg.records w
      → update_records net retry network host cfg w
        ≡ (result (failures cfg.records w), world_after_all cfg.records w)
  unfolding update_records
  update_records_lem w h = update_listed_lem cfg.records w h
