-- ===== src/Bin/ClientMain.antt =====
-- `main` of `swandns-update` (src/bin/client.rs). The crates that load configurations and shut the
-- program down are parameters; the rounds are those of a schedule.
use swandns.Prelude.{
  ℕ, ltb, String, ◌≡◌, ap, ◌∙◌, Option, none, some, List, Bool-cases, inl, inr, if◌then◌else◌,
  Result, ok, err, Outcome, returned, panicked,
}
use swandns.Messages.{RecordReply}
use swandns.Net.{AddressText}
use swandns.Util.{Host}
use swandns.Config.{FilePath, FigmentLibrary, ClientConfig, default_client, load_config}
use swandns.Client.{ClientError, records_not_updated, RetryLibrary, Network, update_records}
use swandns.Client.Updates.{AllReturn, failures, world_after_all, update_records_lem, result}
use swandns.Bin.{Round, LoopState, update_in_loop}

pub record Args : Type 0 where
  pub config : Option FilePath
  pub schedule : Option String

-- What the program runs on.
pub record Surroundings (W : Type 0) : Type 1 where
  -- the rounds of a schedule
  pub rounds : String → List (Round W)
  -- tokio_graceful_shutdown with one subsystem, and the timeout in milliseconds
  pub toplevel : String → (W → LoopState × W) → ℕ → W → Outcome (Result ClientError (Unit {0})) × W
  -- as in Config.antt
  pub confy_path : String → String → Result ClientError FilePath
  pub figment : FigmentLibrary ClientError ClientConfig

module _ (net : AddressText) (retry : RetryLibrary) (host : Host) {W : Type 0} (network : Network W)
    (around : Surroundings W) where
  unfoldable pub client_config : Option FilePath → Result ClientError ClientConfig
  client_config config = load_config around.confy_path around.figment default_client "client" config

  -- without a schedule: `update_records(cfg).await?; Ok(())`
  unfoldable pub after_update :
      Outcome (Result ClientError (List RecordReply)) × W
      → Outcome (Result ClientError (Unit {0})) × W
  after_update (panicked, w) = (panicked, w)
  after_update (returned (err e), w) = (returned (err e), w)
  after_update (returned (ok _), w) = (returned (ok tt), w)

  unfoldable pub after_config :
      Option String
      → Result ClientError ClientConfig
      → W
      → Outcome (Result ClientError (Unit {0})) × W
  unfolding after_update
  after_config schedule (err e) w = (returned (err e), w)
  after_config (some schedule) (ok cfg) w =
      around.toplevel "Schedule"
        (update_in_loop (update_records net retry network host cfg) (around.rounds schedule)) 1000 w
  after_config none (ok cfg) w = after_update (update_records net retry network host cfg w)

  -- `main`, with its arguments
  unfoldable pub client_main : Args → W → Outcome (Result ClientError (Unit {0})) × W
  unfolding client_config after_config
  client_main args = after_config args.schedule (client_config args.config)

  after_update-result :
      (cfg : ClientConfig) (n : ℕ) (w : W)
      → after_update (result net retry network host cfg n, w)
        ≡ (returned (if ltb 0 n then err (records_not_updated n) else ok tt), w)
  unfolding after_update
  after_update-result cfg n w = elim (Bool-cases (ltb 0 n)) [
    | inl some_failed ↦ rw some_failed
    | inr none_failed ↦ rw none_failed
  ]

  -- Without a schedule, and unless an update panics, the program updates each record of its
  -- configuration once, in order, and ends: with an error that counts the records that were not
  -- updated, if there are any, and otherwise with success.
  pub client_main_lem :
      (config : Option FilePath) (cfg : ClientConfig) (w : W)
      → client_config config ≡ ok cfg
      → AllReturn net retry network host cfg cfg.records w
      → client_main (record { config = config; schedule = none }) w ≡ (
        returned (
            if ltb 0 (failures net retry network host cfg cfg.records w)
            then err (records_not_updated (failures net retry network host cfg cfg.records w))
            else ok tt),
        world_after_all net retry network host cfg cfg.records w,
      )
  unfolding client_main after_config
  client_main_lem config cfg w loaded h =
      ap (λ c. after_config none c w) loaded
      ∙ ap after_update (update_records_lem net retry network host cfg w h)
      ∙ after_update-result cfg _ _
