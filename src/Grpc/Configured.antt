-- ===== src/Grpc/Configured.antt =====
-- The two generated servers of src/proto/swandns.rs, after their options are set.
use swandns.Prelude.{◌≡◌, ap, List}
use swandns.Grpc.{
  HttpRequest, Tonic, Ping, Records, no_settings, new_ping_server, new_records_server, ping_call,
  records_call,
}
use swandns.Grpc.Options.{ServerOption, settings_after}
use swandns.Grpc.PingOptions
use swandns.Grpc.RecordsOptions

module _ (tonic : Tonic) {W : Type 0} where
  -- Whatever options are set on a new server, in whatever order, a clone of it answers each request
  -- as the server with the same handlers and these settings: the encodings that were enabled in
  -- both directions, in their order, and the last limit that was set for each direction, if one
  -- was.
  pub configured_lem :
      (options : List (ServerOption tonic.Encoding)) (ping : Ping W) (records : Records W)
      (req : HttpRequest tonic.Bytes) (w : W)
      → (ping_call tonic
            (PingOptions.clone tonic
              (PingOptions.configure tonic options (new_ping_server tonic ping)))
            req
            w
          ≡ ping_call tonic
              (record { inner = ping; settings = settings_after tonic (no_settings tonic) options })
              req
              w)
        × (records_call tonic
              (RecordsOptions.clone tonic
                (RecordsOptions.configure tonic options (new_records_server tonic records)))
              req
              w
            ≡ records_call tonic
                (record {
                  inner = records;
                  settings = settings_after tonic (no_settings tonic) options;
                })
                req
                w)
  unfolding new_ping_server new_records_server PingOptions.clone RecordsOptions.clone
  configured_lem options ping records req w = (
    ap (λ s. ping_call tonic s req w)
        (PingOptions.configure-settings_after tonic options (new_ping_server tonic ping)),
    ap (λ s. records_call tonic s req w)
        (RecordsOptions.configure-settings_after tonic options (new_records_server tonic records)),
  )
