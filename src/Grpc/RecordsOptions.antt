-- ===== src/Grpc/RecordsOptions.antt =====
-- The options of `RecordsServer` (src/proto/swandns.rs).
use swandns.Prelude.{ℕ, ◌≡◌, refl, some, List, [], ◌∷◌}
use swandns.Grpc.{Service, Tonic, Records, RecordsServer, new_records_server, records_call}
use swandns.Grpc.Options.{ServerOption, settings_after}

module _ (tonic : Tonic) {W : Type 0} where
  unfoldable pub with_interceptor : Records W → tonic.Interceptor → Service tonic.Bytes W
  with_interceptor inner interceptor =
      tonic.intercepted W (records_call tonic (new_records_server tonic inner)) interceptor

  unfoldable pub accept_compressed :
      tonic.Encoding → RecordsServer W tonic.Encodings → RecordsServer W tonic.Encodings
  accept_compressed encoding self = record self {
    settings = record (self.settings) {
      accept_compression_encodings =
          tonic.enable encoding self.settings.accept_compression_encodings;
    };
  }

  unfoldable pub send_compressed :
      tonic.Encoding → RecordsServer W tonic.Encodings → RecordsServer W tonic.Encodings
  send_compressed encoding self = record self {
    settings = record (self.settings) {
      send_compression_encodings = tonic.enable encoding self.settings.send_compression_encodings;
    };
  }

  unfoldable pub max_decoding_message_size :
      ℕ → RecordsServer W tonic.Encodings → RecordsServer W tonic.Encodings
  max_decoding_message_size limit self = record self {
    settings = record (self.settings) { max_decoding_message_size = some limit };
  }

  unfoldable pub max_encoding_message_size :
      ℕ → RecordsServer W tonic.Encodings → RecordsServer W tonic.Encodings
  max_encoding_message_size limit self = record self {
    settings = record (self.settings) { max_encoding_message_size = some limit };
  }

  -- `Clone`, which does not clone the handlers, only their `Arc`
  unfoldable pub clone : RecordsServer W tonic.Encodings → RecordsServer W tonic.Encodings
  clone self = record {
    inner = self.inner;
    settings = record {
      accept_compression_encodings = self.settings.accept_compression_encodings;
      send_compression_encodings = self.settings.send_compression_encodings;
      max_decoding_message_size = self.settings.max_decoding_message_size;
      max_encoding_message_size = self.settings.max_encoding_message_size;
    };
  }

  -- the calls of a sequence of options
  unfoldable pub configure :
      List (ServerOption tonic.Encoding)
      → RecordsServer W tonic.Encodings
      → RecordsServer W tonic.Encodings
  unfolding accept_compressed send_compressed max_decoding_message_size max_encoding_message_size
  configure [] self = self
  configure (ServerOption.accept_compressed e ∷ options) self =
      configure options (accept_compressed e self)
  configure (ServerOption.send_compressed e ∷ options) self =
      configure options (send_compressed e self)
  configure (ServerOption.max_decoding_message_size n ∷ options) self =
      configure options (max_decoding_message_size n self)
  configure (ServerOption.max_encoding_message_size n ∷ options) self =
      configure options (max_encoding_message_size n self)

  pub configure-settings_after :
      (options : List (ServerOption tonic.Encoding)) (self : RecordsServer W tonic.Encodings)
      → configure options self
        ≡ record { inner = self.inner; settings = settings_after tonic self.settings options }
  unfolding configure
  configure-settings_after [] self = refl
  configure-settings_after (ServerOption.accept_compressed e ∷ options) self =
      configure-settings_after options (accept_compressed e self)
  configure-settings_after (ServerOption.send_compressed e ∷ options) self =
      configure-settings_after options (send_compressed e self)
  configure-settings_after (ServerOption.max_decoding_message_size n ∷ options) self =
      configure-settings_after options (max_decoding_message_size n self)
  configure-settings_after (ServerOption.max_encoding_message_size n ∷ options) self =
      configure-settings_after options (max_encoding_message_size n self)
