-- ===== src/Grpc/Options.antt =====
-- The options of a generated server (src/proto/swandns.rs): what a sequence of them asks for.
use swandns.Prelude.{ℕ, Option, some, List, [], ◌∷◌}
use swandns.Grpc.{Settings, Tonic}

-- a call of one of the four methods that set an option
pub data ServerOption (Encoding : Type 0) : Type 0 where
  accept_compressed send_compressed : Encoding → ServerOption Encoding
  max_decoding_message_size max_encoding_message_size : ℕ → ServerOption Encoding

module _ {Encoding : Type 0} where
  abbrev pub accepted : List (ServerOption Encoding) → List Encoding
  accepted [] = []
  accepted (accept_compressed e ∷ options) = e ∷ accepted options
  accepted (_ ∷ options) = accepted options

  abbrev pub sent : List (ServerOption Encoding) → List Encoding
  sent [] = []
  sent (send_compressed e ∷ options) = e ∷ sent options
  sent (_ ∷ options) = sent options

  abbrev pub decoding_limits : List (ServerOption Encoding) → List ℕ
  decoding_limits [] = []
  decoding_limits (max_decoding_message_size n ∷ options) = n ∷ decoding_limits options
  decoding_limits (_ ∷ options) = decoding_limits options

  abbrev pub encoding_limits : List (ServerOption Encoding) → List ℕ
  encoding_limits [] = []
  encoding_limits (max_encoding_message_size n ∷ options) = n ∷ encoding_limits options
  encoding_limits (_ ∷ options) = encoding_limits options

-- the last one of a list, or what was there
abbrev pub last_or : Option ℕ → List ℕ → Option ℕ
last_or before [] = before
last_or before (n ∷ ns) = last_or (some n) ns

module _ (tonic : Tonic) where
  -- all of the list enabled, from the first to the last
  abbrev pub enable_all : tonic.Encodings → List tonic.Encoding → tonic.Encodings
  enable_all before [] = before
  enable_all before (e ∷ es) = enable_all (tonic.enable e before) es

  -- each setting by itself: the encodings that are enabled beside those before, and the last limits
  abbrev pub settings_after :
      Settings tonic.Encodings → List (ServerOption tonic.Encoding) → Settings tonic.Encodings
  settings_after s options = record {
    accept_compression_encodings = enable_all s.accept_compression_encodings (accepted options);
    send_compression_encodings = enable_all s.send_compression_encodings (sent options);
    max_decoding_message_size = last_or s.max_decoding_message_size (decoding_limits options);
    max_encoding_message_size = last_or s.max_encoding_message_size (encoding_limits options);
  }
