-- ===== src/Grpc/Clients.antt =====
-- What the generated clients of src/proto/swandns.rs share: `tonic::client::Grpc`, and the way in
-- which each stub begins. tonic is a parameter.
use Prim.Native.String.{◌++◌}
use swandns.Prelude.{ℕ, String, Result, ok, err}
use swandns.RpcServer.{unknown, Status}
use swandns.Grpc.{Codec, Tonic}

-- The field `inner` of a client, `Grpc<T>`: a connection to some server, whose world it changes.
pub record Channel (tonic : Tonic) (W : Type 0) : Type 1 where
  pub ready : W → Result String (Unit {0}) × W
  -- its own settings let through a request, or a reply, of these bytes
  pub MayEncode : tonic.Bytes → Type 0
  pub MayDecode : tonic.Bytes → Type 0
  pub unary :
      (A B : Type 0)
      → Codec tonic.Bytes A
      → Codec tonic.Bytes B
      → A
      → String
      → W
      → Result Status B × W
  pub server_streaming :
      (A B : Type 0)
      → Codec tonic.Bytes A
      → Codec tonic.Bytes B
      → A
      → String
      → W
      → Result Status (tonic.Streaming B) × W

-- how tonic makes channels, connects them and sets their options
pub record ClientLibrary (tonic : Tonic) (W : Type 0) : Type 1 where
  pub Transport : Type 0
  pub Uri : Type 0
  pub Endpoint : Type 0
  pub new : Transport → Channel tonic W
  pub with_origin : Transport → Uri → Channel tonic W
  pub intercepted : Transport → tonic.Interceptor → Transport
  pub send_compressed : tonic.Encoding → Channel tonic W → Channel tonic W
  pub accept_compressed : tonic.Encoding → Channel tonic W → Channel tonic W
  pub max_decoding_message_size : ℕ → Channel tonic W → Channel tonic W
  pub max_encoding_message_size : ℕ → Channel tonic W → Channel tonic W
  -- `Endpoint::new` and `connect`
  pub endpoint : String → Result String Endpoint
  pub connect : Endpoint → W → Result String Transport × W

-- `self.inner.ready().await.map_err(…)?`, and the rest of a stub
abbrev pub when_ready :
    {W B : Type 0} → Result String (Unit {0}) × W → (W → Result Status B × W) → Result Status B × W
when_ready (ok _, w) rest = rest w
when_ready (err e, w) rest =
    (err (record { code = unknown; message = "Service was not ready: " ++ e }), w)
