-- ===== src/Grpc/PingClient.antt =====
-- The client of the service `Ping` (src/proto/swandns.rs).
use swandns.Prelude.{ℕ, String, Result, ok, err}
use swandns.Messages.{PingRequest, PingReply}
use swandns.RpcServer.{Status}
use swandns.Grpc.{Tonic}
use swandns.Grpc.Clients.{Channel, ClientLibrary, when_ready}

pub record PingClient (tonic : Tonic) (W : Type 0) : Type 1 where
  pub inner : Channel tonic W

module _ (tonic : Tonic) {W : Type 0} where
  module _ (lib : ClientLibrary tonic W) where
    unfoldable pub new : lib.Transport → PingClient tonic W
    new inner = record { inner = lib.new inner }

    unfoldable pub with_origin : lib.Transport → lib.Uri → PingClient tonic W
    with_origin inner origin = record { inner = lib.with_origin inner origin }

    unfoldable pub with_interceptor : lib.Transport → tonic.Interceptor → PingClient tonic W
    unfolding new
    with_interceptor inner interceptor = new (lib.intercepted inner interceptor)

    -- after `connect().await`
    connected : Result String lib.Transport × W → Result String (PingClient tonic W) × W
    unfolding new
    connected (err e, w) = (err e, w)
    connected (ok conn, w) = (ok (new conn), w)

    at_endpoint : Result String lib.Endpoint → W → Result String (PingClient tonic W) × W
    unfolding connected
    at_endpoint (err e) w = (err e, w)
    at_endpoint (ok endpoint) w = connected (lib.connect endpoint w)

    unfoldable pub connect : String → W → Result String (PingClient tonic W) × W
    unfolding at_endpoint
    connect dst = at_endpoint (lib.endpoint dst)

    unfoldable pub send_compressed : tonic.Encoding → PingClient tonic W → PingClient tonic W
    send_compressed encoding self = record self { inner = lib.send_compressed encoding self.inner }

    unfoldable pub accept_compressed : tonic.Encoding → PingClient tonic W → PingClient tonic W
    accept_compressed encoding self = record self {
      inner = lib.accept_compressed encoding self.inner;
    }

    unfoldable pub max_decoding_message_size : ℕ → PingClient tonic W → PingClient tonic W
    max_decoding_message_size limit self = record self {
      inner = lib.max_decoding_message_size limit self.inner;
    }

    unfoldable pub max_encoding_message_size : ℕ → PingClient tonic W → PingClient tonic W
    max_encoding_message_size limit self = record self {
      inner = lib.max_encoding_message_size limit self.inner;
    }

  unfoldable pub send_ping : PingClient tonic W → PingRequest → W → Result Status PingReply × W
  send_ping self request w = when_ready (self.inner.ready w) (
      self.inner.unary PingRequest PingReply tonic.ping_request tonic.ping_reply request
        "/swandns.Ping/Ping")
