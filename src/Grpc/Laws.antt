-- ===== src/Grpc/Laws.antt =====
-- What the generated stubs of src/proto/swandns.rs rely on: the laws of tonic, prost and a
-- connection.
use swandns.Prelude.{Option, none, String, ◌≡◌, some, Result, ok, err, returned}
use swandns.RpcServer.{unimplemented, Status}
use swandns.Grpc.{HttpResponse, Codec, Settings, Handler, Service, Tonic, unimplemented_response}
use swandns.Grpc.Clients.{Channel}

abbrev pub IsCodec : {Bytes A : Type 0} → Codec Bytes A → Type 0
IsCodec {A} codec = (a : A) → codec.decode (codec.encode a) ≡ some a

-- the message in a response to a unary call
abbrev pub carried : {Bytes B : Type 0} → Codec Bytes B → Result Status B → Option Bytes
carried cb (ok b) = some (cb.encode b)
carried cb (err status) = none

module _ (tonic : Tonic) where
  -- The client's channel and the server let the request and its reply through, and the server's
  -- handler makes the one of the other.
  abbrev pub Passes :
      {W A B : Type 0}
      → Channel tonic W
      → Settings tonic.Encodings
      → Codec tonic.Bytes A
      → Codec tonic.Bytes B
      → Handler W A B
      → A
      → W
      → Result Status B
      → W
      → Type 0
  Passes {B} channel settings ca cb handler request w reply w' =
      channel.MayEncode (ca.encode request)
      × tonic.MayDecode settings (ca.encode request)
      × ((b : B)
          → reply ≡ ok b
          → tonic.MayEncode settings (cb.encode b) × channel.MayDecode (cb.encode b))
      × (handler request w ≡ (returned reply, w'))

  -- what a client reads of a stream that a handler returns
  abbrev pub Streamed :
      (S B : Type 0) → Result Status S → Result Status (tonic.Streaming B) → Type 0
  Streamed S B (ok s) r =
      (stream : tonic.Streaming B) × (r ≡ ok stream) × tonic.Delivers S B s stream
  Streamed S B (err status) r = r ≡ err status

  -- What tonic and prost document.
  pub record IsTonic : Type 1 where
    pub ping_request : IsCodec tonic.ping_request
    pub ping_reply : IsCodec tonic.ping_reply
    pub upsert_request : IsCodec tonic.upsert_request
    pub find_unique_request : IsCodec tonic.find_unique_request
    pub record_reply : IsCodec tonic.record_reply
    pub records_query_request : IsCodec tonic.records_query_request
    pub empty_reply : IsCodec tonic.empty_reply
    pub answered :
        (W A B : Type 0) (settings : Settings tonic.Encodings) (ca : Codec tonic.Bytes A)
        (cb : Codec tonic.Bytes B) (handler : Handler W A B) (path : String) (request : A) (w : W)
        (reply : Result Status B) (w' : W)
        → IsCodec ca
        → IsCodec cb
        → tonic.MayDecode settings (ca.encode request)
        → ((b : B) → reply ≡ ok b → tonic.MayEncode settings (cb.encode b))
        → handler request w ≡ (returned reply, w')
        → (response : HttpResponse tonic.Bytes) × (tonic.unary W A B settings ca cb handler
              (record { path = path; body = ca.encode request })
              w
            ≡ (returned response, w'))
          × (tonic.message response ≡ carried cb reply)
          × (tonic.read B cb response ≡ reply)
    pub streamed :
        (W A B S : Type 0) (settings : Settings tonic.Encodings) (ca : Codec tonic.Bytes A)
        (cb : Codec tonic.Bytes B) (handler : Handler W A S) (path : String) (request : A) (w : W)
        (reply : Result Status S) (w' : W)
        → IsCodec ca
        → IsCodec cb
        → tonic.MayDecode settings (ca.encode request)
        → handler request w ≡ (returned reply, w')
        → (response : HttpResponse tonic.Bytes) × (tonic.server_streaming W A B S settings ca cb
              handler
              (record { path = path; body = ca.encode request })
              w
            ≡ (returned response, w'))
          × Streamed S B reply (tonic.read_stream B cb response)
    -- status 12
    pub refused :
        (B : Type 0) (cb : Codec tonic.Bytes B)
        → (s : Status) × (s.code ≡ unimplemented)
          × (tonic.message (unimplemented_response tonic) ≡ none)
          × (tonic.read B cb (unimplemented_response tonic) ≡ err s)

  -- The channel is connected to a service, and brings its responses back.
  pub record IsConnected {W : Type 0} (channel : Channel tonic W) (service : Service tonic.Bytes W)
      : Type 1 where
    pub ready : (w : W) → channel.ready w ≡ (ok tt, w)
    pub exchanged :
        (A B : Type 0) (ca : Codec tonic.Bytes A) (cb : Codec tonic.Bytes B) (request : A)
        (path : String) (w w' : W) (response : HttpResponse tonic.Bytes)
        → channel.MayEncode (ca.encode request)
        → ((m : tonic.Bytes) → tonic.message response ≡ some m → channel.MayDecode m)
        → service (record { path = path; body = ca.encode request }) w ≡ (returned response, w')
        → channel.unary A B ca cb request path w ≡ (tonic.read B cb response, w')
    pub opened :
        (A B : Type 0) (ca : Codec tonic.Bytes A) (cb : Codec tonic.Bytes B) (request : A)
        (path : String) (w w' : W) (response : HttpResponse tonic.Bytes)
        → channel.MayEncode (ca.encode request)
        → service (record { path = path; body = ca.encode request }) w ≡ (returned response, w')
        → channel.server_streaming A B ca cb request path w ≡ (tonic.read_stream B cb response, w')
