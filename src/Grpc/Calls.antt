-- ===== src/Grpc/Calls.antt =====
-- A client stub of src/proto/swandns.rs connected to a server of it.
use swandns.Prelude.{sym, ok, some, String, ◌≡◌, refl, ap, ◌∙◌, Result, err, returned}
use swandns.Messages.{
  PingRequest, PingReply, UpsertRecordRequest, RecordReply, FindUniqueRecordRequest, EmptyReply,
}
use swandns.RpcServer.{unimplemented, Status}
use swandns.Grpc.{
  Codec, Settings, Handler, Service, Tonic, PingServer, RecordsServer, unimplemented_response,
  ping_call, records_call,
}
use swandns.Grpc.Clients.{Channel, when_ready}
use swandns.Grpc.Laws.{IsCodec, carried, Passes, Streamed, IsTonic, IsConnected}
use swandns.Grpc.PingClient.{PingClient, send_ping}
use swandns.Grpc.RecordsClient.{
  RecordsClient, send_find_unique, send_upsert, send_list, send_delete,
}

module _ (tonic : Tonic) (h : IsTonic tonic) {W : Type 0} (channel : Channel tonic W) where
  -- a client that may receive a reply may receive the message of its response
  carried-MayDecode :
      {B : Type 0} (cb : Codec tonic.Bytes B) (reply : Result Status B) (m : tonic.Bytes)
      → ((b : B) → reply ≡ ok b → channel.MayDecode (cb.encode b))
      → carried cb reply ≡ some m
      → channel.MayDecode m
  carried-MayDecode cb (ok b) m may e = let same : cb.encode b ≡ m = cc in rw same at (may b refl)
  carried-MayDecode cb (err status) m may e = cc

  -- a call of a path at which the service is a handler's
  pub handled :
      {A B : Type 0} (service : Service tonic.Bytes W) (settings : Settings tonic.Encodings)
      (ca : Codec tonic.Bytes A) (cb : Codec tonic.Bytes B) (handler : Handler W A B)
      (path : String) (request : A) (w w' : W) (reply : Result Status B)
      → IsConnected tonic channel service
      → IsCodec ca
      → IsCodec cb
      → ((body : tonic.Bytes)
          → service (record { path = path; body = body }) w
            ≡ tonic.unary W A B settings ca cb handler (record { path = path; body = body }) w)
      → Passes tonic channel settings ca cb handler request w reply w'
      → when_ready (channel.ready w) (channel.unary A B ca cb request path) ≡ (reply, w')
  handled {A} {B} service settings ca cb handler path request w w' reply connected ia ib at
        (may_send, may_read, may_reply, called) =
      let (response, answer, message, same) =
        h.answered W A B settings ca cb handler path request w reply w' ia ib may_read
          (λ b e. (may_reply b e).0) called in
      rw (connected.ready w) (
        connected.exchanged A B ca cb request path w w' response may_send
          (λ m e. carried-MayDecode cb reply m (λ b e. (may_reply b e).1) (sym message ∙ e))
          (at (ca.encode request) ∙ answer)
        ∙ ap (λ r. (r, w')) same)

  -- a call of a path that the service does not have
  unhandled :
      {A B : Type 0} (service : Service tonic.Bytes W) (ca : Codec tonic.Bytes A)
      (cb : Codec tonic.Bytes B) (path : String) (request : A) (w : W)
      → IsConnected tonic channel service
      → channel.MayEncode (ca.encode request)
      → service (record { path = path; body = ca.encode request }) w
        ≡ (returned (unimplemented_response tonic), w)
      → (s : Status) × (s.code ≡ unimplemented)
        × (when_ready (channel.ready w) (channel.unary A B ca cb request path) ≡ (err s, w))
  unhandled {A} {B} service ca cb path request w connected may_send other =
      let (s, code, no_message, read) = h.refused B cb in
      (
        s,
        code,
        rw (connected.ready w) (
            connected.exchanged A B ca cb request path w w _ may_send
              (λ m e. cc (sym no_message ∙ e)) other
            ∙ ap (λ r. (r, w)) read),
      )

  -- a call that opens a stream
  opened :
      {A B S : Type 0} (service : Service tonic.Bytes W) (settings : Settings tonic.Encodings)
      (ca : Codec tonic.Bytes A) (cb : Codec tonic.Bytes B) (handler : Handler W A S)
      (path : String) (request : A) (w w' : W) (reply : Result Status S)
      → IsConnected tonic channel service
      → IsCodec ca
      → IsCodec cb
      → ((body : tonic.Bytes)
          → service (record { path = path; body = body }) w
            ≡ tonic.server_streaming W A B S settings ca cb handler
                (record { path = path; body = body })
                w)
      → channel.MayEncode (ca.encode request)
      → tonic.MayDecode settings (ca.encode request)
      → handler request w ≡ (returned reply, w')
      → (r : Result Status (tonic.Streaming B)) × Streamed tonic S B reply r
        × (when_ready (channel.ready w) (channel.server_streaming A B ca cb request path) ≡ (r, w'))
  opened {A} {B} {S} service settings ca cb handler path request w w' reply connected ia ib at
        may_send may_read called =
      let (response, answer, same) =
        h.streamed W A B S settings ca cb handler path request w reply w' ia ib may_read called in
      (
        tonic.read_stream B cb response,
        same,
        rw (connected.ready w) (
            connected.opened A B ca cb request path w w' response may_send
              (at (ca.encode request) ∙ answer)),
      )

module _ (tonic : Tonic) (h : IsTonic tonic) {W : Type 0} where
  -- Over tonic, each unary stub of a client that is connected to a `RecordsServer`, whatever the
  -- settings, calls the handler of its own name, if both sides let the messages through: the stub
  -- returns what the handler returns, a reply or a status, and the server's world is the one that
  -- the handler leaves. The stub of `list` returns a stream that delivers the one of the server's
  -- handler, or the handler's status.
  pub records_stubs :
      (client : RecordsClient tonic W) (server : RecordsServer W tonic.Encodings)
      (found deleted : FindUniqueRecordRequest) (written : UpsertRecordRequest) (w w₁ w₂ w₃ w₄ : W)
      (r₁ r₂ : Result Status RecordReply) (r₃ : Result Status EmptyReply)
      (r₄ : Result Status server.inner.ListStream)
      → IsConnected tonic client.inner (records_call tonic server)
      → Passes tonic client.inner server.settings tonic.find_unique_request tonic.record_reply
          server.inner.find_unique found w r₁ w₁
      → Passes tonic client.inner server.settings tonic.upsert_request tonic.record_reply
          server.inner.upsert written w r₂ w₂
      → Passes tonic client.inner server.settings tonic.find_unique_request tonic.empty_reply
          server.inner.delete deleted w r₃ w₃
      → client.inner.MayEncode (tonic.records_query_request.encode tt)
      → tonic.MayDecode server.settings (tonic.records_query_request.encode tt)
      → server.inner.list tt w ≡ (returned r₄, w₄)
      → (send_find_unique tonic client found w ≡ (r₁, w₁))
        × (send_upsert tonic client written w ≡ (r₂, w₂))
        × (send_delete tonic client deleted w ≡ (r₃, w₃))
        × ((r : Result Status (tonic.Streaming RecordReply)) × Streamed tonic
              server.inner.ListStream RecordReply r₄ r
            × (send_list tonic client tt w ≡ (r, w₄)))
  unfolding records_call send_find_unique send_upsert send_delete send_list
  records_stubs client server found deleted written w w₁ w₂ w₃ w₄ r₁ r₂ r₃ r₄ connected p₁ p₂ p₃
        may_send may_read listed =
      (
        handled tonic h client.inner _ _ tonic.find_unique_request tonic.record_reply
            server.inner.find_unique _ found w w₁ r₁ connected h.find_unique_request h.record_reply
            (λ body. refl) p₁,
        handled tonic h client.inner _ _ tonic.upsert_request tonic.record_reply server.inner.upsert
            _ written w w₂ r₂ connected h.upsert_request h.record_reply (λ body. refl) p₂,
        handled tonic h client.inner _ _ tonic.find_unique_request tonic.empty_reply
            server.inner.delete _ deleted w w₃ r₃ connected h.find_unique_request h.empty_reply
            (λ body. refl) p₃,
        opened tonic h client.inner _ _ tonic.records_query_request tonic.record_reply
            server.inner.list _ tt w w₄ r₄ connected h.records_query_request h.record_reply
            (λ body. refl) may_send may_read listed,
      )

  -- Over tonic, the stub of a `Ping` client connected to a `PingServer`, whatever the settings,
  -- returns what its handler returns, if both sides let the messages through; connected to one, the
  -- `Upsert` stub of the other service gets the status Unimplemented, and the server's world is
  -- untouched.
  pub ping_stub :
      (client : PingClient tonic W) (server : PingServer W tonic.Encodings) (request : PingRequest)
      (other : UpsertRecordRequest) (w w' : W) (reply : Result Status PingReply)
      → IsConnected tonic client.inner (ping_call tonic server)
      → Passes tonic client.inner server.settings tonic.ping_request tonic.ping_reply
          server.inner.ping request w reply w'
      → client.inner.MayEncode (tonic.upsert_request.encode other)
      → (send_ping tonic client request w ≡ (reply, w'))
        × ((s : Status) × (s.code ≡ unimplemented)
            × (send_upsert tonic (record { inner = client.inner }) other w ≡ (err s, w)))
  unfolding ping_call send_ping send_upsert
  ping_stub client server request other w w' reply connected passes may_send = (
    handled tonic h client.inner _ _ tonic.ping_request tonic.ping_reply server.inner.ping _ request
        w w' reply connected h.ping_request h.ping_reply (λ body. refl) passes,
    unhandled tonic h client.inner _ tonic.upsert_request tonic.record_reply _ other w connected
        may_send refl,
  )
