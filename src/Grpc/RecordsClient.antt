-- ===== src/Grpc/RecordsClient.antt =====
-- The client of the service `Records` (src/proto/swandns.rs).
use swandns.Prelude.{ℕ, String, Result, ok, err}
use swandns.Messages.{
  UpsertRecordRequest, RecordReply, FindUniqueRecordRequest, RecordsQueryRequest, EmptyReply,
}
use swandns.RpcServer.{Status}
use swandns.Grpc.{Tonic}
use swandns.Grpc.Clients.{Channel, ClientLibrary, when_ready}

pub record RecordsClient (tonic : Tonic) (W : Type 0) : Type 1 where
  pub inner : Channel tonic W

module _ (tonic : Tonic) {W : Type 0} where
  module _ (lib : ClientLibrary tonic W) where
    unfoldable pub new : lib.Transport → RecordsClient tonic W
    new inner = record { inner = lib.new inner }

    unfoldable pub with_origin : lib.Transport → lib.Uri → RecordsClient tonic W
    with_origin inner origin = record { inner = lib.with_origin inner origin }

    unfoldable pub with_interceptor : lib.Transport → tonic.Interceptor → RecordsClient tonic W
    unfolding new
    with_interceptor inner interceptor = new (lib.intercepted inner interceptor)

    -- after `connect().await`
    connected : Result String lib.Transport × W → Result String (RecordsClient tonic W) × W
    unfolding new
    connected (err e, w) = (err e, w)
    connected (ok conn, w) = (ok (new conn), w)

    at_endpoint : Result String lib.Endpoint → W → Result String (RecordsClient tonic W) × W
    unfolding connected
    at_endpoint (err e) w = (err e, w)
    at_endpoint (ok endpoint) w = connected (lib.connect endpoint w)

    unfoldable pub connect : String → W → Result String (RecordsClient tonic W) × W
    unfolding at_endpoint
    connect dst = at_endpoint (lib.endpoint dst)

    unfoldable pub send_compressed : tonic.Encoding → RecordsClient tonic W → RecordsClient tonic W
    send_compressed encoding self = record self { inner = lib.send_compressed encoding self.inner }

    unfoldable pub accept_compressed :
        tonic.Encoding → RecordsClient tonic W → RecordsClient tonic W
    accept_compressed encoding self = record self {
      inner = lib.accept_compressed encoding self.inner;
    }

    unfoldable pub max_decoding_message_size : ℕ → RecordsClient tonic W → RecordsClient tonic W
    max_decoding_message_size limit self = record self {
      inner = lib.max_decoding_message_size limit self.inner;
    }

    unfoldable pub max_encoding_message_size : ℕ → RecordsClient tonic W → RecordsClient tonic W
    max_encoding_message_size limit self = record self {
      inner = lib.max_encoding_message_size limit self.inner;
    }

  unfoldable pub send_find_unique :
      RecordsClient tonic W → FindUniqueRecordRequest → W → Result Status RecordReply × W
  send_find_unique self request w = when_ready (self.inner.ready w) (
      self.inner.unary FindUniqueRecordRequest RecordReply tonic.find_unique_request
        tonic.record_reply request "/swandns.Records/FindUnique")

  unfoldable pub send_upsert :
      RecordsClient tonic W → UpsertRecordRequest → W → Result Status RecordReply × W
  send_upsert self request w = when_ready (self.inner.ready w) (
      self.inner.unary UpsertRecordRequest RecordReply tonic.upsert_request tonic.record_reply
        request "/swandns.Records/Upsert")

  -- `RecordsQueryRequest` has no fields.
  unfoldable pub send_list :
      RecordsClient tonic W
      → RecordsQueryRequest
      → W
      → Result Status (tonic.Streaming RecordReply) × W
  send_list self request w = when_ready (self.inner.ready w) (
      self.inner.server_streaming RecordsQueryRequest RecordReply tonic.records_query_request
        tonic.record_reply request "/swandns.Records/List")

  unfoldable pub send_delete :
      RecordsClient tonic W → FindUniqueRecordRequest → W → Result Status EmptyReply × W
  send_delete self request w = when_ready (self.inner.ready w) (
      self.inner.unary FindUniqueRecordRequest EmptyReply tonic.find_unique_request
        tonic.empty_reply request "/swandns.Records/Delete")
