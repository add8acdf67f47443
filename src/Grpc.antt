-- ===== src/Grpc.antt =====
-- The generated stubs of src/proto/swandns.rs: the traits of the two services, and the servers that
-- dispatch a request on its path; the clients are in Clients, PingClient and RecordsClient. tonic,
-- prost and HTTP are parameters. A handler acts on the server's world `W`.
pub mod Clients
pub mod PingClient
pub mod RecordsClient
pub mod Options
pub mod PingOptions
pub mod RecordsOptions
pub mod Configured
pub mod Laws
pub mod Calls
pub mod Paths
pub mod Run
pub mod Fixtures
mod Tests
use Prim.Native.String.{◌++◌}
use swandns.Prelude.{
  ℕ, String, ◌≡◌, Option, none, some, List, [], ◌∷◌, ◌==◌, if◌then◌else◌, Result, ok, err, Outcome,
  returned,
}
use swandns.Messages.{
  PingRequest, PingReply, UpsertRecordRequest, RecordReply, FindUniqueRecordRequest,
  RecordsQueryRequest, EmptyReply,
}
use swandns.RpcServer.{unknown, unimplemented, Status, Reply}

pub record HttpRequest (Bytes : Type 0) : Type 0 where
  pub path : String
  pub body : Bytes

pub record HttpResponse (Bytes : Type 0) : Type 0 where
  pub status : ℕ
  pub headers : List (String × String)
  pub body : Bytes

-- `ProstCodec` at one type of message
pub record Codec (Bytes A : Type 0) : Type 0 where
  pub encode : A → Bytes
  pub decode : Bytes → Option A

-- the fields of a server beside the service itself; `Encodings` are enabled encodings
pub record Settings (Encodings : Type 0) : Type 0 where
  pub accept_compression_encodings : Encodings
  pub send_compression_encodings : Encodings
  pub max_decoding_message_size : Option ℕ
  pub max_encoding_message_size : Option ℕ

abbrev pub Handler : Type 0 → Type 0 → Type 0 → Type 0
Handler W A B = A → W → Reply B × W

abbrev pub Service : Type 0 → Type 0 → Type 0
Service Bytes W = HttpRequest Bytes → W → Outcome (HttpResponse Bytes) × W

-- tonic's side of a server, and how a client reads a response
pub record Tonic : Type 1 where
  pub Bytes : Type 0
  pub empty_body : Bytes
  -- `CompressionEncoding`, and `EnabledCompressionEncodings` with its `default` and `enable`
  pub Encoding : Type 0
  pub Encodings : Type 0
  pub no_encodings : Encodings
  pub enable : Encoding → Encodings → Encodings
  -- the settings of a server let through a request, or a reply, of these bytes
  pub MayDecode : Settings Encodings → Bytes → Type 0
  pub MayEncode : Settings Encodings → Bytes → Type 0
  pub unary :
      (W A B : Type 0)
      → Settings Encodings
      → Codec Bytes A
      → Codec Bytes B
      → Handler W A B
      → Service Bytes W
  -- `S` is a stream of `B`s
  pub server_streaming :
      (W A B S : Type 0)
      → Settings Encodings
      → Codec Bytes A
      → Codec Bytes B
      → Handler W A S
      → Service Bytes W
  -- the message that the response of a unary call carries
  pub message : HttpResponse Bytes → Option Bytes
  pub read : (B : Type 0) → Codec Bytes B → HttpResponse Bytes → Result Status B
  -- `Streaming`, the stream of a response as a client reads it; it delivers a server's stream
  pub Streaming : Type 0 → Type 0
  pub read_stream : (B : Type 0) → Codec Bytes B → HttpResponse Bytes → Result Status (Streaming B)
  pub Delivers : (S B : Type 0) → S → Streaming B → Type 0
  -- `InterceptedService`: an interceptor in front of a service
  pub Interceptor : Type 0
  pub intercepted : (W : Type 0) → Service Bytes W → Interceptor → Service Bytes W
  -- the codecs of the messages
  pub ping_request : Codec Bytes PingRequest
  pub ping_reply : Codec Bytes PingReply
  pub upsert_request : Codec Bytes UpsertRecordRequest
  pub find_unique_request : Codec Bytes FindUniqueRecordRequest
  pub record_reply : Codec Bytes RecordReply
  pub records_query_request : Codec Bytes RecordsQueryRequest
  pub empty_reply : Codec Bytes EmptyReply

-- the trait `Ping`
pub record Ping (W : Type 0) : Type 0 where
  pub ping : Handler W PingRequest PingReply

-- the trait `Records`
pub record Records (W : Type 0) : Type 1 where
  pub ListStream : Type 0
  pub find_unique : Handler W FindUniqueRecordRequest RecordReply
  pub upsert : Handler W UpsertRecordRequest RecordReply
  pub list : Handler W RecordsQueryRequest ListStream
  pub delete : Handler W FindUniqueRecordRequest EmptyReply

pub record PingServer (W Encodings : Type 0) : Type 0 where
  pub inner : Ping W
  pub settings : Settings Encodings

pub record RecordsServer (W Encodings : Type 0) : Type 1 where
  pub inner : Records W
  pub settings : Settings Encodings

-- the settings that `from_arc` makes
abbrev pub no_settings : (tonic : Tonic) → Settings tonic.Encodings
no_settings tonic = record {
  accept_compression_encodings = tonic.no_encodings;
  send_compression_encodings = tonic.no_encodings;
  max_decoding_message_size = none;
  max_encoding_message_size = none;
}

unfoldable pub new_ping_server :
    (tonic : Tonic) {W : Type 0} → Ping W → PingServer W tonic.Encodings
new_ping_server tonic inner = record { inner = inner; settings = no_settings tonic }

unfoldable pub new_records_server :
    (tonic : Tonic) {W : Type 0} → Records W → RecordsServer W tonic.Encodings
new_records_server tonic inner = record { inner = inner; settings = no_settings tonic }

-- the answer to any other path
abbrev pub unimplemented_response : (tonic : Tonic) → HttpResponse tonic.Bytes
unimplemented_response tonic = record {
  status = 200;
  headers = ("grpc-status", "12") ∷ ("content-type", "application/grpc") ∷ [];
  body = tonic.empty_body;
}

module _ (tonic : Tonic) {W : Type 0} where
  open tonic use {Bytes, Encodings}

  -- the arms of the servers' `match` on the path
  abbrev pub ping_svc : PingServer W Encodings → Service Bytes W
  ping_svc self =
      tonic.unary W PingRequest PingReply self.settings tonic.ping_request tonic.ping_reply
        self.inner.ping

  abbrev pub find_unique_svc : RecordsServer W Encodings → Service Bytes W
  find_unique_svc self =
      tonic.unary W FindUniqueRecordRequest RecordReply self.settings tonic.find_unique_request
        tonic.record_reply self.inner.find_unique

  abbrev pub upsert_svc : RecordsServer W Encodings → Service Bytes W
  upsert_svc self =
      tonic.unary W UpsertRecordRequest RecordReply self.settings tonic.upsert_request
        tonic.record_reply self.inner.upsert

  abbrev pub list_svc : RecordsServer W Encodings → Service Bytes W
  list_svc self =
      tonic.server_streaming W RecordsQueryRequest RecordReply self.inner.ListStream self.settings
        tonic.records_query_request tonic.record_reply self.inner.list

  abbrev pub delete_svc : RecordsServer W Encodings → Service Bytes W
  delete_svc self =
      tonic.unary W FindUniqueRecordRequest EmptyReply self.settings tonic.find_unique_request
        tonic.empty_reply self.inner.delete

  unfoldable pub ping_call : PingServer W Encodings → Service Bytes W
  ping_call self req w =
      if req.path == "/swandns.Ping/Ping"
      then ping_svc self req w
      else (returned (unimplemented_response tonic), w)

  unfoldable pub records_call : RecordsServer W Encodings → Service Bytes W
  records_call self req w =
      if req.path == "/swandns.Records/FindUnique"
      then find_unique_svc self req w
      else if req.path == "/swandns.Records/Upsert"
      then upsert_svc self req w
      else if req.path == "/swandns.Records/List"
      then list_svc self req w
      else if req.path == "/swandns.Records/Delete"
      then delete_svc self req w
      else (returned (unimplemented_response tonic), w)
