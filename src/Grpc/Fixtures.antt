-- ===== src/Grpc/Fixtures.antt =====
-- A tonic whose bytes are the messages themselves, for the tests.
use swandns.Prelude.{
  String, ◌≡◌, refl, ap, ◌∙◌, Option, none, some, List, [], ◌∷◌, ◌==◌, if◌then◌else◌, Result, ok,
  err, Outcome, returned, panicked,
}
use swandns.Messages.{
  PingRequest, PingReply, UpsertRecordRequest, RecordReply, FindUniqueRecordRequest,
}
use swandns.RpcServer.{Code, not_found, unknown, unimplemented, Status, Reply}
use swandns.Grpc.{HttpResponse, Codec, Handler, Service, Tonic, unimplemented_response}
use swandns.Grpc.Paths.{path_of, service_name, service_name-path_of}
use swandns.Grpc.Run.{Router, IsRouter, service_named}
use swandns.Grpc.Clients.{Channel}
use swandns.Grpc.Laws.{IsCodec, carried, IsTonic, IsConnected, Streamed}

pub data Body : Type 0 where
  nothing : Body
  of_ping_request : PingRequest → Body
  of_ping_reply : PingReply → Body
  of_upsert_request : UpsertRecordRequest → Body
  of_find_unique_request : FindUniqueRecordRequest → Body
  of_record_reply : RecordReply → Body

abbrev pub get_ping_request : Body → Option PingRequest
get_ping_request (of_ping_request m) = some m
get_ping_request _ = none

abbrev pub get_ping_reply : Body → Option PingReply
get_ping_reply (of_ping_reply m) = some m
get_ping_reply _ = none

abbrev pub get_upsert_request : Body → Option UpsertRecordRequest
get_upsert_request (of_upsert_request m) = some m
get_upsert_request _ = none

abbrev pub get_find_unique_request : Body → Option FindUniqueRecordRequest
get_find_unique_request (of_find_unique_request m) = some m
get_find_unique_request _ = none

abbrev pub get_record_reply : Body → Option RecordReply
get_record_reply (of_record_reply m) = some m
get_record_reply _ = none

abbrev pub code_text : Code → String
code_text not_found = "5"
code_text unknown = "2"
code_text unimplemented = "12"

abbrev pub code_of : String → Code
code_of s = if s == "5" then not_found else if s == "12" then unimplemented else unknown

abbrev pub message_of : List (String × String) → String
message_of [] = ""
message_of ((_, message) ∷ _) = message

abbrev pub bad_message : Status
bad_message = record { code = unknown; message = "no message" }

abbrev pub or_bad : {B : Type 0} → Option B → Result Status B
or_bad (some b) = ok b
or_bad none = err bad_message

abbrev pub read_headers :
    {B : Type 0} → Codec Body B → List (String × String) → Body → Result Status B
read_headers cb [] body = err bad_message
read_headers cb ((_, code) ∷ rest) body =
    if code == "0"
    then or_bad (cb.decode body)
    else err (record { code = code_of code; message = message_of rest })

abbrev pub respond : {B : Type 0} → Codec Body B → Result Status B → HttpResponse Body
respond cb (ok b) = record { status = 200; headers = ("grpc-status", "0") ∷ []; body = cb.encode b }
respond cb (err s) = record {
  status = 200;
  headers = ("grpc-status", code_text s.code) ∷ ("grpc-message", s.message) ∷ [];
  body = nothing;
}

abbrev pub answer : {W B : Type 0} → Codec Body B → Reply B × W → Outcome (HttpResponse Body) × W
answer cb (panicked, w) = (panicked, w)
answer cb (returned r, w) = (returned (respond cb r), w)

abbrev pub serve :
    {W A B : Type 0} → Codec Body B → Handler W A B → Option A → W → Outcome (HttpResponse Body) × W
serve cb handler none w = (returned (respond cb (err bad_message)), w)
serve cb handler (some a) w = answer cb (handler a w)

-- of a stream only that it is opened
abbrev pub opening : {S : Type 0} → Result Status S → Result Status (Unit {0})
opening (ok _) = ok tt
opening (err s) = err s

abbrev pub read_opened : List (String × String) → Result Status (Unit {0})
read_opened headers =
    read_headers (record { encode = λ _. nothing; decode = λ _. some tt }) headers nothing

abbrev pub respond_stream : {S : Type 0} → Result Status S → HttpResponse Body
respond_stream (ok s) = record { status = 200; headers = ("grpc-status", "0") ∷ []; body = nothing }
respond_stream (err s) = record {
  status = 200;
  headers = ("grpc-status", code_text s.code) ∷ ("grpc-message", s.message) ∷ [];
  body = nothing;
}

abbrev pub opened_stream : {W S : Type 0} → Reply S × W → Outcome (HttpResponse Body) × W
opened_stream (panicked, w) = (panicked, w)
opened_stream (returned r, w) = (returned (respond_stream r), w)

abbrev pub open_stream :
    {W A S : Type 0} → Handler W A S → Option A → W → Outcome (HttpResponse Body) × W
open_stream handler none w = (returned (respond_stream {S = Unit} (err bad_message)), w)
open_stream handler (some a) w = opened_stream (handler a w)

abbrev pub message_in : List (String × String) → Body → Option Body
message_in [] body = none
message_in ((_, code) ∷ rest) body = if code == "0" then some body else none

abbrev pub tonic : Tonic
tonic = record {
  Bytes = Body;
  empty_body = nothing;
  Encoding = Unit;
  Encodings = Unit;
  no_encodings = tt;
  enable = λ e es. tt;
  MayDecode = λ settings body. Unit;
  MayEncode = λ settings body. Unit;
  message = λ response. message_in response.headers response.body;
  unary = λ W A B settings ca cb handler req w. serve cb handler (ca.decode req.body) w;
  server_streaming =
      λ W A B S settings ca cb handler req w. open_stream handler (ca.decode req.body) w;
  read = λ B cb response. read_headers cb response.headers response.body;
  Streaming = λ B. Unit;
  read_stream = λ B cb response. read_opened response.headers;
  Delivers = λ S B s stream. Unit;
  Interceptor = Unit;
  intercepted = λ W service interceptor. service;
  ping_request = record { encode = of_ping_request; decode = get_ping_request };
  ping_reply = record { encode = of_ping_reply; decode = get_ping_reply };
  upsert_request = record { encode = of_upsert_request; decode = get_upsert_request };
  find_unique_request = record {
    encode = of_find_unique_request;
    decode = get_find_unique_request;
  };
  record_reply = record { encode = of_record_reply; decode = get_record_reply };
  records_query_request = record { encode = λ _. nothing; decode = λ _. some tt };
  empty_reply = record { encode = λ _. nothing; decode = λ _. some tt };
}

read_error :
    {B : Type 0} (cb : Codec Body B) (c : Code) (m : String)
    → tonic.read B cb (respond cb (err (record { code = c; message = m })))
      ≡ err (record { code = c; message = m })
read_error cb not_found m = refl
read_error cb unknown m = refl
read_error cb unimplemented m = refl

read-respond :
    {B : Type 0} (cb : Codec Body B) (reply : Result Status B)
    → IsCodec cb
    → tonic.read B cb (respond cb reply) ≡ reply
read-respond cb (ok b) h = ap or_bad (h b)
read-respond cb (err s) h = read_error cb s.code s.message

message_error :
    {B : Type 0} (cb : Codec Body B) (c : Code) (m : String)
    → tonic.message (respond cb (err (record { code = c; message = m }))) ≡ none
message_error cb not_found m = refl
message_error cb unknown m = refl
message_error cb unimplemented m = refl

message-respond :
    {B : Type 0} (cb : Codec Body B) (reply : Result Status B)
    → tonic.message (respond cb reply) ≡ carried cb reply
message-respond cb (ok b) = refl
message-respond cb (err s) = message_error cb s.code s.message

read_opened_error :
    (c : Code) (m : String)
    → read_opened (respond_stream {S = Unit} (err (record { code = c; message = m }))).headers
      ≡ err (record { code = c; message = m })
read_opened_error not_found m = refl
read_opened_error unknown m = refl
read_opened_error unimplemented m = refl

respond_stream-Streamed :
    {S : Type 0} (B : Type 0) (reply : Result Status S)
    → Streamed tonic S B reply (read_opened (respond_stream reply).headers)
respond_stream-Streamed B (ok s) = (tt, refl, tt)
respond_stream-Streamed B (err s) = read_opened_error s.code s.message

pub tonic-IsTonic : IsTonic tonic
tonic-IsTonic = record {
  ping_request = λ m. refl;
  ping_reply = λ m. refl;
  upsert_request = λ m. refl;
  find_unique_request = λ m. refl;
  record_reply = λ m. refl;
  records_query_request = λ m. refl;
  empty_reply = λ m. refl;
  answered = λ W A B settings ca cb handler path request w reply w' ia ib may_read may_reply called.
      (
        respond cb reply,
        ap (λ a. serve cb handler a w) (ia request) ∙ ap (answer cb) called,
        message-respond cb reply,
        read-respond cb reply ib,
      );
  streamed = λ W A B S settings ca cb handler path request w reply w' ia ib small called. (
    respond_stream reply,
    ap (λ a. open_stream handler a w) (ia request) ∙ ap opened_stream called,
    respond_stream-Streamed B reply,
  );
  refused =
      λ B cb. (record { code = unimplemented; message = "application/grpc" }, refl, refl, refl);
}

abbrev pub receive :
    {W B : Type 0} → Codec Body B → Outcome (HttpResponse Body) × W → Result Status B × W
receive cb (panicked, w) = (err bad_message, w)
receive cb (returned response, w) = (read_headers cb response.headers response.body, w)

abbrev pub receive_stream :
    {W : Type 0} → Outcome (HttpResponse Body) × W → Result Status (Unit {0}) × W
receive_stream (panicked, w) = (err bad_message, w)
receive_stream (returned response, w) = (read_opened response.headers, w)

-- a connection to a service in the same process
abbrev pub connection : {W : Type 0} → Service Body W → Channel tonic W
connection service = record {
  ready = λ w. (ok tt, w);
  MayEncode = λ body. Unit;
  MayDecode = λ body. Unit;
  unary = λ A B ca cb request path w.
      receive cb (service (record { path = path; body = ca.encode request }) w);
  server_streaming = λ A B ca cb request path w.
      receive_stream (service (record { path = path; body = ca.encode request }) w);
}

pub connection-IsConnected :
    {W : Type 0} (service : Service Body W) → IsConnected tonic (connection service) service
connection-IsConnected service = record {
  ready = λ w. refl;
  exchanged = λ A B ca cb request path w w' response may_send may_read e. ap (receive cb) e;
  opened = λ A B ca cb request path w w' response may_send e. ap receive_stream e;
}

-- the service that a path names, or none
abbrev pub dispatch : {W : Type 0} → Option (Service Body W) → Service Body W
dispatch none req w = (returned (unimplemented_response tonic), w)
dispatch (some service) req w = service req w

abbrev pub found_by :
    {W : Type 0} → List (String × Service Body W) → Option String → Option (Service Body W)
found_by services none = none
found_by services (some name) = service_named name services

-- a router, and a server that ends at once
abbrev pub router : {W : Type 0} → Router tonic W
router = record {
  service = λ services req w. dispatch (found_by services (service_name req.path)) req w;
  serve = λ service addr. returned (ok tt);
}

pub router-IsRouter : {W : Type 0} → IsRouter tonic {W = W} router
router-IsRouter = record {
  routed = λ services name method body w service plain found.
      ap
        (λ n. dispatch (found_by services n) (record { path = path_of name method; body = body }) w)
        (service_name-path_of name method plain)
      ∙ ap (λ s. dispatch s (record { path = path_of name method; body = body }) w) found;
}
