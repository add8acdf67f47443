-- ===== src/RpcServer.antt =====
-- The gRPC handlers (src/rpc_server/ping.rs, src/rpc_server/records.rs) over the repository. A
-- handler returns a response or a status, or panics, beside the connection that it leaves. `list`
-- answers with a stream: the task that fills it is in RpcServer/Stream.antt.
pub mod Handlers
pub mod Stream
pub mod Ending
pub mod Listed
mod Tests
use swandns.Prelude.{String, Result, ok, err, Outcome, returned, unwrap}
use swandns.Messages.{
  PingRequest, PingReply, UpsertRecordRequest, RecordReply, FindUniqueRecordRequest, EmptyReply,
}
use swandns.Sqlite.{SqlError, Engine}
use swandns.Repository

-- the codes of `tonic::Code` that the program and its generated stubs set
pub data Code : Type 0 where
  not_found unknown unimplemented : Code

pub record Status : Type 0 where
  pub code : Code
  pub message : String

abbrev pub Reply : Type 0 → Type 0
Reply A = Outcome (Result Status A)

unfoldable pub ping : PingRequest → Reply PingReply
ping request = returned (ok (record { message = "pong" }))

-- `match … { Ok(record) => …, Err(_) => … }`
unfoldable pub record_or_not_found : Result SqlError RecordReply → Reply RecordReply
record_or_not_found (ok r) = returned (ok r)
record_or_not_found (err _) =
    returned (err (record { code = not_found; message = "record not found" }))

module _ (db : Engine) where
  unfoldable pub find_unique : FindUniqueRecordRequest → db.Conn → Reply RecordReply × db.Conn
  unfolding record_or_not_found
  find_unique request c =
      let (r, c') = Repository.find_unique db request c in (record_or_not_found r, c')

  unfoldable pub upsert :
      db.Time → (db.Conn → db.Conn) → UpsertRecordRequest → db.Conn → Reply RecordReply × db.Conn
  upsert now between request c =
      let (r, c') = Repository.upsert db now between request c in
      (unwrap r (λ reply. returned (ok reply)), c')

  unfoldable pub delete : FindUniqueRecordRequest → db.Conn → Reply EmptyReply × db.Conn
  delete request c =
      let (r, c') = Repository.delete db request c in (unwrap r (λ _. returned (ok tt)), c')
