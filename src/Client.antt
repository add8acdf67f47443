-- ===== src/Client.antt =====
-- src/client.rs: the update client. The server and the network are a world `W`, which `call`
-- changes: one connection and one Upsert. The crate `tokio_retry` is a parameter.
pub mod Retrying
pub mod Updates
pub mod Served
pub mod Fixtures
mod Tests
use mathlib.Core.Option.{get_or}
use swandns.Prelude.{
  ℕ, zero, suc, ◌+◌, ltb, String, ◌≡◌, Bool, Option, none, some, List, [], ◌∷◌, map, if◌then◌else◌,
  Result, ok, err, map_err, Outcome, returned, panicked,
}
use swandns.Messages.{UpsertRecordRequest, RecordReply}
use swandns.Net.{IpAddr, is_ipv6, AddressText}
use swandns.Util.{Error, Host, get_iface_addr}
use swandns.Config.{ClientConfig, ClientRecordConfig}
use swandns.RpcServer.{Status}

pub data ClientError : Type 0 where
  util : Error → ClientError
  -- no connection to the server
  transport : ℕ → ClientError
  status : Status → ClientError
  records_not_updated : ℕ → ClientError

-- `Option::or`
abbrev pub or_option {ℓ} : {A : Type ℓ} → Option A → Option A → Option A
or_option none o = o
or_option (some x) o = some x

abbrev pub take {ℓ} : {A : Type ℓ} → ℕ → (ℕ → A) → List A
take zero f = []
take (suc n) f = f 0 ∷ take n (λ i. f (suc i))

-- What an action on the world does: a result, and the world that it leaves.
abbrev pub Action : Type 0 → Type 0 → Type 0
Action W A = W → Result ClientError A × W

-- The crate `tokio_retry`: a backoff is an endless sequence of delays in milliseconds, `jitter`
-- draws one below the given one, and `spawn` repeats an action.
pub record RetryLibrary : Type 1 where
  pub fibonacci : ℕ → ℕ → ℕ
  pub jitter : ℕ → ℕ
  pub spawn : (W A : Type 0) → List ℕ → Action W A → Action W A

-- `spawn` makes an attempt, and after one that fails waits and makes the next, as long as the
-- sequence has a delay; what it waits does not change the world.
pub record IsRetry (retry : RetryLibrary) : Type 1 where
  pub last : (W A : Type 0) (act : Action W A) (w : W) → retry.spawn W A [] act w ≡ act w
  pub succeeds :
      (W A : Type 0) (d : ℕ) (ds : List ℕ) (act : Action W A) (w w' : W) (a : A)
      → act w ≡ (ok a, w')
      → retry.spawn W A (d ∷ ds) act w ≡ (ok a, w')
  pub fails :
      (W A : Type 0) (d : ℕ) (ds : List ℕ) (act : Action W A) (w w' : W) (e : ClientError)
      → act w ≡ (err e, w')
      → retry.spawn W A (d ∷ ds) act w ≡ retry.spawn W A ds act w'

-- The connection to a server and a call on it.
pub record Network (W : Type 0) : Type 1 where
  pub Channel : Type 0
  pub connect : String → Action W Channel
  pub upsert : Channel → UpsertRecordRequest → Action W RecordReply

module _ {W : Type 0} where
  -- the operator `?`, with the world passed along
  abbrev pub and_do :
      {A B : Type 0} → Result ClientError A × W → (A → Action W B) → Result ClientError B × W
  and_do (ok a, w) k = k a w
  and_do (err e, w) k = (err e, w)

unfoldable pub client_upsert :
    {W : Type 0} → Network W → String → UpsertRecordRequest → Action W RecordReply
client_upsert network server_url message w =
    and_do (network.connect server_url w) (λ client. network.upsert client message)

-- the message for an address
unfoldable pub update_message : AddressText → String → IpAddr → UpsertRecordRequest
update_message net name ip = record {
  name = name;
  type = if is_ipv6 ip then "AAAA" else "A";
  value = net.show_ip ip;
  ttl = 30;
}

-- `FibonacciBackoff::from_millis(1000).map(jitter).take(5)`
unfoldable pub retry_policy : RetryLibrary → List ℕ
retry_policy retry = take 5 (λ i. retry.jitter (retry.fibonacci 1000 i))

unfoldable pub server_url_of : ClientConfig → ClientRecordConfig → String
server_url_of cfg record_config =
    get_or (or_option record_config.server_url cfg.default_server_url) "http://127.0.0.1:8080"

-- The list of replies stays empty: nothing is ever pushed to it.
errors_to_result : Outcome ℕ → Outcome (Result ClientError (List RecordReply))
errors_to_result panicked = panicked
errors_to_result (returned errors) =
    returned (if ltb 0 errors then err (records_not_updated errors) else ok [])

module _ {W : Type 0} (net : AddressText) (retry : RetryLibrary) (network : Network W)
    (host : Host) where
  send_update :
      ClientConfig
      → ClientRecordConfig
      → Outcome (Result Error IpAddr)
      → W
      → Outcome (Result ClientError RecordReply) × W
  unfolding client_upsert update_message retry_policy server_url_of
  send_update cfg record_config panicked w = (panicked, w)
  send_update cfg record_config (returned (err e)) w = (returned (err (util e)), w)
  send_update cfg record_config (returned (ok ip)) w =
      let (res, w') =
        retry.spawn W RecordReply (retry_policy retry)
          (client_upsert network (server_url_of cfg record_config)
            (update_message net record_config.name ip))
          w in
      (returned res, w')

  unfoldable pub update_record :
      ClientConfig → ClientRecordConfig → W → Outcome (Result ClientError RecordReply) × W
  unfolding send_update
  update_record cfg record_config = send_update cfg record_config (
      get_iface_addr host (or_option record_config.bind cfg.default_bind)
        (or_option record_config.protocol cfg.default_protocol))

  -- one round of the loop, given the rest of it
  after_update :
      (ℕ → W → Outcome ℕ × W) → ℕ → Outcome (Result ClientError RecordReply) × W → Outcome ℕ × W
  after_update rest errors (panicked, w) = (panicked, w)
  after_update rest errors (returned (ok _), w) = rest errors w
  after_update rest errors (returned (err _), w) = rest (errors + 1) w

  -- the loop of `update_records`, which counts errors
  unfoldable pub update_all : ClientConfig → List ClientRecordConfig → ℕ → W → Outcome ℕ × W
  unfolding after_update
  update_all cfg [] errors w = (returned errors, w)
  update_all cfg (r ∷ rs) errors w = after_update (update_all cfg rs) errors (update_record cfg r w)

  -- without records there is nothing to do
  update_listed :
      ClientConfig
      → List ClientRecordConfig
      → W
      → Outcome (Result ClientError (List RecordReply)) × W
  unfolding update_all errors_to_result
  update_listed cfg [] w = (returned (ok []), w)
  update_listed cfg (r ∷ rs) w =
      let (errors, w') = update_all cfg (r ∷ rs) 0 w in (errors_to_result errors, w')

  unfoldable pub update_records :
      ClientConfig → W → Outcome (Result ClientError (List RecordReply)) × W
  unfolding update_listed
  update_records cfg w = update_listed cfg cfg.records w
