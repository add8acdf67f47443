-- ===== src/Bin.antt =====
-- The two programs. `swandns-update` (src/bin/client.rs) repeats the update on a schedule; what
-- the clock, the cron library and the shutdown signal do in a round of its loop is a `Round`.
-- `swandns` (src/bin/server.rs) runs the two servers as tasks that a shutdown cancels.
pub mod Schedule
pub mod Tasks
pub mod Addresses
pub mod ServerMain
pub mod ClientMain
pub mod Fixtures
mod Tests
mod MainTests
use swandns.Prelude.{
  ℕ, zero, suc, ℤ, pos, negsuc, String, Bool, true, false, Option, none, some, List, [], ◌∷◌,
  if◌then◌else◌, Result, ok, err, Outcome, returned, panicked, and_then,
}
use swandns.Messages.{RecordReply}
use swandns.Net.{SocketAddr, AddressText}
use swandns.Util.{Error, Host, try, get_socket_addr}
use swandns.Dns.{Names}
use swandns.Config.{ServerConfig}
use swandns.Client.{ClientError}
use swandns.Authority.Split.{Library}
use swandns.DnsServer.{Builder, Sockets, run}

-- One round of the loop: whether a shutdown is requested at its start, what an update that the
-- shutdown cancels leaves, the nanoseconds from now to the next time of the schedule (none if the
-- schedule cannot be parsed), and whether the shutdown cancels the sleep.
pub record Round (W : Type 0) : Type 0 where
  pub is_shutdown_requested : Bool
  pub cancelled : Option W
  pub until_next : Option ℤ
  pub is_sleep_cancelled : Bool

-- How the loop stands after some rounds.
pub data LoopState : Type 0 where
  -- `Ok(())`; the error of `to_std` on a negative duration; a panic
  done out_of_range crashed : LoopState
  running : LoopState

module _ {W : Type 0} (update : W → Outcome (Result ClientError (List RecordReply)) × W) where
  -- the end of a round, before the rest of the loop
  wait : Option ℤ → Bool → (W → LoopState × W) → W → LoopState × W
  wait none is_sleep_cancelled rest w = (crashed, w)
  wait (some (negsuc n)) is_sleep_cancelled rest w = (out_of_range, w)
  wait (some (pos zero)) is_sleep_cancelled rest w = rest w
  wait (some (pos (suc n))) is_sleep_cancelled rest w =
      if is_sleep_cancelled then (done, w) else rest w

  after_update :
      Round W
      → (W → LoopState × W)
      → Outcome (Result ClientError (List RecordReply)) × W
      → LoopState × W
  unfolding wait
  after_update round rest (panicked, w) = (crashed, w)
  -- the result is only logged
  after_update round rest (returned _, w) = wait round.until_next round.is_sleep_cancelled rest w

  update_or_cancel : Round W → (W → LoopState × W) → Option W → W → LoopState × W
  unfolding after_update
  update_or_cancel round rest (some w') w = wait round.until_next round.is_sleep_cancelled rest w'
  update_or_cancel round rest none w = after_update round rest (update w)

  unfoldable pub update_in_loop : List (Round W) → W → LoopState × W
  unfolding update_or_cancel
  update_in_loop [] w = (running, w)
  update_in_loop (round ∷ rounds) w =
      if round.is_shutdown_requested
      then (done, w)
      else update_or_cancel round (update_in_loop rounds) round.cancelled w

-- `cancel_on_shutdown`: none when the shutdown comes first
abbrev pub cancel_on_shutdown {ℓ} : {A : Type ℓ} → Bool → Outcome A → Outcome (Option A)
cancel_on_shutdown true r = returned none
cancel_on_shutdown false r = and_then r (λ a. returned (some a))

module _ (net : AddressText) (dns : Names) (lib : Library dns) (build : Builder dns lib) where
  -- The result of the server itself is dropped: `if let Err(_) = …` looks at the cancellation.
  unfoldable pub start_dns_server :
      Host → Sockets build.Catalog → ServerConfig → Bool → Outcome (Result Error (Unit {0}))
  start_dns_server host sockets cfg is_cancelled =
      and_then (cancel_on_shutdown is_cancelled (run net dns lib build host sockets cfg))
        (λ _. returned (ok tt))

-- `serve` is `RpcServer::run` at an address.
unfoldable pub start_rpc_server :
    AddressText
    → Host
    → (SocketAddr → Outcome (Result Error (Unit {0})))
    → ServerConfig
    → Bool
    → Outcome (Result Error (Unit {0}))
start_rpc_server net host serve cfg is_cancelled =
    and_then (get_socket_addr net host cfg.bind cfg.api_port (some "ipv4")) (λ addr.
      try addr (λ listen_addr.
        and_then (cancel_on_shutdown is_cancelled (serve listen_addr)) (λ _. returned (ok tt))))
