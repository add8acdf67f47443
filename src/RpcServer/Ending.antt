-- ===== src/RpcServer/Ending.antt =====
-- How many steps the stream of `list` (src/rpc_server/records.rs) can take.
use swandns.Prelude.{
  ℕ, suc, ◌+◌, ◌*◌, ◌≤◌, ◌<◌, ap, Bool, true, false, Result, ok, err, List, length, length-append,
  [], ◌∷◌, arith,
}
use swandns.Messages.{RecordReply}
use swandns.Sqlite.{SqlError}
use swandns.RpcServer.Stream.{
  Stream, start, Step, send, send_fails, finish, receive, hang_up, Reach, here, next, remaining,
  is_running, listed,
}

abbrev is_there : Bool → ℕ
is_there true = 1
is_there false = 0

-- an upper bound of the steps left
abbrev left : Stream → ℕ
left s = remaining s + is_there s.is_open

Step-left : {s t : Stream} → Step s t → left t < left s
Step-left {s} (send r rest go head alive room e) =
    rw e (omega (arith, ap length head, length-append s.queue (r ∷ [])))
Step-left {s} (send_fails r rest go head closed e) = rw e (omega (arith, ap is_running go))
Step-left {s} (finish go none_left e) = rw e (omega (arith, ap is_running go))
Step-left {s} (receive r rest alive head e) = rw e (omega (arith, ap length head))
Step-left {s} (hang_up alive e) = rw e (omega (arith, ap is_there alive))

abbrev pub steps : {s t : Stream} → Reach s t → ℕ
steps here = 0
steps (next r _) = suc (steps r)

steps-left : {s t : Stream} (r : Reach s t) → steps r + left t ≤ left s
steps-left here = omega arith
steps-left (next r step) = omega (arith, steps-left r, Step-left step)

start-left : (r : Result SqlError (List RecordReply)) → left (start r) ≤ 2 * length (listed r) + 2
unfolding start
start-left (ok records) = omega arith
start-left (err _) = omega arith

-- Whatever the sender, the client and the channel do, they take at most two steps for each record
-- of the listing, and two more: every run of the stream ends.
pub steps_bounded :
    (r : Result SqlError (List RecordReply)) {s : Stream} (run : Reach (start r) s)
    → steps run ≤ 2 * length (listed r) + 2
steps_bounded r run = omega (arith, steps-left run, start-left r)
