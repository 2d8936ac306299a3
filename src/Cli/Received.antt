-- ===== src/Cli/Received.antt =====
-- `recv` of src/cli.rs: how long it waits, and what its exit code says.
use agent2agent.System.{◌>>=◌}
use agent2agent.Base.{
  ℕ, ◌+◌, ◌*◌, ◌^◌, ◌≤◌, ◌<◌, ◌≡◌, refl, sym, ◌≢◌, Bool, true, false, Option, none, arith, leb,
  Text, nat_eq, text_eq, ok, bail_if, panics,
}
use agent2agent.Cli.{exit_no_message, exit_peer_gone}
use agent2agent.Cli.Dispatch.{success, ipc_grace, ipc_timeout, wait_ms, ask_for}
use agent2agent.Cli.Run.{ask_mode, show_message, recv_done, run_recv, exit_for}
use agent2agent.Config.Paths.{Paths, socket}
use agent2agent.Inbox.{Message}
use agent2agent.Ipc.{Request, ResponseData, message, no_message}
use agent2agent.System.{System, Trace, Call, lift, return, requests}
use agent2agent.System.Bind.{bind-eq-ok}
use agent2agent.System.Makes.{Makes, calls_make}
use agent2agent.Wire.{Kind, msg, hello, bye}

-- A request for a message asks the daemon to wait no longer than 64 bits of milliseconds say, and
-- for as long as was asked where these hold it; and it is given ten seconds more than that.
abbrev pub Outlasts : ℕ → Call → Type 0
Outlasts wait (requests path (Request.recv from ms) timeout) =
    (ms < 2 ^ 64) × (ms + ipc_grace ≤ timeout) × (wait * 1000 < 2 ^ 64 → ms ≡ wait * 1000)
Outlasts wait _ = Unit {0}

wait_ms_lem :
    (wait : ℕ)
    → (wait_ms wait < 2 ^ 64)
      × (wait_ms wait + ipc_grace ≤ wait * 1000 + ipc_grace)
      × (wait * 1000 < 2 ^ 64 → wait_ms wait ≡ wait * 1000)
unfolding wait_ms
wait_ms_lem wait = (omega arith, omega arith, λ h. omega arith)

module _ (S : System) (self : Paths) (wait : ℕ) where
  ask_for-Outlasts :
      (req : Request) (timeout : ℕ)
      → Outlasts wait (requests (socket self) req timeout)
      → Makes (Outlasts wait) (ask_for S self req timeout)
  unfolding ask_for
  ask_for-Outlasts req timeout h = search calls_make depth 12

  ask_mode-Outlasts : Makes (Outlasts wait) (ask_mode S self)
  unfolding ask_mode
  ask_mode-Outlasts =
      let asked = ask_for-Outlasts (Request.mode none) ipc_timeout tt in search calls_make depth 12

  show_message-Outlasts :
      (json : Bool) (m : Message) → Makes (Outlasts wait) (show_message S self json m)
  unfolding show_message
  show_message-Outlasts true m = search (calls_make, tt) depth 12
  show_message-Outlasts false m = search (calls_make, ask_mode-Outlasts, tt) depth 12

  recv_done-Outlasts :
      (json : Bool) (data_ : ResponseData) → Makes (Outlasts wait) (recv_done S self json data_)
  unfolding recv_done
  recv_done-Outlasts json (message m) = search (calls_make, show_message-Outlasts) depth 12
  recv_done-Outlasts json no_message = search (calls_make, tt) depth 12
  recv_done-Outlasts json _ = search calls_make

  -- Whatever the system answers, the request that `recv` makes for a message asks the daemon to
  -- wait for a number of milliseconds of 64 bits, which are the seconds that were given where they
  -- fit, and it gives the daemon ten seconds more than that before it gives up.
  pub run_recv-Outlasts :
      (from : Option Text) (json : Bool) → Makes (Outlasts wait) (run_recv S self from wait json)
  unfolding run_recv
  run_recv-Outlasts from json =
      let asked =
        ask_for-Outlasts (Request.recv from (wait_ms wait)) (wait * 1000 + ipc_grace)
          (wait_ms_lem wait) in
      search (calls_make, recv_done-Outlasts) depth 12

-- What an exit code says of the daemon's answer.
pub data Means : ResponseData → ℕ → Type 0 where
  said_bye : (m : Message) → m.kind ≡ bye → Means (message m) exit_peer_gone
  said_more : (m : Message) → m.kind ≢ bye → Means (message m) success
  had_none : Means no_message exit_no_message

kind-Means : (m : Message) (kind : Kind) → m.kind ≡ kind → Means (message m) (exit_for kind)
unfolding exit_for
kind-Means m msg is = said_more m (λ e. cc)
kind-Means m hello is = said_more m (λ e. cc)
kind-Means m bye is = said_bye m is

done-Means :
    (S : System) (self : Paths) (json : Bool) (data_ : ResponseData) (t u : Trace) (code : ℕ)
    → recv_done S self json data_ t ≡ (ok code, u)
    → Means data_ code
unfolding recv_done
done-Means S self json (message m) t u code h =
    let (_, _, k) =
      bind-eq-ok (show_message S self json m) (λ (_ : Unit {0}). return (exit_for m.kind)) t u code
        h in
    let e : exit_for m.kind ≡ code = cc in rw (sym e) (kind-Means m m.kind refl)
done-Means S self json no_message t u code h =
    let e : exit_no_message ≡ code = cc in rw (sym e) had_none
done-Means S self json _ t u code h = cc

-- The exit code of a `recv` that succeeds says what the daemon answered: 6 is a goodbye, 0 another
-- message, and 3 that there was none. There is no other, and an answer of another kind is an error.
pub run_recv-Means :
    (S : System) (self : Paths) (from : Option Text) (wait : ℕ) (json : Bool) (t u : Trace)
    (code : ℕ)
    → run_recv S self from wait json t ≡ (ok code, u)
    → (data_ : ResponseData) × ((ask_for S self
          (Request.recv from (wait_ms wait))
          (wait * 1000 + ipc_grace)
          t).0
        ≡ ok data_)
      × Means data_ code
unfolding run_recv
run_recv-Means S self from wait json t u code h =
    let req = Request.recv from (wait_ms wait) in
    let asked = ask_for S self req (wait * 1000 + ipc_grace) in
    let (_, _, k) =
      bind-eq-ok (lift (bail_if (leb (2 ^ 64) (wait + 10)) panics))
        (λ (_ : Unit {0}). (asked >>= recv_done S self json)) t u code h in
    let (data_, is, r) = bind-eq-ok asked (recv_done S self json) t u code k in
    (data_, is, done-Means S self json data_ (asked t).1 u code r)
