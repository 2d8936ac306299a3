-- ===== src/Examples/Sockets.antt =====
-- A command and the daemon that it talks to: `mode auto` over the socket.
use agent2agent.Base.Chars.{to_ascii_lowercase, trim, is_whitespace, trim_end_by}
use agent2agent.Base.{
  ◌≡◌, refl, sym, ap, inl, inr, Option, none, some, [], ◌∷◌, arith, if◌then◌else◌, Text, text, ◌==◌,
  nat_eq, text_eq, Bool-cases, ==_iff, ok,
}
use agent2agent.Cli.Connected.{printed, IsConnected, run_mode-handle}
use agent2agent.Cli.Dispatch.{set_text, ipc_timeout, run_mode}
use agent2agent.Config.Mode.{Mode, as_str}
use agent2agent.Config.Paths.{Paths, socket, from_dir}
use agent2agent.Daemon.{State}
use agent2agent.Daemon.Served.{ServerJson, IsLawful, over_socket}
use agent2agent.Examples.Machine.{machine}
use agent2agent.Examples.Messages.{env}
use agent2agent.Config.Mode.{parse_mode}
use agent2agent.Daemon.Handle.{handle, set_or_report_mode}
use agent2agent.Daemon.Served.{request-handle}
use agent2agent.Ipc.Exchange.{request}
use agent2agent.Examples.World.{two_keys, plain, alice, small_codecs, daemon}
use agent2agent.Ipc.{Request, Response, answered, refused, mode_is}
use agent2agent.Ipc.Exchange.{Json}
use agent2agent.Ipc.Line.{IsLine}
use agent2agent.System.{System, Trace, requests}

-- Only the request for the mode `auto`, and the answer that it holds, are printed.
abbrev if_auto : Text → Option Text
if_auto m = if m == text "auto" then some (text "a") else none

abbrev print_request : Request → Option Text
print_request (Request.mode (some m)) = if_auto m
print_request _ = none

abbrev print_response : Response → Option Text
print_response (answered (mode_is m)) = if_auto m
print_response _ = none

abbrev client : Json
client = record {
  to_string = print_request;
  from_str = λ s. some (answered (mode_is (text "auto")));
}

abbrev server : ServerJson
server = record {
  from_str = λ s. some (Request.mode (some (text "auto")));
  to_string = print_response;
}

a-IsLine : (s : Text) → s ≡ text "a" → IsLine s
unfolding nat_eq text_eq trim_end_by is_whitespace
a-IsLine s e = rw e (record { one = (refl, tt); trimmed = refl; filled = λ h. cc })

if_auto-some : (m s : Text) → if_auto m ≡ some s → (m ≡ text "auto") × (s ≡ text "a")
if_auto-some m s h = elim (Bool-cases (m == text "auto")) [
  | inl e ↦ ((==_iff m (text "auto")).0 e, ground arith)
  | inr e ↦ absurd (ground arith)
]

asked_auto :
    (req : Request) (s : Text)
    → print_request req ≡ some s
    → (req ≡ Request.mode (some (text "auto"))) × (s ≡ text "a")
asked_auto (Request.mode (some m)) s h =
    let k = if_auto-some m s h in (ap (λ m. Request.mode (some m)) k.0, k.1)
asked_auto (Request.mode none) s h = cc
asked_auto (Request.send _ _ _ _) s h = cc
asked_auto (Request.recv _ _) s h = cc
asked_auto (Request.invite _ _ _) s h = cc
asked_auto (Request.join _ _ _) s h = cc
asked_auto Request.status s h = cc
asked_auto Request.shutdown s h = cc
asked_auto Request.reload s h = cc

told_auto :
    (r : Response) (s : Text)
    → print_response r ≡ some s
    → (r ≡ answered (mode_is (text "auto"))) × (s ≡ text "a")
told_auto (answered (mode_is m)) s h =
    let k = if_auto-some m s h in (ap (λ m. answered (mode_is m)) k.0, k.1)
told_auto (answered _) s h = cc
told_auto (refused _) s h = cc

auto-IsLawful : IsLawful client server
auto-IsLawful = record {
  requests_line = λ req s h. a-IsLine s (asked_auto req s h).1;
  requests_read = λ req s h. ap (λ r. some r) (sym (asked_auto req s h).0);
  replies_line = λ r s h. a-IsLine s (told_auto r s h).1;
  replies_read = λ r s h. ap (λ x. some x) (sym (told_auto r s h).0);
}

-- The daemon takes a step at each request, and only then.
abbrev state_at : Trace → State two_keys
state_at [] = daemon none alice
state_at (requests path req timeout ∷ t) =
    (over_socket two_keys plain small_codecs client server env (print_request req) (state_at t)).1
state_at (_ ∷ t) = state_at t

abbrev linked : System
linked = record machine {
  json = client;
  wire = λ t path req.
      some
        (over_socket two_keys plain small_codecs client server env (print_request req)
          (state_at t)).0;
}

abbrev here : Paths
here = from_dir (text "/b")

linked-IsConnected :
    IsConnected two_keys plain small_codecs linked server (socket here) state_at (λ t. env)
linked-IsConnected = record { wired = λ t req. refl; stepped = λ t req timeout. refl }

abbrev asked : Trace
asked = requests (socket here) (Request.mode (some (text "auto"))) ipc_timeout ∷ []

run_mode-handle_example :
    ((state_at asked).mode ≡ Mode.auto)
    × (run_mode linked here (some Mode.auto) [] ≡ (ok 0, printed (state_at asked).mode asked))
unfolding as_str set_text text_eq nat_eq
run_mode-handle_example =
    run_mode-handle two_keys plain small_codecs linked server here state_at (λ t. env) auto-IsLawful
      linked-IsConnected [] (some Mode.auto) (text "a") (text "a") refl refl

abbrev to_auto : Request
to_auto = Request.mode (some (text "auto"))

request-handle_example :
    (request client
        (some
          (over_socket two_keys plain small_codecs client server env
            (print_request to_auto)
            (daemon none alice)).0)
        to_auto
      ≡ ok (answered (mode_is (text "auto"))))
    × ((over_socket two_keys plain small_codecs client server env
          (print_request to_auto)
          (daemon none alice)).1
        ≡ record (daemon none alice) { mode = Mode.auto })
unfolding handle set_or_report_mode parse_mode as_str text_eq nat_eq trim to_ascii_lowercase
request-handle_example =
    request-handle two_keys plain small_codecs client server env (daemon none alice) auto-IsLawful
      to_auto (text "a") (text "a") (answered (mode_is (text "auto")))
      (record (daemon none alice) { mode = Mode.auto }) refl refl refl
