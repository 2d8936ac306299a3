-- ===== src/Examples/Messages.antt =====
-- Messages between two daemons, and requests of the command line.
use agent2agent.Daemon.Deliver.{read_ack, judge}
use agent2agent.Wire.Json.{write_json}
use agent2agent.Wire.Frame.{write_frame, read_frame, read_header, from_be_bytes}
use agent2agent.Wire.Frame.Stream.{read, read_exact}
use agent2agent.Base.{
  ◌≡◌, refl, true, false, none, List, [], ◌∷◌, arith, text, ok, err, bad_toml, stream_failed,
  no_acknowledgement,
}
use agent2agent.Base.Map
use agent2agent.Base.Map.{Map}
use agent2agent.Config.Mode.{manual}
use agent2agent.Daemon.Deliver.{
  stalled, finished, deliver_once, attempts, connection_to, forget_connection, remember_connection,
}
use agent2agent.Daemon.Deliver.Reconnects.{deliver-reconnects}
use agent2agent.Daemon.Handle.{Env, handle}
use agent2agent.Daemon.Handle.Approval.{handle_send-approval}
use agent2agent.Daemon.Handle.Grant.{run-manual}
use agent2agent.Daemon.Handle.Kept.{IsSound}
use agent2agent.Daemon.Handle.Runs.{Event, asked, streamed, run, run-IsSound}
use agent2agent.Daemon.Send.{handle_stream}
use agent2agent.Daemon.Send.Heard.{HeardOn, handle_stream-HeardOn}
use agent2agent.Examples.Peers.{alice-IsValid}
use agent2agent.Examples.World.{
  many, two_keys, plain, small_codecs, alice, daemon, answers, hangs_up, stamp, accepting,
  a_message,
}
use agent2agent.Ipc.{Request}
use agent2agent.Wire.{msg}
use agent2agent.Wire.Json.{read_json}

abbrev pub env : Env two_keys
env = record {
  now = 5;
  token = many 12;
  net = (answers, answers);
  stamp = stamp;
  turns = [];
  joining = record {
    saved = ok tt;
    pairing = record {
      deadline = 30;
      dials = [];
      open_bi = ok tt;
      written = ok tt;
      finish = ok tt;
      reply = stalled;
    };
    net = (answers, answers);
    stamp = stamp;
    saved_again = ok tt;
  };
  loaded = err bad_toml;
}

abbrev offline : Env two_keys
offline = record env { net = (hangs_up, hangs_up) }

handle_send-approval_example :
    handle two_keys plain small_codecs env
      (Request.send none (text "hi") msg false)
      (daemon none alice)
    ≡ handle two_keys plain small_codecs offline
        (Request.send none (text "hi") msg false)
        (daemon none alice)
handle_send-approval_example =
    (handle_send-approval two_keys plain small_codecs (daemon none alice) none (text "hi") env
      offline refl).0

handle_stream-HeardOn_example :
    HeardOn two_keys small_codecs
      (text "alice")
      (daemon none alice)
      (read_json small_codecs.wire_msg accepting)
      (handle_stream two_keys small_codecs (ok tt) (text "alice") accepting (daemon none alice))
handle_stream-HeardOn_example =
    handle_stream-HeardOn two_keys small_codecs (ok tt) (text "alice") accepting (daemon none alice)
      (record { positive = omega arith; fits = omega arith })

deliver-reconnects_example :
    attempts two_keys small_codecs
      (hangs_up ∷ answers ∷ [])
      no_acknowledgement
      (record { id = true; addrs = [] })
      (a_message (text "hi"))
      ((true, 3) ∷ [])
    ≡ (
      finished (ok tt),
      remember_connection two_keys true 7 (forget_connection two_keys true ((true, 3) ∷ [])),
    )
unfolding connection_to deliver_once write_json write_frame read_ack read_json read_frame
    read_header read from_be_bytes read_exact judge
deliver-reconnects_example =
    deliver-reconnects two_keys small_codecs hangs_up answers no_acknowledgement stream_failed
      (record { id = true; addrs = [] }) (a_message (text "hi")) ((true, 3) ∷ []) 3 7 refl refl refl
      refl refl

abbrev events : List (Event two_keys plain small_codecs)
events = streamed (ok tt) (text "alice") accepting ∷ asked env Request.reload ∷ []

run-IsSound_example : IsSound two_keys (run two_keys plain small_codecs events (daemon none alice))
run-IsSound_example =
    run-IsSound two_keys plain small_codecs events (daemon none alice) (tt, (λ p h. cc, tt))
      (record {
        inbox = record { positive = omega arith; fits = omega arith };
        peers = alice-IsValid;
      })

run-manual_example : (run two_keys plain small_codecs events (daemon none alice)).mode ≡ manual
run-manual_example =
    run-manual two_keys plain small_codecs events (daemon none alice) (refl, (refl, tt)) refl
