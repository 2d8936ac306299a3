-- ===== src/Examples/Processes.antt =====
-- A second daemon on a machine where one answers.
use agent2agent.Base.{◌≡◌, refl, true, text, nat_eq, text_eq, ok}
use agent2agent.Config.Paths.{socket, from_dir, Paths}
use agent2agent.Daemon.Process.{run_daemon}
use agent2agent.Daemon.Process.Taken.{GivesWay, run_daemon-GivesWay}
use agent2agent.Examples.Machine.{machine}
use agent2agent.Ipc.Exchange.{request, exchange}
use agent2agent.System.{System, Trace, daemon_is_running}
use agent2agent.System.Bind.{Fails}
use agent2agent.System.Makes.{Makes}

abbrev busy : System
busy = record machine { exists = λ t path. true }

abbrev here : Paths
here = from_dir (text "/b")

busy-answers : (t : Trace) → (daemon_is_running busy (socket here) t).0 ≡ ok true
unfolding daemon_is_running request exchange text_eq
busy-answers t = refl

run_daemon-GivesWay_example : Makes GivesWay (run_daemon busy here) × Fails (run_daemon busy here)
run_daemon-GivesWay_example = run_daemon-GivesWay busy here busy-answers
