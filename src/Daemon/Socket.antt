-- ===== src/Daemon/Socket.antt =====
-- `bind_ipc` of src/daemon.rs: a daemon takes the socket of a crashed one, and never a live one's.
use agent2agent.Base.{
  binding_socket, removing_socket, ℕ, ◌≤◌, ◌<◌, ◌≡◌, Bool, true, false, Option, List, [], ◌∷◌,
  arith, ltb, if◌then◌else◌, Text, nat_eq, text_eq, Result, ok, err, ◌>>◌, bail_if, context, is_ok,
  daemon_already_running, socket_path_too_long,
}
use agent2agent.Base.Chars.{byte_len}
use agent2agent.Ipc.Exchange.{Json, Wire, is_daemon_running}

abbrev pub max_socket_path : ℕ
max_socket_path = 103

unfoldable pub check_socket_path_length : Text → Result (Unit {0})
check_socket_path_length socket =
    bail_if (ltb max_socket_path (byte_len socket)) (socket_path_too_long (byte_len socket))

-- What the system does: making the directory, the file at the path before, what answers on it, and
-- how removing, binding and restricting it end.
pub record Files : Type 0 where
  pub ensured : Result (Unit {0})
  pub exists : Bool
  pub answer : Option Wire
  pub removed : Result (Unit {0})
  pub bound : Result (Unit {0})
  pub restricted : Result (Unit {0})

-- What is done to the file.
pub data Effect : Type 0 where
  removes binds : Effect

abbrev pub bind_now : Files → Result (Unit {0}) × List Effect
bind_now files = (context binding_socket files.bound >> files.restricted, binds ∷ [])

-- The end, once it is known whether a daemon is running.
unfoldable pub take_over : Bool → Files → Result (Unit {0}) × List Effect
take_over running files =
    if running
    then (err daemon_already_running, [])
    else if files.exists
    then elim (context removing_socket files.removed) [
      | err e ↦ (err e, removes ∷ [])
      | ok _ ↦ ((bind_now files).0, removes ∷ (bind_now files).1)
    ]
    else bind_now files

unfoldable pub bind_ipc : Json → Files → Text → Result (Unit {0}) × List Effect
bind_ipc json files socket = elim (files.ensured >> check_socket_path_length socket) [
  | err e ↦ (err e, [])
  | ok _ ↦ take_over (is_daemon_running json files.exists files.answer) files
]

-- A daemon that answers keeps its socket: nothing is removed or bound, and the new daemon refuses to
-- start. A path over 103 bytes is refused before anything is touched. And a daemon that starts has
-- bound the socket, after it removed a file where there was one.
pub bind_ipc-takes :
    (json : Json) (files : Files) (socket : Text)
    → (is_daemon_running json files.exists files.answer ≡ true
        → ((bind_ipc json files socket).1 ≡ []) × (is_ok (bind_ipc json files socket).0 ≡ false))
      × (max_socket_path < byte_len socket
          → ((bind_ipc json files socket).1 ≡ []) × (is_ok (bind_ipc json files socket).0 ≡ false))
      × ((bind_ipc json files socket).0 ≡ ok tt
          → (byte_len socket ≤ max_socket_path)
            × ((bind_ipc json files socket).1
                ≡ (if files.exists then removes ∷ binds ∷ [] else binds ∷ [])))
unfolding bind_ipc take_over check_socket_path_length
bind_ipc-takes json files socket =
    (λ running. ground arith, λ long. ground arith, λ h. ground arith)
