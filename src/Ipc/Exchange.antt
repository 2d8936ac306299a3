-- ===== src/Ipc/Exchange.antt =====
-- `request`, `exchange` and `is_daemon_running` of src/ipc.rs: one request over the unix socket.
use agent2agent.Base.{
  parsing_reply, bad_json, serializing_request, cannot_reach_daemon, daemon_silent, Bool, true,
  false, ◌&&◌, Option, none, some, [], Text, ◌==◌, nat_eq, text_eq, Result, ok, err, ◌>>=◌, ◌>>◌,
  bail_if, context, ok_or, daemon_hung_up,
}
use agent2agent.Base.Chars.{trim_end_by, is_whitespace}
use agent2agent.Ipc.{Request, Response, answered, refused}

-- How the connection goes: opening it, writing the request, and the line that is read. A line of
-- nothing is a connection that was closed.
pub record Wire : Type 0 where
  pub connect : Result (Unit {0})
  pub written : Result (Unit {0})
  pub line : Result Text

-- `serde_json` at the requests and the responses
pub record Json : Type 0 where
  pub to_string : Request → Option Text
  pub from_str : Text → Option Response

unfoldable pub exchange : Json → Wire → Request → Result Response
exchange json wire req = do
  context cannot_reach_daemon wire.connect
  line ← context serializing_request (ok_or bad_json (json.to_string req))
  wire.written
  response ← wire.line
  bail_if (response == []) daemon_hung_up
  context parsing_reply (ok_or bad_json (json.from_str (trim_end_by is_whitespace response)))

-- Within the time that is given, or not.
unfoldable pub request : Json → Option Wire → Request → Result Response
request json none req = err daemon_silent
request json (some wire) req = exchange json wire req

abbrev pub is_answer : Result Response → Bool
is_answer (ok (answered _)) = true
is_answer (ok (refused _)) = false
is_answer (err _) = false

-- `exists` is whether there is a file at the socket's path.
unfoldable pub is_daemon_running : Json → Bool → Option Wire → Bool
is_daemon_running json exists wire = exists && is_answer (request json wire Request.status)
