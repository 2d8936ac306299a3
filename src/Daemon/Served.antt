-- ===== src/Daemon/Served.antt =====
-- Both ends of the unix socket: `exchange` of src/ipc.rs on the one side, and `serve_one` of
-- src/daemon.rs on the other.
use agent2agent.Base.{
  ◌≡◌, refl, ap, ◌∙◌, false, Option, none, some, [], ◌∷◌, ◌++◌, Text, ◌==◌, nat_eq, text_eq, ok,
}
use agent2agent.Config.Iroh.{Iroh}
use agent2agent.Daemon.{State}
use agent2agent.Daemon.Deliver.{Codecs}
use agent2agent.Daemon.Handle.{Env, handle, serve_one}
use agent2agent.Ipc.{Request, Response}
use agent2agent.Ipc.Exchange.{Json, Wire, request, exchange}
use agent2agent.Ipc.Line.{
  newline, read_line, line_of, IsLine, line_of-read_line, read_line-IsLine, trim_end-IsLine,
}
use agent2agent.Pairing.Base64.{Base64}

-- `serde_json` at the daemon's end.
pub record ServerJson : Type 0 where
  pub from_str : Text → Option Request
  pub to_string : Response → Option Text

-- What is printed at the one end is one line, and is read at the other.
pub record IsLawful (client : Json) (server : ServerJson) : Type 0 where
  pub requests_line : (req : Request) (s : Text) → client.to_string req ≡ some s → IsLine s
  pub requests_read :
      (req : Request) (s : Text) → client.to_string req ≡ some s → server.from_str s ≡ some req
  pub replies_line : (r : Response) (s : Text) → server.to_string r ≡ some s → IsLine s
  pub replies_read :
      (r : Response) (s : Text) → server.to_string r ≡ some s → client.from_str s ≡ some r

-- A response that is printed as a line, if it can be. A handler that is not done yet is not told from
-- a connection that was closed.
abbrev pub encoded : ServerJson → Option Response → Option Text
encoded server none = none
encoded server (some response) = elim (server.to_string response) [
  | none ↦ none
  | some s ↦ some (s ++ newline)
]

encoded-some :
    (server : ServerJson) (response : Response) (s : Text)
    → server.to_string response ≡ some s
    → encoded server (some response) ≡ some (s ++ newline)
encoded-some server response s p = rw (p, encoded) refl

-- The client reads a line; what was closed without one is read as nothing.
abbrev pub wire_of : Option Text → Wire
wire_of none = record { connect = ok tt; written = ok tt; line = ok [] }
wire_of (some s) = record { connect = ok tt; written = ok tt; line = ok (read_line s) }

filled_line : (s : Text) → IsLine s → ((s ++ newline) == []) ≡ false
unfolding text_eq
filled_line [] h = absurd (h.filled refl)
filled_line (c ∷ s) h = refl

-- `exchange`, where the line that comes back is that of a response.
exchange-told :
    (client : Json) (req : Request) (sent s : Text) (response : Response)
    → client.to_string req ≡ some sent
    → IsLine s
    → client.from_str s ≡ some response
    → exchange client (wire_of (some (s ++ newline))) req ≡ ok response
unfolding exchange
exchange-told client req sent s response e line told = rw e (
    rw (read_line-IsLine s line)
      (rw (filled_line s line) (rw (trim_end-IsLine s line) (rw told refl))))

module _ (I : Iroh) (B : Base64) (C : Codecs) (client : Json) (server : ServerJson) where
  -- `serve_one`, from the bytes that were sent to those that are answered
  unfoldable pub serve_text : Env I → Text → State I → Option Text × State I
  unfolding serve_one read_line
  serve_text env sent self =
      let done = serve_one I B C server.from_str env (line_of (read_line sent)) self in
      (encoded server done.0, done.1)

  -- One request at a socket where the daemon listens: what the client meets, and the daemon after.
  unfoldable pub over_socket : Env I → Option Text → State I → Wire × State I
  unfolding serve_text
  over_socket env none self = (wire_of none, self)
  over_socket env (some sent) self =
      let done = serve_text env (sent ++ newline) self in (wire_of done.0, done.1)

  module _ (env : Env I) (self : State I) (lawful : IsLawful client server) where
    serve_one-handle :
        (req : Request) (sent : Text)
        → client.to_string req ≡ some sent
        → serve_one I B C server.from_str env (some (sent ++ newline)) self
          ≡ handle I B C env req self
    unfolding serve_one
    serve_one-handle req sent e =
        rw (trim_end-IsLine sent (lawful.requests_line req sent e), serve_one)
          (rw (lawful.requests_read req sent e, serve_one) refl)

    serve_text-handle :
        (req : Request) (sent s : Text) (response : Response) (after : State I)
        → client.to_string req ≡ some sent
        → handle I B C env req self ≡ (some response, after)
        → server.to_string response ≡ some s
        → serve_text env (sent ++ newline) self ≡ (some (s ++ newline), after)
    unfolding serve_text
    serve_text-handle req sent s response after e h p =
        rw (line_of-read_line sent (lawful.requests_line req sent e)) (
          ap (λ (done : Option Response × State I). (encoded server done.0, done.1))
            (serve_one-handle req sent e ∙ h)
          ∙ (λ i. (encoded-some server response s p i, after)))

    -- Both ends of the socket together: what `request` returns to the client is what `handle`
    -- answered to that request, and the daemon is as `handle` left it, where the request and the
    -- response can be printed and each is read back from its line.
    pub request-handle :
        (req : Request) (sent s : Text) (response : Response) (after : State I)
        → client.to_string req ≡ some sent
        → handle I B C env req self ≡ (some response, after)
        → server.to_string response ≡ some s
        → (request client (some (over_socket env (client.to_string req) self).0) req ≡ ok response)
          × ((over_socket env (client.to_string req) self).1 ≡ after)
    unfolding request over_socket
    request-handle req sent s response after e h p =
        let done = serve_text-handle req sent s response after e h p in
        let there =
          ap (λ (o : Option Text). over_socket env o self) e
          ∙ ap (λ (d : Option Text × State I). (wire_of d.0, d.1)) done in
        (
          ap (λ (c : Wire × State I). exchange client c.0 req) there
              ∙ exchange-told client req sent s response e (lawful.replies_line response s p)
                  (lawful.replies_read response s p),
          ap (λ (c : Wire × State I). c.1) there,
        )
