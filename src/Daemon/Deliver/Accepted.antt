-- ===== src/Daemon/Deliver/Accepted.antt =====
-- `deliver_once` of src/daemon.rs: what a success is worth.
use agent2agent.Config.Iroh.{Iroh}
use agent2agent.Base.{
  ℕ, ◌≡◌, refl, ap, ◌∙◌, true, Option, none, some, List, arith, nat_eq, text_eq, Result, ok, err,
  >>=-eq-ok,
}
use agent2agent.Daemon.Deliver.{
  Attempt, Codecs, Pending, stalled, finished, after, deliver_once, read_ack, judge,
}
use agent2agent.Wire.{WireMsg, Ack}
use agent2agent.Wire.Json.{write_json, read_json}
use agent2agent.Wire.Frame.Stream.{Reader}

-- The peer has taken the message on the connection: a stream opened there, it could be written, and
-- the bytes that came back are an acknowledgement that says so.
pub record IsAcknowledged {I : Iroh} (C : Codecs) (net : Attempt I) (connection : ℕ)
    (message : WireMsg) : Type 0 where
  pub opened : net.open_bi connection ≡ finished (ok tt)
  pub frame : List ℕ
  pub sent : write_json C.wire_msg message ≡ ok frame
  pub written : net.written ≡ finished (ok tt)
  pub reader : Reader
  pub reply : net.reply ≡ finished (ok reader)
  pub ack : Ack
  pub rest : Reader
  pub read : read_json C.ack reader ≡ ok (some ack, rest)
  pub accepted : ack.accepted ≡ true

after-eq-ok {ℓ κ} :
    {A : Type ℓ} {B : Type κ} (m : Pending A) (k : A → Pending B) {b : B}
    → after m k ≡ finished (ok b)
    → (a : A) × (m ≡ finished (ok a)) × (k a ≡ finished (ok b))
after-eq-ok stalled k h = cc
after-eq-ok (finished (err e)) k h = cc
after-eq-ok (finished (ok a)) k h = (a, refl, h)

finished-injective {ℓ} :
    {A : Type ℓ} {r q : Result A} → Pending.finished r ≡ Pending.finished q → r ≡ q
finished-injective h = cc

judge-ok : (o : Option Ack) → judge o ≡ ok tt → (a : Ack) × (o ≡ some a) × (a.accepted ≡ true)
unfolding judge
judge-ok none h = cc
judge-ok (some a) h = (a, refl, ground arith)

pub deliver_once-IsAcknowledged :
    (I : Iroh) (C : Codecs) (net : Attempt I) (connection : ℕ) (message : WireMsg)
    → deliver_once I C net connection message ≡ finished (ok tt)
    → IsAcknowledged C net connection message
unfolding deliver_once read_ack
deliver_once-IsAcknowledged I C net connection message h =
    let (_, opened, h1) = after-eq-ok (net.open_bi connection) _ h in
    let (frame, made, h2) = after-eq-ok (finished (write_json C.wire_msg message)) _ h1 in
    let (_, written, h3) = after-eq-ok net.written _ h2 in
    let (_, ended, h4) = after-eq-ok (finished net.finish) _ h3 in
    let (reader, reply, h5) = after-eq-ok net.reply _ h4 in
    let (got, read, h6) = >>=-eq-ok (read_json C.ack reader) _ (finished-injective h5) in
    let (ack, is, yes_) = judge-ok got.0 h6 in
    record {
      opened = opened;
      frame = frame;
      sent = finished-injective made;
      written = written;
      reader = reader;
      reply = reply;
      ack = ack;
      rest = got.1;
      read = read ∙ ap (λ o. ok (o, got.1)) is;
      accepted = yes_;
    }
