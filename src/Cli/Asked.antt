-- ===== src/Cli/Asked.antt =====
-- `deliver` of src/cli.rs: what each end means, and when a message is sent as confirmed.
use agent2agent.Base.{
  ◌≡◌, refl, ap, ◌∙◌, ◌≢◌, inl, inr, Bool, true, false, Option, none, some, List, [], ◌∷◌, arith,
  Text, nat_eq, text_eq, Bool-cases, Result, ok, err, ◌>>=◌, Error, >>=-eq-ok, Result-cases,
  unexpected_reply,
}
use agent2agent.Cli.{
  Exchange, Next, exits, fails, sends_confirmed, on_reply, on_data, on_approval, ask_terminal,
  answer_is_yes, deliver, exit_declined, exit_needs_approval, exit_peer_gone,
}
use agent2agent.Ipc.{
  Request, Response, ResponseData, answered, refused, into_data, sent, needs_approval, peer_gone,
}
use agent2agent.Render.{render_outgoing}
use agent2agent.Wire.{Kind}

-- The daemon's reply to a request, where there is one.
abbrev pub Replied : Exchange → ResponseData → Type 0
Replied e data_ = e.reply ≡ ok (answered data_)

abbrev pub Declines : Option Text → Type 0
Declines none = ⊥
Declines (some answer) = answer_is_yes answer ≡ false

abbrev pub Agrees : Option Text → Type 0
Agrees none = ⊥
Agrees (some answer) = answer_is_yes answer ≡ true

-- An answer that is none to a request to send.
abbrev pub IsForeign : ResponseData → Type 0
IsForeign (sent _ _) = ⊥
IsForeign (needs_approval _) = ⊥
IsForeign (peer_gone _) = ⊥
IsForeign _ = Unit {0}

-- Why a round goes on as it does.
pub data Explains (body : Text) (e : Exchange) : Next → Type 0 where
  was_sent :
      {peer id : Text} → Replied e (sent peer id) → Explains body e (exits 0 (render_outgoing body))
  was_declined :
      {peer : Text}
      → Replied e (needs_approval peer)
      → Declines e.answer
      → Explains body e (exits exit_declined [])
  nobody_asked :
      {peer : Text}
      → Replied e (needs_approval peer)
      → e.answer ≡ none
      → Explains body e (exits exit_needs_approval [])
  is_gone : {peer : Text} → Replied e (peer_gone peer) → Explains body e (exits exit_peer_gone [])
  no_reply : {problem : Error} → e.reply ≡ err problem → Explains body e (fails problem)
  was_refused : {problem : Error} → e.reply ≡ ok (refused problem) → Explains body e (fails problem)
  is_foreign :
      {data_ : ResponseData}
      → Replied e data_
      → IsForeign data_
      → Explains body e (fails unexpected_reply)
  was_granted :
      {peer : Text}
      → Replied e (needs_approval peer)
      → Agrees e.answer
      → Explains body e (sends_confirmed peer)

approval-Explains :
    (body : Text) (e : Exchange) (peer : Text)
    → Replied e (needs_approval peer)
    → (answer : Option Text) → e.answer ≡ answer
    → Explains body e (on_approval (ask_terminal answer) peer)
unfolding on_approval ask_terminal
approval-Explains body e peer h none a = nobody_asked h a
approval-Explains body e peer h (some t) a = elim (Bool-cases (answer_is_yes t)) [
  | inl y ↦ rw y (was_granted h (rw a y))
  | inr n ↦ rw n (was_declined h (rw a n))
]

data-Explains :
    (body : Text) (e : Exchange) (data_ : ResponseData)
    → Replied e data_
    → Explains body e (on_data body e.answer data_)
unfolding on_data
data-Explains body e (sent peer id) h = was_sent h
data-Explains body e (needs_approval peer) h = approval-Explains body e peer h e.answer refl
data-Explains body e (peer_gone peer) h = is_gone h
data-Explains body e (ResponseData.message m) h = is_foreign h tt
data-Explains body e ResponseData.no_message h = is_foreign h tt
data-Explains body e (ResponseData.invited code) h = is_foreign h tt
data-Explains body e (ResponseData.joined peer name) h = is_foreign h tt
data-Explains body e (ResponseData.mode_is m) h = is_foreign h tt
data-Explains body e (ResponseData.status_is info) h = is_foreign h tt
data-Explains body e ResponseData.done h = is_foreign h tt

into_answered : (r : Response) (d : ResponseData) → into_data r ≡ ok d → r ≡ answered d
unfolding into_data
into_answered (answered c) d h = cc
into_answered (refused x) d h = cc

fails-Explains :
    (body : Text) (e : Exchange) (problem : Error) (r : Result Response)
    → e.reply ≡ r
    → (r >>= into_data) ≡ err problem
    → Explains body e (fails problem)
unfolding into_data
fails-Explains body e problem (err x) is h =
    let same : x ≡ problem = cc in no_reply (is ∙ ap (λ x. err x) same)
fails-Explains body e problem (ok (answered d)) is h = cc
fails-Explains body e problem (ok (refused x)) is h =
    let same : x ≡ problem = cc in was_refused (is ∙ ap (λ x. ok (refused x)) same)

reply-Explains : (body : Text) (e : Exchange) → Explains body e (on_reply body e)
unfolding on_reply
reply-Explains body e = elim (Result-cases (e.reply >>= into_data)) [
  | inr bad ↦
      let n : on_reply body e ≡ fails bad.0 = ground arith in
      rw n (fails-Explains body e bad.0 e.reply refl bad.1)
  | inl good ↦
      let (r, is, into) = >>=-eq-ok e.reply into_data good.1 in
      let n : on_reply body e ≡ on_data body e.answer good.0 = ground arith in
      rw n (data-Explains body e good.0 (is ∙ ap (λ x. ok x) (into_answered r good.0 into)))
]

-- What a run of `deliver` has done: each request after the first is confirmed and follows a round in
-- which the daemon asked for approval and the operator agreed, and the end is the one that the last
-- reply explains.
pub data IsDelivery (kind : Kind) (body : Text)
    : List Exchange → Option Text → Bool → List Request → Option Next → Type 0 where
  waits :
      {to : Option Text} {confirmed : Bool}
      → IsDelivery kind body [] to confirmed (Request.send to body kind confirmed ∷ []) none
  ends :
      {e : Exchange} {later : List Exchange} {to : Option Text} {confirmed : Bool} {end_ : Next}
      → Explains body e end_
      → ((peer : Text) → end_ ≢ sends_confirmed peer)
      → IsDelivery kind body
          (e ∷ later)
          to
          confirmed
          (Request.send to body kind confirmed ∷ [])
          (some end_)
  goes_on :
      {e : Exchange} {later : List Exchange} {to : Option Text} {confirmed : Bool} {peer : Text}
      {requests : List Request} {end_ : Option Next}
      → Replied e (needs_approval peer)
      → Agrees e.answer
      → IsDelivery kind body later (some peer) true requests end_
      → IsDelivery kind body
          (e ∷ later)
          to
          confirmed
          (Request.send to body kind confirmed ∷ requests)
          end_

next-IsDelivery :
    (e : Exchange) (later : List Exchange) (to : Option Text) (kind : Kind) (body : Text)
    (confirmed : Bool) (next : Next)
    → on_reply body e ≡ next
    → Explains body e next
    → ((peer : Text)
        → let r = deliver later (some peer) kind body true in
          IsDelivery kind body later (some peer) true r.0 r.1)
    → let r = deliver (e ∷ later) to kind body confirmed in
      IsDelivery kind body (e ∷ later) to confirmed r.0 r.1
unfolding deliver
next-IsDelivery e later to kind body confirmed (exits code shown) is why rest =
    let d : deliver (e ∷ later) to kind body confirmed
        ≡ (Request.send to body kind confirmed ∷ [], some (exits code shown)) =
      ground arith in
    rw d (ends why (λ peer h. cc))
next-IsDelivery e later to kind body confirmed (fails problem) is why rest =
    let d : deliver (e ∷ later) to kind body confirmed
        ≡ (Request.send to body kind confirmed ∷ [], some (fails problem)) =
      ground arith in
    rw d (ends why (λ peer h. cc))
next-IsDelivery e later to kind body confirmed (sends_confirmed peer) is (was_granted h a) rest =
    let r = deliver later (some peer) kind body true in
    let d : deliver (e ∷ later) to kind body confirmed
        ≡ (Request.send to body kind confirmed ∷ r.0, r.1) =
      ground arith in
    rw d (goes_on h a (rest peer))

-- `deliver` sends nothing as confirmed that was not passed to it as confirmed, but after the daemon
-- asked and the operator said yes at the terminal, and for the peer that the daemon named. Its exit
-- code is 0, with the message shown, exactly where the last reply reports a delivery, 4 where the
-- operator declined, 5 where there was nobody to ask, and 6 exactly where the peer was gone; it fails
-- exactly where there was no reply, a refusal or an answer to another question.
pub deliver-IsDelivery :
    (exchanges : List Exchange) (to : Option Text) (kind : Kind) (body : Text) (confirmed : Bool)
    → let r = deliver exchanges to kind body confirmed in
      IsDelivery kind body exchanges to confirmed r.0 r.1
unfolding deliver
deliver-IsDelivery [] to kind body confirmed = waits
deliver-IsDelivery (e ∷ later) to kind body confirmed =
    next-IsDelivery e later to kind body confirmed (on_reply body e) refl (reply-Explains body e)
      (λ peer. deliver-IsDelivery later (some peer) kind body true)
