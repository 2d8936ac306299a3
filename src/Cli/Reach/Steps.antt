-- ===== src/Cli/Reach/Steps.antt =====
-- The calls that the commands of `dispatch` make.
use agent2agent.Wire.{Kind}
use agent2agent.Inbox.{Message}
use agent2agent.Config.Mode.{Mode}
use agent2agent.Config.Paths.{socket, Paths}
use agent2agent.Base.{
  ℕ, zero, suc, ◌≡◌, refl, Bool, true, false, Option, none, some, List, [], ◌∷◌, Text, nat_eq,
  text_eq, Result, ok, err,
}
use agent2agent.Cli.{Approval, granted, declined, no_terminal}
use agent2agent.Cli.Dispatch.{
  ask_for, mode_done, run_mode, after_answer, deliver_done, deliver_message, prints_all,
}
use agent2agent.Cli.Run.{
  ask_mode, show_message, recv_done, run_recv, status_done, run_status, run_send, told, run_bye,
}
use agent2agent.Cli.Session.{report, report_session, end_session}
use agent2agent.Ipc.{
  Request, ResponseData, sent, needs_approval, peer_gone, message, no_message, mode_is, status_is,
}
use agent2agent.System.{reads_stdin, asks, prints, eprints, requests, System, Call, M}
use agent2agent.System.Makes.{Makes, calls_make, bind-Makes, call-Makes}

module _ (S : System) (self : Paths) {P : Call → Type 0}
    (talks : (req : Request) (timeout : ℕ) → P (requests (socket self) req timeout))
    (says : (shown : Text) → P (eprints shown)) (shows : (shown : Text) → P (prints shown)) where
  pub ask_for-Makes : (req : Request) (timeout : ℕ) → Makes P (ask_for S self req timeout)
  unfolding ask_for
  ask_for-Makes req timeout = search calls_make depth 12

  report-Makes : (session : Option Text) → Makes P (report session)
  unfolding report
  report-Makes none = search calls_make
  report-Makes (some id) = search calls_make

  pub report_session-Makes : Makes P (report_session self)
  unfolding report_session
  report_session-Makes = report-Makes self.session

  pub prints_all-Makes : (lines : List Text) → Makes P (prints_all lines)
  unfolding prints_all
  prints_all-Makes [] = search calls_make
  prints_all-Makes (line ∷ lines) =
      bind-Makes _ _ (call-Makes _ (shows line)) (λ _. prints_all-Makes lines)

  mode_done-Makes : (data_ : ResponseData) → Makes P (mode_done S data_)
  unfolding mode_done
  mode_done-Makes (mode_is m) = search calls_make depth 12
  mode_done-Makes _ = search calls_make

  pub run_mode-Makes : (set : Option Mode) → Makes P (run_mode S self set)
  unfolding run_mode
  run_mode-Makes set = search (calls_make, ask_for-Makes, mode_done-Makes) depth 12

  status_done-Makes : (json : Bool) (data_ : ResponseData) → Makes P (status_done S json data_)
  unfolding status_done
  status_done-Makes true (status_is status) = search calls_make depth 12
  status_done-Makes false (status_is status) = search (calls_make, prints_all-Makes) depth 12
  status_done-Makes json _ = search calls_make

  pub run_status-Makes : (json : Bool) → Makes P (run_status S self json)
  unfolding run_status
  run_status-Makes json = search (calls_make, ask_for-Makes, status_done-Makes) depth 12

  ask_mode-Makes : Makes P (ask_mode S self)
  unfolding ask_mode
  ask_mode-Makes = search (calls_make, ask_for-Makes) depth 12

  show_message-Makes : (json : Bool) (m : Message) → Makes P (show_message S self json m)
  unfolding show_message
  show_message-Makes true m = search calls_make depth 12
  show_message-Makes false m = search (calls_make, ask_mode-Makes) depth 12

  recv_done-Makes : (json : Bool) (data_ : ResponseData) → Makes P (recv_done S self json data_)
  unfolding recv_done
  recv_done-Makes json (message m) = search (calls_make, show_message-Makes) depth 12
  recv_done-Makes json no_message = search calls_make depth 12
  recv_done-Makes json _ = search calls_make

  pub run_recv-Makes :
      (from : Option Text) (wait : ℕ) (json : Bool) → Makes P (run_recv S self from wait json)
  unfolding run_recv
  run_recv-Makes from wait json = search (calls_make, ask_for-Makes, recv_done-Makes) depth 12

  module _ (asked : (preview : Text) → P (asks preview)) where
    after_answer-Makes :
        (again : M ℕ) (preview : Text) (answer : Approval)
        → Makes P again
        → Makes P (after_answer S again preview answer)
    unfolding after_answer
    after_answer-Makes again preview granted h = h
    after_answer-Makes again preview declined h = search calls_make depth 12
    after_answer-Makes again preview no_terminal h = search calls_make depth 12

    deliver_done-Makes :
        (again : Option Text → M ℕ) (body : Text) (data_ : ResponseData)
        → ((peer : Option Text) → Makes P (again peer))
        → Makes P (deliver_done S again body data_)
    unfolding deliver_done
    deliver_done-Makes again body (sent peer id) h = search calls_make depth 12
    deliver_done-Makes again body (needs_approval peer) h =
        search (calls_make, after_answer-Makes) depth 12
    deliver_done-Makes again body (peer_gone peer) h = search calls_make depth 12
    deliver_done-Makes again body _ h = search calls_make

    pub deliver_message-Makes :
        (rounds : ℕ) (to : Option Text) (kind : Kind) (body : Text) (confirmed : Bool)
        → Makes P (deliver_message S rounds self to kind body confirmed)
    unfolding deliver_message
    deliver_message-Makes zero to kind body confirmed = search calls_make
    deliver_message-Makes (suc rounds) to kind body confirmed =
        bind-Makes _ _ (ask_for-Makes _ _) (λ data_.
          deliver_done-Makes _ body data_
            (λ peer. deliver_message-Makes rounds peer kind body true))

    told-Makes : (end_ : Result ℕ) → Makes P (told S end_)
    unfolding told
    told-Makes (ok code) = search calls_make
    told-Makes (err e) = search calls_make depth 12

    pub run_bye-Makes :
        (rounds : ℕ) (to : Option Text) (parts : List Text)
        → Makes P (end_session S self)
        → Makes P (run_bye S rounds self to parts)
    unfolding run_bye
    run_bye-Makes rounds to parts ended =
        search (calls_make, deliver_message-Makes, told-Makes) depth 12

    pub run_send-Makes :
        (rounds : ℕ) (to : Option Text) (confirm : Bool) (parts : List Text)
        → (parts ≡ [] → P reads_stdin)
        → Makes P (run_send S rounds self to confirm parts)
    unfolding run_send
    run_send-Makes rounds to confirm [] read =
        let allowed : P reads_stdin = read refl in
        search (calls_make, deliver_message-Makes) depth 12
    run_send-Makes rounds to confirm (part ∷ parts) read =
        search (calls_make, deliver_message-Makes) depth 12
