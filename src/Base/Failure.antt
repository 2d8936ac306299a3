-- ===== src/Base/Failure.antt =====
-- What a fallible function returns: `anyhow::Result`. An error is a constructor for each message
-- of the source, with the values that the message shows; `within` is a `.context(…)` around it.
use mathlib.Core.Path.{◌≡◌, refl}
use mathlib.Core.Bool.{Bool, true, false}
use mathlib.Core.Option.{Option, none, some}
use mathlib.Core.List.{List}
use mathlib.Core.Logic.{◌⊎◌, inl, inr}
use Prim.Native.Nat.{ℕ}

pub data Context : Type 0 where
  invalid_peer_name invalid_endpoint_id secret_key_not_hex : Context
  reading_frame_length reading_frame_payload serializing deserializing : Context
  cannot_reach_inviter cannot_reach_peer : Context
  cannot_reach_daemon serializing_request parsing_reply removing_socket binding_socket
        restricting_socket binding_endpoint :
      Context
  delivering_to : List ℕ → Context
  creating reading parsing writing setting_mode removing : List ℕ → Context
  serializing_state locating_executable reading_current_dir reading_stdin : Context
  starting_daemon : List ℕ → Context

pub data Error : Type 0 where
  within : Context → Error → Error
  -- util.rs
  odd_hex_length : ℕ → Error
  invalid_hex_digit : ℕ → Error
  -- config.rs
  empty_name name_too_long : Error
  bad_name_char : List ℕ → Error
  bad_session_length bad_session_digits : List ℕ → Error
  unknown_mode : List ℕ → Error
  empty_endpoint_id : Error
  not_an_endpoint_id : List ℕ → Error
  id_already_registered : List ℕ → Error
  unknown_peer : List ℕ → Error
  no_peers several_peers : Error
  bad_address : List ℕ → Error
  secret_key_length : ℕ → Error
  no_state_directory : Error
  bad_toml : Error
  io_failed : Error
  -- pairing.rs
  part_count : ℕ → Error
  not_an_invite_code : Error
  malformed_version : List ℕ → Error
  id_not_base64url : Error
  id_length : ℕ → Error
  id_rejected : Error
  malformed_token : Error
  token_length : ℕ → Error
  -- wire.rs
  frame_too_large : ℕ → Error
  ended_in_header : ℕ → Error
  announced_too_large : ℕ → Error
  unexpected_eof : Error
  bad_json : Error
  -- daemon.rs
  stream_failed : Error
  unsupported_version : ℕ → Error
  joiner_sent_nothing no_invite_open invite_expired token_mismatch : Error
  peer_is_newer : List ℕ → Error
  own_invite_code : Error
  inviter_silent : Error
  invite_refused : Error → Error
  peer_disconnected : List ℕ → Error
  delivery_timed_out : List ℕ → Error
  no_acknowledgement : Error
  message_rejected : Option (List ℕ) → Error
  malformed_request : Error
  daemon_already_running : Error
  socket_path_too_long : ℕ → Error
  -- cli.rs and ipc.rs
  daemon_unreachable daemon_silent daemon_hung_up daemon_did_not_start : Error
  unexpected_reply : Error
  no_session : Error
  no_name_set : Error
  empty_message : Error
  -- no errors of the source: a panic, and the rounds that a loop is given are over
  panics rounds_over : Error

pub data Result {ℓ} (Value : Type ℓ) : Type ℓ where
  err : Error → Result Value
  ok : Value → Result Value

infixl 5 ◌>>=◌ ◌>>◌
-- The `?` operator: an error ends the steps, and a value goes on to the next of them.
abbrev pub ◌>>=◌ {ι ℓ} : {X : Type ι} {Y : Type ℓ} → Result X → (next : X → Result Y) → Result Y
err problem >>= next = err problem
ok value >>= next = next value

abbrev pub ◌>>◌ {ι ℓ} : {X : Type ι} {Y : Type ℓ} → Result X → Result Y → Result Y
first >> second = first >>= λ _. second

-- `unwrap_or(0)`
abbrev pub or_zero : Option ℕ → ℕ
or_zero none = 0
or_zero (some n) = n

-- `if b { bail!(e) }`
abbrev pub bail_if : Bool → Error → Result (Unit {0})
bail_if true e = err e
bail_if false e = ok tt

-- `.with_context(|| c)`
abbrev pub context {ℓ} : {A : Type ℓ} → Context → Result A → Result A
context c (ok a) = ok a
context c (err e) = err (within c e)

-- `.ok_or_else(|| e)`
abbrev pub ok_or {ℓ} : {A : Type ℓ} → Error → Option A → Result A
ok_or e none = err e
ok_or e (some a) = ok a

abbrev pub is_ok {ℓ} : {A : Type ℓ} → Result A → Bool
is_ok (ok _) = true
is_ok (err _) = false

-- A chain of steps that succeeds has a first step that does.
pub >>=-eq-ok {ι ℓ} :
    {X : Type ι} {Y : Type ℓ} (first : Result X) (next : X → Result Y) {y : Y}
    → (first >>= next) ≡ ok y
    → (x : X) × (first ≡ ok x) × (next x ≡ ok y)
>>=-eq-ok (err problem) next done = cc
>>=-eq-ok (ok value) next done = (value, refl, done)

pub ok_or-eq-ok {ℓ} :
    {A : Type ℓ} (e : Error) (o : Option A) {a : A} → ok_or e o ≡ ok a → o ≡ some a
ok_or-eq-ok e none h = cc
ok_or-eq-ok e (some a) h = cc

pub context-eq-ok {ℓ} :
    {A : Type ℓ} (c : Context) (m : Result A) {a : A} → context c m ≡ ok a → m ≡ ok a
context-eq-ok c (ok a) h = h
context-eq-ok c (err e) h = cc

pub bail_if-eq-ok : (b : Bool) (e : Error) {u : Unit {0}} → bail_if b e ≡ ok u → b ≡ false
bail_if-eq-ok true e h = cc
bail_if-eq-ok false e h = refl

pub Result-cases {ℓ} :
    {A : Type ℓ} (m : Result A) → ((a : A) × (m ≡ ok a)) ⊎ ((e : Error) × (m ≡ err e))
Result-cases (ok a) = inl (a, refl)
Result-cases (err e) = inr (e, refl)
