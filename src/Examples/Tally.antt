-- ===== src/Examples/Tally.antt =====
-- A lawful encoding that can be read at a glance: a byte is as many letters a, and a letter b.
use agent2agent.Base.Chars.{byte_len}
use agent2agent.Daemon.{PendingInvite}
use agent2agent.Base.Chars.{is_ascii_alphanumeric}
use mathlib.Core.Option
use agent2agent.Base.{
  ℕ, zero, suc, ◌+◌, ◌<◌, ◌≡◌, refl, ap, ◌∙◌, true, false, Option, none, some, List, [], ◌∷◌, arith,
  if◌then◌else◌, text, ◌==◌, nat_eq, text_eq, All, ok,
}
use agent2agent.Config.Name.{is_name_char, validate_name}
use agent2agent.Daemon.Invite.{create_invite, minted}
use agent2agent.Daemon.Invite.Minted.{create_invite-decode}
use agent2agent.Examples.World.{two_keys, two_keys-IsLawful, many, daemon}
use agent2agent.Config.Peers.{no_peers_yet}
use agent2agent.Pairing.Base64.{Base64, IsLawful}
use agent2agent.Pairing.Code.{InviteCode, encode, decode, inviter_id}

abbrev marks : ℕ → List ℕ → List ℕ
marks zero rest = 98 ∷ rest
marks (suc n) rest = 97 ∷ marks n rest

abbrev tally : List ℕ → List ℕ
tally [] = []
tally (b ∷ bytes) = marks b (tally bytes)

unfoldable counted : ℕ → List ℕ → Option (List ℕ)
counted n [] = some []
counted n (c ∷ s) =
    let more = counted (suc n) s in
    let next = counted 0 s in if c == 97 then more else Option.map (λ bytes. n ∷ bytes) next

abbrev tallies : Base64
tallies = record { encode = tally; decode = λ s. counted 0 s }

counted-marks :
    (k n : ℕ) (rest : List ℕ)
    → counted n (marks k rest) ≡ Option.map (λ bytes. (n + k) ∷ bytes) (counted 0 rest)
unfolding counted nat_eq
counted-marks zero n rest = ap (λ m. Option.map (λ bytes. m ∷ bytes) (counted 0 rest)) (omega arith)
counted-marks (suc k) n rest =
    counted-marks k (suc n) rest
    ∙ ap (λ m. Option.map (λ bytes. m ∷ bytes) (counted 0 rest)) (omega arith)

counted-tally : (bytes : List ℕ) → counted 0 (tally bytes) ≡ some bytes
unfolding counted
counted-tally [] = refl
counted-tally (b ∷ bytes) =
    counted-marks b 0 (tally bytes)
    ∙ rw (counted-tally bytes) (ap (λ m. some (m ∷ bytes)) (omega arith))

a_is : is_name_char 97 ≡ true
unfolding is_name_char is_ascii_alphanumeric
a_is = refl

b_is : is_name_char 98 ≡ true
unfolding is_name_char is_ascii_alphanumeric
b_is = refl

marks-chars :
    (k : ℕ) (rest : List ℕ)
    → All (λ c. is_name_char c ≡ true) rest
    → All (λ c. is_name_char c ≡ true) (marks k rest)
marks-chars zero rest h = (b_is, h)
marks-chars (suc k) rest h = (a_is, marks-chars k rest h)

tally-chars : (bytes : List ℕ) → All (λ c. is_name_char c ≡ true) (tally bytes)
tally-chars [] = tt
tally-chars (b ∷ bytes) = marks-chars b (tally bytes) (tally-chars bytes)

tallies-IsLawful : IsLawful tallies
tallies-IsLawful = record { decode-encode = λ bytes h. counted-tally bytes; alphabet = tally-chars }

small : (n : ℕ) → All (λ b. b < 256) (many n)
small zero = tt
small (suc n) = (omega arith, small n)

abbrev code_of_bob : InviteCode
code_of_bob = minted two_keys tallies false (text "bob") (many 12)

create_invite-decode_example :
    (code : InviteCode) × (p : PendingInvite) × (decode two_keys tallies (encode code_of_bob)
      ≡ ok code)
    × (inviter_id two_keys tallies code ≡ ok false)
    × ((create_invite two_keys tallies 5
          (many 12)
          (text "bob")
          none
          60
          (daemon none no_peers_yet)).1.invite
        ≡ some p)
    × (code.token ≡ p.token)
    × (code.name ≡ p.my_name)
unfolding create_invite validate_name text_eq byte_len is_name_char
create_invite-decode_example =
    create_invite-decode two_keys tallies tallies-IsLawful two_keys-IsLawful false
      (omega arith, small 31) 5 (many 12) (text "bob") none 60 (daemon none no_peers_yet)
      (encode code_of_bob) refl (small 12) refl refl
