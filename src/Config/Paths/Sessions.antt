-- ===== src/Config/Paths/Sessions.antt =====
-- `Paths::for_session` of src/config.rs: each session has a directory of its own.
use agent2agent.Base.{
  ℕ, ◌≡◌, refl, sym, ap, ◌∙◌, inl, inr, true, false, ◌||◌, some, List, [], ◌∷◌, ◌++◌, arith,
  if◌then◌else◌, Text, text, ◌==◌, nat_eq, text_eq, Bool-cases, ==_iff, All-map, append-cancel_left,
  ok, >>=-eq-ok,
}
use agent2agent.Base.Chars.{is_ascii_hexdigit}
use agent2agent.Base.Chars.Split.{split, split-last}
use agent2agent.Config.Name.{validate_session_id, IsSessionId, accepted_IsSessionId}
use agent2agent.Config.Paths.{
  Paths, ends_with_slash, join_path, sessions_dir, for_session, identity,
}

-- The names that a path goes through. Slashes that are doubled and a dot on its own say nothing.
abbrev pub named_parts : List Text → List Text
named_parts [] = []
named_parts (p ∷ ps) =
    let rest = named_parts ps in if p == [] || p == text "." then rest else p ∷ rest

abbrev pub components : Text → List Text
components path = named_parts (split b'/' path)

named_parts-append :
    (ps : List Text) (a : Text) (h : (a == [] || a == text ".") ≡ false)
    → named_parts (ps ++ a ∷ []) ≡ named_parts ps ++ a ∷ []
named_parts-append [] a h = rw h refl
named_parts-append (p ∷ ps) a h = elim (Bool-cases (p == [] || p == text ".")) [
  | inl e ↦ rw e (named_parts-append ps a h)
  | inr e ↦ rw e (ap (λ r. p ∷ r) (named_parts-append ps a h))
]

hexdigit-Lacks : (c : ℕ) → is_ascii_hexdigit c ≡ true → (c == b'/') ≡ false
unfolding is_ascii_hexdigit
hexdigit-Lacks c h = ground arith

session-Named : (id : Text) → IsSessionId id → (id == [] || id == text ".") ≡ false
unfolding text_eq nat_eq is_ascii_hexdigit
session-Named [] h = absurd (h.nonempty refl)
session-Named (c ∷ s) h = elim (Bool-cases (c ∷ s == text ".")) [
  | inl e ↦
      let dot : c ∷ s ≡ text "." = (==_iff (c ∷ s) (text ".")).0 e in
      let digit = h.digits.0 in absurd (let k : c ≡ 46 = cc in let bad = rw k at digit in cc)
  | inr e ↦ rw e refl
]

ends_with_slash-append :
    (s : Text) (c : ℕ) (t : Text) → ends_with_slash (s ++ c ∷ t) ≡ ends_with_slash (c ∷ t)
ends_with_slash-append [] c t = refl
ends_with_slash-append (d ∷ []) c t = refl
ends_with_slash-append (d ∷ e ∷ s) c t = ends_with_slash-append (e ∷ s) c t

filled-append : (s : Text) (c : ℕ) (t : Text) → (s ++ c ∷ t == []) ≡ false
unfolding text_eq
filled-append [] c t = refl
filled-append (d ∷ s) c t = refl

below_name :
    (s : Text) (c : ℕ) (t id : Text)
    → ends_with_slash (c ∷ t) ≡ false
    → join_path (s ++ c ∷ t) id ≡ (s ++ c ∷ t) ++ b'/' ∷ id
unfolding join_path
below_name s c t id h = rw (filled-append s c t) (rw (ends_with_slash-append s c t) (rw h refl))

-- The directory of the sessions is no root.
sessions_dir-below :
    (base id : Text) → join_path (sessions_dir base) id ≡ sessions_dir base ++ b'/' ∷ id
unfolding sessions_dir
sessions_dir-below base id = elim (Bool-cases (base == [] || ends_with_slash base)) [
  | inl e ↦
      rw
        (let k : join_path base (text "sessions") ≡ base ++ text "sessions" =
            unfold join_path in rw e refl in
          k)
        (below_name base b's' (text "essions") id (unfold nat_eq in refl))
  | inr e ↦
      rw
        (let k : join_path base (text "sessions") ≡ base ++ text "/sessions" =
            unfold join_path in rw e refl in
          k)
        (below_name base b'/' (text "sessions") id (unfold nat_eq in refl))
]

session-components :
    (base id : Text)
    → IsSessionId id
    → components (join_path (sessions_dir base) id) ≡ components (sessions_dir base) ++ id ∷ []
session-components base id h =
    ap (λ path. components path) (sessions_dir-below base id)
    ∙ ap (λ ps. named_parts ps)
        (split-last b'/' (sessions_dir base) id (All-map hexdigit-Lacks id h.digits))
    ∙ named_parts-append (split b'/' (sessions_dir base)) id (session-Named id h)

made_for :
    (base id : Text) (p : Paths)
    → for_session base id ≡ ok p
    → (p ≡ record { base = base; dir = join_path (sessions_dir base) id; session = some id })
      × IsSessionId id
unfolding for_session
made_for base id p h =
    let (_, valid, made) = >>=-eq-ok (validate_session_id id) _ h in
    (cc, accepted_IsSessionId id valid)

-- A session that is accepted has a directory of its own, one step below the directory of the
-- sessions and called as the session is: two sessions under one base directory share none, however
-- slashes and dots are written in the paths. The file of names is the same for both.
pub for_session-injective :
    (base a b : Text) (p q : Paths)
    → for_session base a ≡ ok p
    → for_session base b ≡ ok q
    → (components p.dir ≡ components (sessions_dir base) ++ a ∷ [])
      × (components p.dir ≡ components q.dir → a ≡ b)
      × (identity p ≡ identity q)
unfolding identity
for_session-injective base a b p q h k =
    let (is_p, valid_a) = made_for base a p h in
    let (is_q, valid_b) = made_for base b q k in
    let at_p = ap (λ (x : Paths). components x.dir) is_p ∙ session-components base a valid_a in
    let at_q = ap (λ (x : Paths). components x.dir) is_q ∙ session-components base b valid_b in
    (
      at_p,
      λ e.
          let last =
            append-cancel_left (components (sessions_dir base)) (a ∷ []) (b ∷ [])
              (sym at_p ∙ e ∙ at_q) in
          cc,
      rw (is_p, is_q) refl,
    )
