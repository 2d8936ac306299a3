-- ===== src/Ipc/Line.antt =====
-- A line of the unix socket of src/ipc.rs and src/daemon.rs, as `read_line` takes it from the bytes.
use agent2agent.Base.{
  ◌≡◌, refl, ap, ◌≢◌, false, Option, none, some, [], ◌∷◌, ◌++◌, if◌then◌else◌, Text, ◌==◌, nat_eq,
  text_eq, All,
}
use agent2agent.Base.Chars.{trim_end_by, is_whitespace}
use agent2agent.Base.{ap, ◌==◌}

abbrev pub newline : Text
newline = 10 ∷ []

-- `read_line`: up to the first newline, and with it.
unfoldable pub read_line : Text → Text
read_line [] = []
read_line (c ∷ s) = let rest = read_line s in if c == 10 then c ∷ [] else c ∷ rest

-- Where nothing was read, the other side hung up.
abbrev pub line_of : Text → Option Text
line_of [] = none
line_of (c ∷ s) = some (c ∷ s)

-- A text that is one line of its own, such as `serde_json` prints: it has no newline, no white space
-- at its end, and something in it.
pub record IsLine (s : Text) : Type 0 where
  pub one : All (λ c. c == 10 ≡ false) s
  pub trimmed : trim_end_by is_whitespace s ≡ s
  pub filled : s ≢ []

read_line-newline :
    (s : Text) → All (λ c. c == 10 ≡ false) s → read_line (s ++ newline) ≡ s ++ newline
unfolding read_line nat_eq
read_line-newline [] h = refl
read_line-newline (c ∷ s) h = rw h.0 (ap (λ rest. c ∷ rest) (read_line-newline s h.1))

trim_end-newline :
    (s : Text) → trim_end_by is_whitespace (s ++ newline) ≡ trim_end_by is_whitespace s
unfolding trim_end_by nat_eq text_eq is_whitespace
trim_end-newline [] = refl
trim_end-newline (c ∷ s) = rw (trim_end-newline s) refl

pub line_of-read_line :
    (s : Text) → IsLine s → line_of (read_line (s ++ newline)) ≡ some (s ++ newline)
line_of-read_line s h = rw (read_line-newline s h.one) (kept s)
  where
    kept : (s : Text) → line_of (s ++ newline) ≡ some (s ++ newline)
    kept [] = refl
    kept (c ∷ s) = refl

pub read_line-IsLine : (s : Text) → IsLine s → read_line (s ++ newline) ≡ s ++ newline
read_line-IsLine s h = read_line-newline s h.one

pub trim_end-IsLine : (s : Text) → IsLine s → trim_end_by is_whitespace (s ++ newline) ≡ s
trim_end-IsLine s h = rw (trim_end-newline s) h.trimmed
