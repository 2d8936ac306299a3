-- ===== src/Config/Mode.antt =====
-- `Mode` of src/config.rs: whether the operator approves every message.
use agent2agent.Base.{
  ◌≡◌, refl, ◌↔◌, Bool, true, false, arith, if◌then◌else◌, Text, text, ◌==◌, nat_eq, text_eq,
  Result, ok, err, unknown_mode,
}
use agent2agent.Base.Chars.{trim, to_ascii_lowercase}

pub data Mode : Type 0 where
  auto manual : Mode

-- `Mode::default()`
abbrev pub default_mode : Mode
default_mode = manual

-- `as_str`, which `Display` prints
unfoldable pub as_str : Mode → Text
as_str auto = text "auto"
as_str manual = text "manual"

unfoldable pub is_manual : Mode → Bool
is_manual auto = false
is_manual manual = true

-- `from_str`
unfoldable pub parse_mode : Text → Result Mode
parse_mode raw =
    let s = to_ascii_lowercase (trim raw) in
    if s == text "auto"
    then ok auto
    else if s == text "manual"
    then ok manual
    else err (unknown_mode s)

parse_mode-as_str : (mode : Mode) → parse_mode (as_str mode) ≡ ok mode
unfolding parse_mode as_str trim to_ascii_lowercase nat_eq text_eq
parse_mode-as_str auto = refl
parse_mode-as_str manual = refl

parse_mode-auto :
    (raw : Text) → (parse_mode raw ≡ ok auto) ↔ (to_ascii_lowercase (trim raw) ≡ text "auto")
unfolding parse_mode
parse_mode-auto raw = (λ h. ground arith, λ h. ground arith)

-- A mode prints as a text that reads back as that mode, and nothing but `auto`, in any case and
-- with white space around it, is read as `auto`.
pub parse_mode_lem :
    ((mode : Mode) → parse_mode (as_str mode) ≡ ok mode)
    × ((raw : Text) → (parse_mode raw ≡ ok auto) ↔ (to_ascii_lowercase (trim raw) ≡ text "auto"))
parse_mode_lem = (parse_mode-as_str, parse_mode-auto)
