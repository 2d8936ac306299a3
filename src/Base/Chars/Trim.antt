-- ===== src/Base/Chars/Trim.antt =====
-- Trimming takes the white space around a text away, and nothing of the text.
use agent2agent.Base.{ℕ, ◌≡◌, refl, ◌∙◌, ◌≢◌, true, [], ◌∷◌, ◌++◌, Text, nat_eq, text_eq, All}
use agent2agent.Base.Chars.{is_whitespace, trim, trim_start, trim_end_by}
use agent2agent.Base.Chars.Ascii.{NoSpace, trim_start-black, trim_lem}

abbrev pub IsSpace : Text → Type 0
IsSpace = All (λ c. is_whitespace c ≡ true)

trim_start-space : (c : ℕ) (s : Text) → is_whitespace c ≡ true → trim_start (c ∷ s) ≡ trim_start s
unfolding trim_start
trim_start-space c s h = unfold is_whitespace in rw h

trim_start-append : (pre s : Text) → IsSpace pre → trim_start (pre ++ s) ≡ trim_start s
trim_start-append [] s h = refl
trim_start-append (c ∷ pre) s h = trim_start-space c (pre ++ s) h.0 ∙ trim_start-append pre s h.1

trim_end-space : (post : Text) → IsSpace post → trim_end_by is_whitespace post ≡ []
unfolding trim_end_by
trim_end-space [] h = refl
trim_end-space (c ∷ post) h = rw (trim_end-space post h.1) (rw h.0)

trim_end-append :
    (s post : Text) → NoSpace s → IsSpace post → trim_end_by is_whitespace (s ++ post) ≡ s
unfolding trim_end_by
trim_end-append [] post h k = trim_end-space post k
trim_end-append (c ∷ []) post h k = rw (trim_end-space post k) (rw h.0)
trim_end-append (c ∷ d ∷ s) post h k = rw (trim_end-append (d ∷ s) post h.1 k)

pub trim-padded :
    (pre s post : Text)
    → IsSpace pre
    → NoSpace s
    → s ≢ []
    → IsSpace post
    → trim (pre ++ (s ++ post)) ≡ s
trim-padded pre [] post p h n k = absurd (n refl)
trim-padded pre (c ∷ s) post p h n k = rw trim_lem (
    rw (trim_start-append pre (c ∷ (s ++ post)) p)
      (rw (trim_start-black c (s ++ post) h.0) (trim_end-append (c ∷ s) post h k)))
