-- ===== src/Render/Lines.antt =====
-- `prefix_block` of src/render.rs, line by line: nothing that a peer sends escapes the marker.
use agent2agent.Base.{
  ℕ, ◌+◌, ◌<◌, ◌≡◌, refl, ap, ◌∙◌, ◌≢◌, inl, inr, true, false, List, [], ◌∷◌, ◌++◌, map, append-nil,
  append_assoc, arith, ltb, if◌then◌else◌, Text, text, ◌==◌, nat_eq, text_eq, Bool-cases, ==_iff,
  All, All-append,
}
use agent2agent.Base.Chars.{join}
use agent2agent.Base.Chars.Split.{split, Lacks, split-join, split-ne-nil, push_head}
use agent2agent.Inbox.{Message}
use agent2agent.Render.{
  marked, prefix_lines, prefix_block, render_incoming, render_outgoing, in_marker, out_marker,
}

head-Lacks :
    (sep c : ℕ) (ps : List Text)
    → (c == sep) ≡ false
    → All (Lacks sep) ps
    → All (Lacks sep) (push_head c ps)
head-Lacks sep c [] e h = ((e, tt), tt)
head-Lacks sep c (p ∷ ps) e h = ((e, h.0), h.1)

split-Lacks : (sep : ℕ) (s : Text) → All (Lacks sep) (split sep s)
unfolding split
split-Lacks sep [] = (tt, tt)
split-Lacks sep (c ∷ s) = elim (Bool-cases (c == sep)) [
  | inl e ↦ rw e (tt, split-Lacks sep s)
  | inr e ↦ rw e (head-Lacks sep c (split sep s) e (split-Lacks sep s))
]

later_lines :
    (marker : Text) (i : ℕ) (line : Text) (lines : List Text) (out : Text)
    → 0 < i
    → prefix_lines marker i lines (out ++ marked marker line)
      ≡ out ++ join (10 ∷ []) (map (λ l. marked marker l) (line ∷ lines))
unfolding prefix_lines join
later_lines marker i line [] out h = refl
later_lines marker i line (next ∷ lines) out h =
    let rest = join (10 ∷ []) (map (λ l. marked marker l) (next ∷ lines)) in
    rw (let e : ltb 0 i ≡ true = ground arith in e) (
      later_lines marker (i + 1) next lines ((out ++ marked marker line) ++ 10 ∷ []) (omega arith)
      ∙ append_assoc (out ++ marked marker line) (10 ∷ []) rest
      ∙ append_assoc out (marked marker line) (10 ∷ rest))

prefix_lines-join :
    (marker : Text) (lines : List Text)
    → prefix_lines marker 0 lines [] ≡ join (10 ∷ []) (map (λ l. marked marker l) lines)
unfolding prefix_lines join
prefix_lines-join marker [] = refl
prefix_lines-join marker (line ∷ lines) = later_lines marker (0 + 1) line lines [] (omega arith)

one_line-Lacks :
    (marker line : Text) → Lacks 10 marker → Lacks 10 line → Lacks 10 (marked marker line)
one_line-Lacks marker line k h =
    All-append _ marker (if line == [] then [] else b' ' ∷ line) k
      (elim (Bool-cases (line == [])) [ inl e ↦ rw e tt | inr e ↦ rw e (ground arith, h) ])

marked-Lacks :
    (marker : Text) (lines : List Text)
    → Lacks 10 marker
    → All (Lacks 10) lines
    → All (Lacks 10) (map (λ l. marked marker l) lines)
marked-Lacks marker [] k h = tt
marked-Lacks marker (line ∷ lines) k h =
    (one_line-Lacks marker line k h.0, marked-Lacks marker lines k h.1)

lines_of :
    (marker : Text) (lines : List Text)
    → Lacks 10 marker
    → lines ≢ []
    → All (Lacks 10) lines
    → split 10 (prefix_lines marker 0 lines []) ≡ map (λ l. marked marker l) lines
lines_of marker [] k n h = absurd (n refl)
lines_of marker (line ∷ lines) k n h =
    ap (λ t. split 10 t) (prefix_lines-join marker (line ∷ lines))
    ∙ split-join 10 (marked marker line) (map (λ l. marked marker l) lines)
        (marked-Lacks marker (line ∷ lines) k h)

-- The lines that are shown for the lines of a body: each in its place behind the marker and a blank,
-- and an empty one as the marker alone.
abbrev pub AreShown : Text → List Text → List Text → Type 0
AreShown marker [] [] = Unit {0}
AreShown marker [] (_ ∷ _) = ⊥
AreShown marker (_ ∷ _) [] = ⊥
AreShown marker (line ∷ lines) (shown ∷ rest) =
    (line ≡ [] → shown ≡ marker)
    × (line ≢ [] → shown ≡ marker ++ b' ' ∷ line)
    × AreShown marker lines rest

shown_lines :
    (marker : Text) (lines : List Text) → AreShown marker lines (map (λ l. marked marker l) lines)
unfolding text_eq
shown_lines marker [] = tt
shown_lines marker (line ∷ lines) = (
  λ e. rw e (append-nil marker),
  λ n. elim (Bool-cases (line == [])) [
    | inl e ↦ absurd (n ((==_iff line []).0 e))
    | inr e ↦ rw e refl
  ],
  shown_lines marker lines,
)

abbrev pub IsMarked : Text → Text → Text → Type 0
IsMarked marker body shown =
    (body ≡ [] → shown ≡ []) × (body ≢ [] → AreShown marker (split 10 body) (split 10 shown))

prefix_block-IsMarked :
    (marker body : Text) → Lacks 10 marker → IsMarked marker body (prefix_block marker body)
unfolding prefix_block
prefix_block-IsMarked marker body k = elim (Bool-cases (body == [])) [
  | inl e ↦ rw e (λ _. refl, λ n. absurd (n ((==_iff body []).0 e)))
  | inr e ↦ rw e (
    λ b. absurd (ground arith),
    λ _.
        rw (lines_of marker (split 10 body) k (split-ne-nil 10 body) (split-Lacks 10 body))
          (shown_lines marker (split 10 body)),
  )
]

-- The lines of what is shown are as many as the lines of the body, and each is `>>>` for a message
-- that came in, `<<<` for one that went out, followed by a blank and the line in its place, or by
-- nothing where that line is empty. So nothing in a body makes a line that has no marker. An empty
-- body shows nothing.
pub render-IsMarked :
    ((m : Message) → IsMarked (text ">>>") m.body (render_incoming m))
    × ((body : Text) → IsMarked (text "<<<") body (render_outgoing body))
unfolding render_incoming render_outgoing nat_eq
render-IsMarked = (
  λ m. prefix_block-IsMarked in_marker m.body (refl, (refl, (refl, tt))),
  λ body. prefix_block-IsMarked out_marker body (refl, (refl, (refl, tt))),
)
