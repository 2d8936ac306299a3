-- ===== src/Config/Identity.antt =====
-- `Identity` of src/config.rs: the name that the agent goes by in a directory.
use agent2agent.Base.{
  ◌≡◌, ◌≢◌, Option, none, some, arith, Text, nat_eq, text_eq, Result, ok, ◌>>◌, >>=-eq-ok,
}
use agent2agent.Base.Map
use agent2agent.Base.Map.{Map}
use agent2agent.Base.Map.Laws.{get-insert}
use agent2agent.Config.Name.{validate_name}

pub record Identity : Type 0 where
  pub default : Option Text
  pub dirs : Map Text

unfoldable pub name_for : Text → Identity → Option Text
name_for dir self = elim (Map.get dir self.dirs) [ some name ↦ some name | none ↦ self.default ]

unfoldable pub remember : Text → Text → Identity → Result Identity
remember dir name self = do
  validate_name name
  ok (record self { dirs = Map.insert dir name self.dirs })

-- A name that was remembered for a directory is the one to use there, and it changes the name of no
-- other directory.
pub name_for-remember :
    (dir name : Text) (s t : Identity)
    → remember dir name s ≡ ok t
    → (name_for dir t ≡ some name)
      × ((other : Text) → other ≢ dir → name_for other t ≡ name_for other s)
unfolding name_for remember
name_for-remember dir name s t h =
    let (_, _, made) = >>=-eq-ok (validate_name name) _ h in
    let e : t ≡ record s { dirs = Map.insert dir name s.dirs } = cc in
    rw e (
      ground (arith, get-insert dir dir name s.dirs),
      λ other n. ground (arith, get-insert dir other name s.dirs),
    )
