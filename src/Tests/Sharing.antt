-- ===== src/Tests/Sharing.antt =====
-- Two first calls of `get_agent` that both find None, and the theorems on their run and on later calls.
use mysql_redshift_agent.Prelude.{◌≡◌, false, some, [], ◌∷◌, All}
use mysql_redshift_agent.Service.Agent.{
  Global, testing, constructing, storing, returning, returned, move, moves, skips, Reach, begun,
  stepped, unset, calls,
}
use mysql_redshift_agent.Service.Shared.{IsSettled, Reach-IsSettled}

abbrev two_built : Global
two_built = record { agent = some 1; built = 2 }

-- Each of the two calls constructs an agent.
race : Reach unset (calls 2) two_built (returned (some 1) ∷ returning ∷ [])
unfolding move
race =
    let tested =
      stepped (stepped begun (moves false testing (testing ∷ [])))
        (skips constructing (moves false testing [])) in
    let built =
      stepped (stepped tested (moves false constructing (constructing ∷ [])))
        (skips (storing 0) (moves false constructing [])) in
    let stored =
      stepped (stepped built (moves false (storing 0) (storing 1 ∷ [])))
        (skips returning (moves false (storing 1) [])) in
    stepped stored (moves false returning (returning ∷ []))

later : Reach two_built (testing ∷ []) two_built (returned (some 1) ∷ [])
unfolding move
later = stepped (stepped begun (moves false testing [])) (moves false returning [])

Reach-IsSettled_example : (two_built ≡ two_built) × All (IsSettled 1) (returned (some 1) ∷ [])
Reach-IsSettled_example = Reach-IsSettled 1 2 later (tt, tt)
