-- ===== src/Tests/Racing.antt =====
-- A save and a deletion whose statements are interleaved, and the theorems on them.
use mysql_redshift_agent.Prelude.{true, some, [], ◌∷◌, All, arith}
use mysql_redshift_agent.Knowledge.Table.{Table}
use mysql_redshift_agent.Knowledge.Valid.{IsValid}
use mysql_redshift_agent.Knowledge.Steps.{
  saving, bumping, comparing, saved, deleting, deleted, step, moves, skips, Together, begun,
  stepped,
}
use mysql_redshift_agent.Knowledge.Known.{IsKnown}
use mysql_redshift_agent.Knowledge.Interleaved.{Together-IsValid}
use mysql_redshift_agent.Tests.Fixtures.{
  ascii, by_length, by_length-SelectsRows, config, never, mysql_count, seeded,
}
use mysql_redshift_agent.Tests.Knowing.{near, storing}

abbrev emptied : Table by_length.Vector
emptied = record seeded { rows = [] }

-- The row that the save has found is deleted before the save counts it; the save returns its id.
race :
    Together by_length ascii config seeded
      (saving near ∷ deleting 1 ∷ [])
      emptied
      (saved (some 1) ∷ deleted (some true) ∷ [])
unfolding storing step
race =
    let one = stepped begun (moves never 5 (saving near) (deleting 1 ∷ [])) in
    let two =
      stepped one
        (moves never 5 (comparing near (by_length.embed_document mysql_count)) (deleting 1 ∷ [])) in
    let three = stepped two (skips (bumping 1) (moves never 6 (deleting 1) [])) in
    stepped three (moves never 7 (bumping 1) (deleted (some true) ∷ []))

seeded-IsValid : IsValid by_length seeded
seeded-IsValid = record { below_next = (omega arith, tt); apart = (tt, tt) }

Together-IsValid_example :
    IsValid by_length emptied
    × All (IsKnown by_length emptied.next_id) (saved (some 1) ∷ deleted (some true) ∷ [])
Together-IsValid_example =
    Together-IsValid by_length ascii config by_length-SelectsRows race seeded-IsValid (tt, (tt, tt))
