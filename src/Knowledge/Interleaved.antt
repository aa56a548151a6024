-- ===== src/Knowledge/Interleaved.antt =====
-- The statements of several requests to the knowledge base in any order.
use mysql_redshift_agent.Prelude.{◌≤◌, List, All}
use mysql_redshift_agent.Text.{Unicode}
use mysql_redshift_agent.Knowledge.Table.{Table, Backend}
use mysql_redshift_agent.Knowledge.Store.{Config}
use mysql_redshift_agent.Knowledge.Retrieval.{SelectsRows}
use mysql_redshift_agent.Knowledge.Valid.{IsValid}
use mysql_redshift_agent.Knowledge.Steps.{Place, OneStep, moves, skips, Together, begun, stepped}
use mysql_redshift_agent.Knowledge.Known.{IsKnown, IsKnown-weaken, places-weaken, step-Leaves}

module _ (b : Backend) (u : Unicode) (c : Config b.Score) (rows : SelectsRows b) where
  OneStep-Leaves :
      {t t' : Table b.Vector} {ps ps' : List (Place b)}
      → OneStep b u c t ps t' ps'
      → IsValid b t
      → All (IsKnown b t.next_id) ps
      → IsValid b t' × (t.next_id ≤ t'.next_id) × All (IsKnown b t'.next_id) ps'
  OneStep-Leaves {t} (moves fails now p ps) v k =
      let (v', n, k') = step-Leaves b u c fails now t v rows p k.0 in
      (v', n, (k', places-weaken b _ _ ps n k.1))
  OneStep-Leaves (skips p s) v k =
      let (v', n, k') = OneStep-Leaves s v k.1 in (v', n, (IsKnown-weaken b _ _ p n k.0, k'))

  -- However the statements of requests to the knowledge base are interleaved, and whatever fails, the ids
  -- and the md5 keys of the table stay unique and the ids below the sequence, and so are the ids of the
  -- samples that a save or a retrieval returns or goes on with; the table is valid and the ids known at
  -- first, and ORDER BY … LIMIT gives rows of the table.
  pub Together-IsValid :
      {t : Table b.Vector} {ps : List (Place b)} {t' : Table b.Vector} {ps' : List (Place b)}
      → Together b u c t ps t' ps'
      → IsValid b t
      → All (IsKnown b t.next_id) ps
      → IsValid b t' × All (IsKnown b t'.next_id) ps'
  Together-IsValid begun v k = (v, k)
  Together-IsValid (stepped r s) v k =
      let (v', k') = Together-IsValid r v k in
      let (v'', n, k'') = OneStep-Leaves s v' k' in (v'', k'')
