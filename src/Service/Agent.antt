-- ===== src/Service/Agent.antt =====
-- `get_agent` of agent/app.py, which the requests call in threads of their own over one global variable.
-- A step is a read or a write of the variable, or the construction of an agent; agents are told apart by
-- their number.
use mysql_redshift_agent.Prelude.{
  ℕ, zero, suc, ◌+◌, Bool, true, false, Option, none, some, List, [], ◌∷◌,
}

-- `_agent`, and how many agents were constructed.
pub record Global : Type 0 where
  pub agent : Option ℕ
  pub built : ℕ

-- Where a call stands: before the test, behind it with no agent found, with an agent constructed, before
-- the return, with the agent returned, or with the exception of a constructor.
pub data Place : Type 0 where
  testing constructing : Place
  storing : ℕ → Place
  returning : Place
  returned : Option ℕ → Place
  raised : Place

-- One step of a call; `fails` says whether the construction raises.
unfoldable pub move : Bool → Global → Place → Global × Place
move fails g testing = elim g.agent [ none ↦ (g, constructing) | some k ↦ (g, returning) ]
move true g constructing = (g, raised)
move false g constructing = (record g { built = g.built + 1 }, storing g.built)
move fails g (storing k) = (record g { agent = some k }, returning)
move fails g returning = (g, returned g.agent)
move fails g (returned o) = (g, returned o)
move fails g raised = (g, raised)

-- One step of one of the calls.
pub data CallStep (g : Global) : List Place → Global → List Place → Type 0 where
  moves :
      (fails : Bool) (p : Place) (ps : List Place)
      → CallStep g (p ∷ ps) (move fails g p).0 ((move fails g p).1 ∷ ps)
  skips :
      {g' : Global} {ps ps' : List Place} (p : Place)
      → CallStep g ps g' ps'
      → CallStep g (p ∷ ps) g' (p ∷ ps')

-- What the calls can reach together.
pub data Reach (g : Global) (ps : List Place) : Global → List Place → Type 0 where
  begun : Reach g ps g ps
  stepped :
      {g' g'' : Global} {ps' ps'' : List Place}
      → Reach g ps g' ps'
      → CallStep g' ps' g'' ps''
      → Reach g ps g'' ps''

abbrev pub unset : Global
unset = record { agent = none; built = 0 }

-- `n` calls that begin.
abbrev pub calls : ℕ → List Place
calls zero = []
calls (suc n) = testing ∷ calls n
