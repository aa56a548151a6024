-- ===== src/Tests/Sessions.antt =====
-- A session at the console over the agent's knowledge base, the samples of the console, and the theorems
-- on them.
use mysql_redshift_agent.Prelude.{ℕ, ◌≡◌, Option, refl, Bool, []}
use mysql_redshift_agent.Text.{codes}
use mysql_redshift_agent.Delivery.{answered, answer_lost}
use mysql_redshift_agent.Knowledge.Table.{Table}
use mysql_redshift_agent.Knowledge.Valid.{IsValid}
use mysql_redshift_agent.Knowledge.History.{empty_table}
use mysql_redshift_agent.Service.Translate.{ok}
use mysql_redshift_agent.Web.Forward.{
  Call, answer_or_502, forward, api_knowledge_delete, api_knowledge_import_test,
}
use mysql_redshift_agent.Web.Session.{
  AgentDeletes, Told, Session, begun, requested, deleting, importing, api_knowledge_delete-Ends,
}
use mysql_redshift_agent.Tests.Fixtures.{
  ascii, hundredths, by_length, config, never, seeded, documents,
}
use mysql_redshift_agent.Tests.Serving.{environment, request, outcome, end_of}

abbrev direct : Call
direct = record { delivery = answered; error = [] }

abbrev timed_out : Call
timed_out = record { delivery = answer_lost; error = codes "timed out" }

abbrev fresh : Table ℕ
fresh = empty_table by_length ascii config

abbrev imported : Table ℕ
imported =
    (api_knowledge_import_test by_length ascii config hundredths documents timed_out (environment 4)
      request fresh).1

abbrev deleted : Table ℕ
deleted = (api_knowledge_delete by_length ascii config direct never 1 imported).1

-- An import whose answer is lost, and a deletion of its row.
session : Session by_length ascii config hundredths documents fresh deleted
session =
    requested (requested begun (importing timed_out (environment 4) request))
      (deleting direct never 1)

fresh-IsValid : IsValid by_length fresh
fresh-IsValid = record { below_next = tt; apart = tt }

api_knowledge_delete-Ends_example :
    (o : Option Bool × Table ℕ) × AgentDeletes by_length ascii config never 1 seeded o
    × Told by_length ascii config
        (codes "timed out")
        seeded
        o
        answer_lost
        (api_knowledge_delete by_length ascii config timed_out never 1 seeded)
api_knowledge_delete-Ends_example =
    api_knowledge_delete-Ends by_length ascii config timed_out never 1 seeded

answered_end :
    (api_knowledge_import_test by_length ascii config hundredths documents direct
      (environment 4)
      request
      seeded).0
    ≡ ok (end_of 4)
unfolding mysql_redshift_agent.Tests.Serving.importing api_knowledge_import_test forward
    answer_or_502
answered_end = refl
