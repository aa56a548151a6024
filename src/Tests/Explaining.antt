-- ===== src/Tests/Explaining.antt =====
-- An explanation through the proxy with a model that knows the statement, and the theorem on it.
use mysql_redshift_agent.Prelude.{◌≡◌, refl, false}
use mysql_redshift_agent.Text.{codes}
use mysql_redshift_agent.Delivery.{answered}
use mysql_redshift_agent.Knowledge.Store.{is_empty}
use mysql_redshift_agent.Service.Translate.{clean_request}
use mysql_redshift_agent.Web.Handlers.{QueryReq, proxy_source, source_of, clean_source, api_explain}
use mysql_redshift_agent.Web.Translating.{Agent, with_agent}
use mysql_redshift_agent.Web.Explaining.{Ends, api_explain-Ends}
use mysql_redshift_agent.Tests.Fixtures.{
  ascii, hundredths, by_length, config, never, mysql_count, seeded, documents,
}
use mysql_redshift_agent.Tests.Serving.{model}
use mysql_redshift_agent.Tests.Console.{console, display, servers}

abbrev agent : Agent
agent = record {
  backend = by_length;
  directory = documents;
  config = config;
  ask = model;
  fails = never;
  now = 6;
  latency_ms = 40;
  table = seeded;
}

abbrev req : QueryReq
req = record { source = codes "PROXY"; sql = mysql_count }

filled : is_empty (clean_request req.sql) ≡ false
unfolding console
filled = refl

proxied : source_of (clean_source ascii req.source) ≡ proxy_source
unfolding console
proxied = refl

api_explain-Ends_example :
    Ends hundredths display 2 ascii servers agent answered
      (clean_source ascii req.source)
      (clean_request req.sql)
      (api_explain hundredths display ascii 2 (with_agent ascii agent answered servers) req)
api_explain-Ends_example =
    api_explain-Ends hundredths display 2 ascii servers agent answered req filled proxied
