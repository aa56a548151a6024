-- ===== src/Tests/Console.antt =====
-- Runs of the console, and the theorems on it at concrete requests.
use mysql_redshift_agent.Prelude.{ℕ, ◌≡◌, ◌⊎◌, refl, true, some, [], ◌∷◌}
use mysql_redshift_agent.Text.{
  codes, text_eq, is_space, strip, lstrip, rstrip, rstrip_by, rstrip_semicolons, lower,
}
use mysql_redshift_agent.Value.{pos, Value, Row, str_of}
use mysql_redshift_agent.Knowledge.Store.{is_empty}
use mysql_redshift_agent.Service.Translate.{ok, http, clean_request, truthy}
use mysql_redshift_agent.Driver.{Cursor, fetched, raised, names_of, available}
use mysql_redshift_agent.Web.Run.{
  Display, stringify, collect, plan_lines, explain_mysql, first_cells, explain_redshift,
}
use mysql_redshift_agent.Web.Handlers.{
  QueryReq, QueryResp, unreachable, Servers, unknown, source_of, clean_source, unknown_source,
  translate_call, api_query,
}
use mysql_redshift_agent.Web.Counts.{Shows, collect-Shows}
use mysql_redshift_agent.Web.Answers.{Answers, api_query-Answers}
use mysql_redshift_agent.Tests.Fixtures.{ascii, hundredths}

unfoldable pub console : Unit {0}
unfolding text_eq is_space strip lstrip rstrip rstrip_by rstrip_semicolons lower str_of is_empty
    clean_request truthy names_of stringify available collect plan_lines explain_mysql first_cells
    explain_redshift source_of clean_source translate_call
console = tt

abbrev pub display : Display hundredths
display = record { str_of_decimal = λ d. d ∷ []; str_of_moment = λ m. m }

abbrev row_of : ℕ → Row hundredths
row_of n = Value.int (pos n) ∷ []

abbrev three_rows : Cursor hundredths
three_rows = record {
  description = some (codes "n" ∷ []);
  rows = row_of 1 ∷ row_of 2 ∷ row_of 3 ∷ [];
  latency_ms = 4;
}

abbrev pub servers : Servers hundredths
servers = record {
  aurora = λ sql. fetched three_rows;
  redshift = λ sql. raised (codes "OperationalError") sql;
  proxy = λ sql. fetched three_rows;
  agent = λ sql. unreachable;
}

abbrev asked : QueryReq
asked = record { source = codes " Proxy"; sql = codes "SELECT n FROM t; " }

-- Two of three rows are shown, and two of three are counted.
counts_two : (collect hundredths display 2 three_rows).row_count ≡ 2
unfolding console
counts_two = refl

counts_three : (collect hundredths display 3 three_rows).row_count ≡ 3
unfolding console
counts_three = refl

collect-Shows_example :
    Shows hundredths display 2 three_rows (collect hundredths display 2 three_rows)
collect-Shows_example = collect-Shows hundredths display 2 three_rows (codes "n") [] refl

api_query-Answers_example :
    let src = clean_source ascii asked.source in
    let sql = clean_request asked.sql in
    ((is_empty sql ≡ true)
      × (api_query hundredths display ascii 2 servers asked ≡ http 400 (codes "sql is empty")))
    ⊎ (((source_of src ≡ unknown)
          × (api_query hundredths display ascii 2 servers asked ≡ http 400 (unknown_source src)))
        ⊎ ((resp : QueryResp hundredths) × (api_query hundredths display ascii 2 servers asked
              ≡ ok resp)
            × Answers hundredths display 2 ascii servers sql src (source_of src) resp))
api_query-Answers_example = api_query-Answers hundredths display 2 ascii servers asked
