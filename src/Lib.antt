-- ===== src/Lib.antt =====
-- mysql-redshift-agent: the service that translates MySQL statements into Redshift SQL, checks the
-- translation on both databases, and keeps what worked in a knowledge base.
--
-- A statement comes in at `translate` (agent/app.py). Keyword rules name the documents on the
-- differences of the dialects (agent/tools/lookup_dialect_rule.py); the knowledge base gives similar
-- statements that were translated before (agent/tools/sql_knowledge.py); a language model answers, and
-- `extract_sql` takes the SQL out of its reply. The proxy (proxy/) speaks the protocol of MySQL to its
-- clients: it routes a statement by the tables that it refers to, asks the agent for Redshift SQL or takes
-- it from a cache, lets the agent fix what fails, and posts what worked to the knowledge base. `api_knowledge_import_test` translates, runs the
-- statement on both databases, compares the result sets (agent/tools/compare.py) and saves the sample.
--
-- The files:
--   Prelude          Boolean tests, lists over the native numbers, and the stable sort.
--   Text, Regex      Python's str methods and the regular expressions that the program compiles. A text
--                    is the list of its code points; the Unicode tables beyond ASCII are a parameter.
--                    Regex/Occurs says what a match is without the matcher.
--   Rules            agent/tools/lookup_dialect_rule.py. The directory of documents is a list.
--   Extract          agent/app.py, CLEAN_PATTERNS to `extract_sql`.
--   Value, Compare   agent/tools/compare.py. `Runtime` stands for floats, decimals, moments of time and
--                    the other objects of the drivers. The reasons are constructors that hold what the
--                    messages show; `none` is the IndexError of `cols_my[j]`.
--   Knowledge        agent/tools/sql_knowledge.py over the table of scripts/schema_pgvector.sql.
--                    `Backend` stands for the embedding model, the order of pgvector, md5 and ILIKE;
--                    `Faults` says which of the steps that reach out fail. Each statement of the code is
--                    a function on the table. Knowledge/History runs sequences of requests,
--                    Knowledge/Steps interleaves the statements of several, and Knowledge/View reads the table as a map from statements to translations.
--   Driver           What a database driver gives for a statement; agent/tools/executors.py and
--                    webui/app.py read it alike.
--   Service          agent/app.py: `translate`, the three management endpoints (Service/Manage), and the
--                    import, one function for each of its steps; `execute` is agent/tools/executors.py.
--                    Service/Agent has the calls of `get_agent` as interleaved steps.
--   Web              webui/app.py: the console. Web/Run is a run of a statement on a server, Web/Handlers
--                    the two endpoints, Web/Samples the samples, and Web/Forward the routes that forward to
--                    the agent, over its knowledge base. Web/Translating puts the agent's `translate` behind
--                    `_translate`. `Servers` stands for the databases and the proxy, and MAX_ROWS is a parameter.
--   Schema           agent/tools/get_table_schema.py. The `lru_cache` is explicit state: the calls it
--                    holds, the latest first.
--   Csv              The text that the `csv` module writes for the scripts, with Csv/Reader as an independent
--                    reader of that format.
--   Delivery         How a request to the agent goes: answered, answered in vain, or not sent.
--   Seed             scripts/seed_knowledge.py over the save endpoint of the agent.
--   Migrate          scripts/migrate_simple.py. S3 holds files by bucket and key, Redshift the committed rows of each
--                    table; `Run` says what each call of the two does.
--   Export           scripts/xlsx_to_csv.py, from the rows of the sheet on.
--   Gen              scripts/gen_50m.py: Gen/Constants and Gen/Decimal have the constants and the texts of
--                    numbers and dates, Gen the draws and the loops, Gen/Widths the columns of
--                    scripts/schema.sql. `RandomSource` stands for the random
--                    generator, the products of floats and the time zone. The arguments are numbers from 0
--                    on, and an interval of 0 reports nothing.
--   Proxy            proxy/, in Go: Proxy/Config and Proxy/Start (cmd/proxy/main.go, internal/config),
--                    Proxy/Router (internal/router), Proxy/Normalize and Proxy/Cache (internal/cache),
--                    Proxy/Client (internal/convertor_client), Proxy/Saves (internal/knowledge),
--                    Proxy/Values (internal/resultmap and the result of internal/executor), and Proxy/Server
--                    (internal/server): `HandleQuery` and `execWithRetry`. `Outside` stands for Redshift,
--                    MySQL and the agent over a world that each call may change; `Lru` is the LRU map with
--                    its laws. Proxy/Connections interleaves the queries of several connections over the
--                    cache and the queue. Proxy/Agent puts the agent of Service behind the client, with its knowledge
--                    base in the world.
--   Tests            Runs on concrete data, and the theorems applied there.
--
-- Every function of the model is structurally recursive. The only fuel is the bound on the digits of the
-- text of a number in Gen/Decimal, which is the number itself and one more, so that the text stands for
-- every number (`value_from-str_nat`). The regular expressions repeat single characters only, which makes
-- the matcher structural in the text.
--
-- TRUNCATE commits at once, as the documentation of Redshift says; what a COPY reads of S3 is a parameter.
-- But for `get_agent`, Knowledge/Steps and Proxy/Connections, requests are served one at a time: the
-- statements of two requests are not interleaved. A failed step leaves the table as it was, but for numbers that the sequence may skip. The
-- texts of exceptions of libraries, the logging and the clock are parameters or left out; the branch of
-- the import for an exception of `translate` that is no HTTPException has no counterpart, since
-- `translate` over these parameters raises none. Not modelled: the embedding client, which is one call of
-- a library, the health endpoint and the system prompt, the /dbms aliases of the console, the shell
-- scripts, the web pages and the infrastructure; of the proxy, the accept loop with the handshake, the
-- answers to the other commands of the protocol, which are constants, its timeouts and its log. In
-- Proxy/Connections the executions and fixes of one query are one step; elsewhere the proxy handles one
-- query at a time.
pub mod Prelude
pub mod Proxy
pub mod Text
pub mod Regex
pub mod Rules
pub mod Extract
pub mod Value
pub mod Driver
pub mod Compare
pub mod Knowledge
pub mod Service
pub mod Web
pub mod Schema
pub mod Csv
pub mod Delivery
pub mod Seed
pub mod Migrate
pub mod Export
pub mod Gen
pub mod Tests
