-- ===== src/Service/Translate.antt =====
-- `translate` of agent/app.py. What the language model answers is a parameter, and so are the times.
use mysql_redshift_agent.Prelude.{
  ℕ, Bool, true, false, ◌&&◌, Option, none, some, List, [], ◌∷◌, ◌++◌, length, take, if◌then◌else◌,
}
use mysql_redshift_agent.Text.{Text, Unicode, codes, strip, rstrip_semicolons, join}
use mysql_redshift_agent.Rules.{Directory, match_references, lookup_dialect_rule}
use mysql_redshift_agent.Extract.{extract_sql, is_untranslatable}
use mysql_redshift_agent.Knowledge.Table.{Table, Backend}
use mysql_redshift_agent.Knowledge.Store.{
  Config, Faults, Hit, retrieve_similar, format_examples_for_prompt,
}

pub record TranslateReq : Type 0 where
  pub sql : Text
  pub prev_error : Option Text
  pub prev_sql : Option Text

pub data Attempt : Type 0 where
  initial fix : Attempt

pub record Example (Score : Type 0) : Type 0 where
  pub similarity : Score
  pub mysql_sql : Text

pub record TranslateResp (Score : Type 0) : Type 0 where
  pub redshift_sql : Text
  pub used_rules : List Text
  pub latency_ms : ℕ
  pub attempt : Attempt
  pub examples_hit : ℕ
  pub examples : List (Example Score)

-- A value, or an HTTPException with its status and its detail.
pub data Response (A : Type 0) : Type 0 where
  ok : A → Response A
  http : ℕ → Text → Response A

-- The model's reply, or the text of the exception.
pub data Reply : Type 0 where
  said : Text → Reply
  raised : Text → Reply

-- The texts that `if x` takes for true.
unfoldable pub truthy : Option Text → Bool
truthy none = false
truthy (some []) = false
truthy (some (c ∷ s)) = true

unfoldable pub text_or_empty : Option Text → Text
text_or_empty none = []
text_or_empty (some s) = s

unfoldable pub has_any : List Text → Bool
has_any [] = false
has_any (x ∷ xs) = true

abbrev lines : List Text → Text
lines = join (10 ∷ [])

unfoldable pub fix_message : Text → Text → Text → Text → Text
fix_message sql prev_sql prev_error rules_blob = lines (
    codes "The previous translation failed on Redshift."
    ∷ []
    ∷ codes "ORIGINAL MySQL SQL:"
    ∷ sql
    ∷ []
    ∷ codes "PREVIOUS Redshift SQL (broken):"
    ∷ prev_sql
    ∷ []
    ∷ codes "REDSHIFT ERROR:"
    ∷ prev_error
    ∷ []
    ∷ rules_blob
    ∷ []
    ∷ codes "Please fix the Redshift SQL. Output only the corrected SQL."
    ∷ [])

unfoldable pub initial_message : Text → Text → Text → Text
initial_message sql rules_blob examples_blob = lines (
    codes "Translate the following MySQL SQL into Redshift SQL."
    ∷ []
    ∷ codes "MySQL SQL:"
    ∷ sql
    ∷ []
    ∷ rules_blob
    ∷ []
    ∷ examples_blob
    ∷ []
    ∷ codes "Output only the Redshift SQL (no explanation, no code fence)."
    ∷ [])

unfoldable pub attempt_of : TranslateReq → Attempt
attempt_of req = if truthy req.prev_error && truthy req.prev_sql then fix else initial

-- `req.sql.strip().rstrip(";")`
unfoldable pub clean_request : Text → Text
clean_request sql = rstrip_semicolons (strip sql)

-- `[{"similarity": …, "mysql_sql": e["mysql_sql"][:200]} for e in examples]`
unfoldable pub shown : {Score : Type 0} → List (Hit Score) → List (Example Score)
shown [] = []
shown (h ∷ hs) = record { similarity = h.similarity; mysql_sql = take 200 h.mysql_sql } ∷ shown hs

module _ (b : Backend) (u : Unicode) where
  -- The message to the model.
  unfoldable pub user_message : Directory → TranslateReq → List (Hit b.Score) → Text
  user_message dir req examples =
      let sql = clean_request req.sql in
      let rules_blob =
        if has_any (match_references u sql) then lookup_dialect_rule u dir sql else [] in
      if truthy req.prev_error && truthy req.prev_sql
      then fix_message sql (text_or_empty req.prev_sql) (text_or_empty req.prev_error) rules_blob
      else initial_message sql rules_blob (format_examples_for_prompt b examples)

  -- What follows the reply.
  unfoldable pub answer :
      TranslateReq → List (Hit b.Score) → ℕ → Reply → Response (TranslateResp b.Score)
  answer req examples latency_ms (raised e) = http 500 (codes "agent error: " ++ e)
  answer req examples latency_ms (said result) =
      let redshift_sql = extract_sql u (strip result) in
      if is_untranslatable u redshift_sql
      then http 422 redshift_sql
      else ok (record {
        redshift_sql = redshift_sql;
        used_rules = match_references u (clean_request req.sql);
        latency_ms = latency_ms;
        attempt = attempt_of req;
        examples_hit = length examples;
        examples = shown examples;
      })

module _ (b : Backend) (c : Config b.Score) where
  -- The retrieval, which a request with an error skips.
  unfoldable pub examples_for :
      Faults → ℕ → TranslateReq → Table b.Vector → List (Hit b.Score) × Table b.Vector
  examples_for fails now req t =
      if truthy req.prev_error
      then ([], t)
      else retrieve_similar b c fails now (clean_request req.sql) c.top_k c.threshold t

module _ (b : Backend) (u : Unicode) (dir : Directory) (c : Config b.Score)
    (ask : Text → Reply) where
  unfoldable pub translate :
      Faults
      → ℕ
      → ℕ
      → TranslateReq
      → Table b.Vector
      → Response (TranslateResp b.Score) × Table b.Vector
  translate fails now latency_ms req t =
      let (examples, t') = examples_for b c fails now req t in
      (answer b u req examples latency_ms (ask (user_message b u dir req examples)), t')
