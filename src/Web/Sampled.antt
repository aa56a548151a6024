-- ===== src/Web/Sampled.antt =====
-- What the console answers to its own samples.
use mysql_redshift_agent.Prelude.{
  ℕ, ◌≡◌, ◌≢◌, refl, inl, inr, Bool, true, not, ◌&&◌, List, [], ◌∷◌, ◌++◌, All, both_true, not-true,
}
use mysql_redshift_agent.Text.{
  Text, Unicode, codes, text_eq, is_space, lstrip, rstrip_by, rstrip, rstrip_semicolons, strip,
  join,
}
use mysql_redshift_agent.Text.Laws.{text_eq_iff}
use mysql_redshift_agent.Value.{Runtime}
use mysql_redshift_agent.Knowledge.Store.{is_empty}
use mysql_redshift_agent.Service.Translate.{ok, clean_request}
use mysql_redshift_agent.Web.Run.{Display}
use mysql_redshift_agent.Web.Handlers.{
  QueryResp, Servers, unknown, source_of, clean_source, api_query,
}
use mysql_redshift_agent.Web.Answers.{Answers, api_query-Answers}
use mysql_redshift_agent.Web.Samples.{Sample, SampleGroup, samples, api_samples}

-- A statement, and nothing but a semicolon behind it.
is_one_statement : Text → Bool
is_one_statement sql =
    not (is_empty (clean_request sql)) && text_eq sql (clean_request sql ++ codes ";")

all_one_statement : List Sample → Bool
all_one_statement [] = true
all_one_statement (x ∷ items) = is_one_statement x.sql && all_one_statement items

all_groups : List SampleGroup → Bool
all_groups [] = true
all_groups (g ∷ groups) = all_one_statement g.items && all_groups groups

samples_hold : all_groups samples ≡ true
unfolding all_groups all_one_statement is_one_statement clean_request join text_eq is_empty strip
    rstrip_semicolons rstrip_by rstrip lstrip is_space
samples_hold = refl

module _ (r : Runtime) (s : Display r) (max_rows : ℕ) (u : Unicode) (servers : Servers r)
    (source : Text) (known : source_of (clean_source u source) ≢ unknown) where
  -- A sample is run as it is, without its semicolon, on the server of the source.
  abbrev pub IsAnswered : Sample → Type 0
  IsAnswered x =
      (x.sql ≡ clean_request x.sql ++ codes ";")
      × ((resp : QueryResp r) × (api_query r s u max_rows servers
              (record { source = source; sql = x.sql })
            ≡ ok resp)
          × Answers r s max_rows u servers (clean_request x.sql) (clean_source u source)
              (source_of (clean_source u source)) resp)

  sample-IsAnswered : (x : Sample) → is_one_statement x.sql ≡ true → IsAnswered x
  unfolding is_one_statement
  sample-IsAnswered x h =
      let (filled, whole) = both_true (not (is_empty (clean_request x.sql))) _ h in
      (
        (text_eq_iff x.sql (clean_request x.sql ++ codes ";")).0 whole,
        elim (api_query-Answers r s max_rows u servers (record { source = source; sql = x.sql })) [
          | inl (empty, _) ↦ absurd (cc (not-true (is_empty (clean_request x.sql)) filled))
          | inr (inl (stranger, _)) ↦ absurd (known stranger)
          | inr (inr answer) ↦ answer
        ],
      )

  items-IsAnswered : (items : List Sample) → all_one_statement items ≡ true → All IsAnswered items
  unfolding all_one_statement
  items-IsAnswered [] h = tt
  items-IsAnswered (x ∷ items) h =
      (sample-IsAnswered x (both_true _ _ h).0, items-IsAnswered items (both_true _ _ h).1)

  groups-IsAnswered :
      (groups : List SampleGroup)
      → all_groups groups ≡ true
      → All (λ g. All IsAnswered g.items) groups
  unfolding all_groups
  groups-IsAnswered [] h = tt
  groups-IsAnswered (g ∷ groups) h =
      (items-IsAnswered g.items (both_true _ _ h).0, groups-IsAnswered groups (both_true _ _ h).1)

  -- Every sample of the list is one statement with its semicolon, and a query of it on a known source is
  -- answered with the run of that statement on the source's server, never with a status 400.
  pub api_samples-IsAnswered : All (λ g. All IsAnswered g.items) api_samples
  unfolding api_samples
  api_samples-IsAnswered = groups-IsAnswered samples samples_hold
