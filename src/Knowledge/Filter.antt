-- ===== src/Knowledge/Filter.antt =====
-- `_is_low_value` of agent/tools/sql_knowledge.py.
use mysql_redshift_agent.Prelude.{
  ℕ, zero, suc, Bool, true, false, Option, none, some, List, [], ◌∷◌, length, ltb, if◌then◌else◌,
}
use mysql_redshift_agent.Text.{Text, Unicode, codes, strip}
use mysql_redshift_agent.Regex.{Regex, seq, star, boundary, bol, space, alternatives, matches_here}
use mysql_redshift_agent.Value.{ℤ, pos, negsuc}

-- The three reasons.
pub data LowValue : Type 0 where
  no_rows : LowValue
  too_short : ℕ → LowValue
  management : LowValue

abbrev pub min_redshift_sql_len : ℕ
min_redshift_sql_len = 30

abbrev pub management_words : List Text
management_words =
    codes "SHOW" ∷ codes "USE" ∷ codes "BEGIN" ∷ codes "COMMIT" ∷ codes "ROLLBACK" ∷ []

-- `_LOW_VALUE_PREFIX`
unfoldable pub low_value_prefix : Regex
low_value_prefix =
    seq bol (seq (star space) (seq (alternatives (codes "SET") management_words) boundary))

-- `row_count == 0`
unfoldable pub is_zero : Option ℤ → Bool
is_zero (some (pos zero)) = true
is_zero (some (pos (suc n))) = false
is_zero (some (negsuc n)) = false
is_zero none = false

unfoldable pub is_low_value : Unicode → Text → Text → Option ℤ → Option LowValue
unfolding is_zero
is_low_value u mysql_sql redshift_sql row_count =
    if is_zero row_count
    then some no_rows
    else if ltb (length (strip redshift_sql)) min_redshift_sql_len
    then some (too_short (length (strip redshift_sql)))
    else if matches_here u low_value_prefix mysql_sql
    then some management
    else none
