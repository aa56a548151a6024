-- ===== src/Proxy/Router.antt =====
-- proxy/internal/router/router.go. The parser of SQL is a parameter: the names of the tables in the tree of
-- a statement, lowercase and without their schema, or the text of an error.
use mysql_redshift_agent.Prelude.{
  Bool, false, ◌||◌, Option, none, some, List, [], ◌∷◌, ◌++◌, if◌then◌else◌,
}
use mysql_redshift_agent.Text.{Text, codes, text_eq}
use mysql_redshift_agent.Proxy.GoText.{Unicode, to_lower, trim_space, split_commas, is_empty}

pub data Destination : Type 0 where
  redshift mysql : Destination

pub data Parsed : Type 0 where
  tables : List Text → Parsed
  failed : Text → Parsed

-- `set[t]`
unfoldable pub has : Text → List Text → Bool
has t [] = false
has t (x ∷ xs) = text_eq t x || has t xs

-- `set[t] = struct{}{}`
unfoldable pub add_to_set : Text → List Text → List Text
unfolding has
add_to_set t xs = if has t xs then xs else t ∷ xs

pub record Router : Type 0 where
  pub whitelist : List Text

module _ (u : Unicode) where
  unfoldable pub listed : Text → Text
  listed t = trim_space (to_lower u t)

  -- The loop of `New`
  unfoldable pub whitelist_from : List Text → List Text → List Text
  unfolding listed
  whitelist_from m [] = m
  whitelist_from m (t ∷ ts) =
      whitelist_from (if is_empty (listed t) then m else add_to_set (listed t) m) ts

  -- `New`
  unfoldable pub new_router : Text → Router
  unfolding whitelist_from
  new_router csv = record { whitelist = whitelist_from [] (split_commas csv) }

-- The tables that the collector has met; the order of a Go map is not fixed.
unfoldable pub collect_tables : List Text → List Text → List Text
unfolding add_to_set
collect_tables seen [] = seen
collect_tables seen (t ∷ ts) = collect_tables (add_to_set t seen) ts

unfoldable pub collected : Parsed → Parsed
unfolding collect_tables
collected (failed e) = failed e
collected (tables ts) = tables (collect_tables [] ts)

-- `ExtractTables`
unfoldable pub extract_tables : (Text → Parsed) → Text → Parsed
unfolding collected
extract_tables parse sql = collected (parse sql)

-- The loop of `Route`: the first table that is not on the list
unfoldable pub first_unlisted : List Text → List Text → Option Text
unfolding has
first_unlisted whitelist [] = none
first_unlisted whitelist (t ∷ ts) = if has t whitelist then first_unlisted whitelist ts else some t

pub record Routed : Type 0 where
  pub destination : Destination
  pub referenced : List Text
  pub reason : Text

-- Where the statement goes, by the first unlisted table
unfoldable pub routed_by : List Text → Option Text → Routed
routed_by ts none = record {
  destination = redshift;
  referenced = ts;
  reason = codes "all tables in whitelist -> redshift";
}
routed_by ts (some x) = record {
  destination = mysql;
  referenced = ts;
  reason = codes "table '" ++ (x ++ codes "' not in whitelist -> mysql");
}

unfoldable pub route_tables : List Text → List Text → Routed
unfolding routed_by
route_tables whitelist [] = record {
  destination = redshift;
  referenced = [];
  reason = codes "no table referenced";
}
route_tables whitelist (t ∷ ts) = routed_by (t ∷ ts) (first_unlisted whitelist (t ∷ ts))

unfoldable pub route_parsed : List Text → Parsed → Routed
unfolding route_tables
route_parsed whitelist (failed e) = record {
  destination = redshift;
  referenced = [];
  reason = codes "parse failed, falling back to redshift: " ++ e;
}
route_parsed whitelist (tables ts) = route_tables whitelist ts

unfoldable pub route_listed : (Text → Parsed) → List Text → Text → Routed
unfolding extract_tables route_parsed
route_listed parse [] sql = record {
  destination = redshift;
  referenced = [];
  reason = codes "whitelist empty (all -> redshift)";
}
route_listed parse (w ∷ ws) sql = route_parsed (w ∷ ws) (extract_tables parse sql)

-- `Route`
unfoldable pub route : (Text → Parsed) → Router → Text → Routed
unfolding route_listed
route parse r sql = route_listed parse r.whitelist sql
