-- ===== src/External/Aggregate.antt =====
-- MongoDB's aggregation pipelines, as far as the program builds them. The database runs them.
use vnst_be.Base.{ℕ, List, Text}

-- `property p` is "$p".
pub data Expression : Type 0 where
  null_value : Expression
  property : Text → Expression
  string : Text → Expression
  whole : ℕ → Expression
  to_double : Expression → Expression
  divide : Expression → Expression → Expression
  subtract : Expression → Expression → Expression
  equal : Expression → Expression → Expression
  cond : Expression → Expression → Expression → Expression

pub data Stage : Type 0 where
  -- `$match: { property: value }`
  match_equal : Text → Text → Stage
  -- `$match: { property: { $in: values } }`
  match_in : Text → List Text → Stage
  add_fields : List (Text × Expression) → Stage
  -- `$group`: the expression of `_id` and, for each further property, the expression that `$sum` adds up
  group_sum : Expression → List (Text × Expression) → Stage
  project : List (Text × Expression) → Stage
