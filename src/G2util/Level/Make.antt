-- ===== src/G2util/Level/Make.antt =====
-- g2util/level_logger.go: how a logger is made, and levels as texts.
use gof.Base.{ℕ, List, [], ◌∷◌, ◌++◌, Text, codes}
use gof.G2util.Level.{debug_level, marshal_text, parse_level}

-- `logger`, with the prefix and the output of the inner `log.Logger`; `O` is an `io.Writer`
pub record Logger (O : Type 0) : Type 0 where
  pub lvl : ℕ
  pub prefix : Text
  pub output : O

module _ {O : Type 0} where
  -- `NewLevelLogger`: the first output that is given, or the standard one
  unfoldable pub new_level_logger : O → Text → List O → Logger O
  new_level_logger stdout prefix [] = record {
    lvl = debug_level;
    prefix = codes "[L]" ++ (prefix ++ codes " ");
    output = stdout;
  }
  new_level_logger stdout prefix (o ∷ os) = record {
    lvl = debug_level;
    prefix = codes "[L]" ++ (prefix ++ codes " ");
    output = o;
  }

  -- `SetLevel`, `SetOutput` and `Writer`
  unfoldable pub set_level : ℕ → Logger O → Logger O
  set_level lvl l = record l { lvl = lvl }

  unfoldable pub set_output : O → Logger O → Logger O
  set_output o l = record l { output = o }

  unfoldable pub writer_of : Logger O → O
  writer_of l = l.output

-- `String`, whose error never comes
unfoldable pub level_string : ℕ → Text
unfolding marshal_text
level_string lvl = marshal_text lvl

-- `UnmarshalText`: what the level becomes
unfoldable pub unmarshal_text : Text → ℕ
unfolding parse_level
unmarshal_text text = parse_level text
