-- ===== src/Service/Reference.antt =====
-- internal/service/reference.go
use go_ewallet_backend.Prelude.{String}
use go_ewallet_backend.Runtime.{random, Env, Exec, pure, or_raise, gets, ◌>>=◌}
use Prim.Native.String.{◌++◌ as concat}

-- `PREFIX-yyyymmddhhmmss-xxxxxxxx`
abbrev pub reference_name : String → String → String → String
reference_name prefix time hex = concat prefix (concat "-" (concat time (concat "-" hex)))

unfoldable pub generate_reference : Env → String → Exec String
generate_reference env prefix = do
  read ← gets (λ w. env.random_hex 4 w.clock)
  hex ← or_raise read random
  time ← gets (λ w. env.format_time (env.now w.clock))
  pure (reference_name prefix time hex)
