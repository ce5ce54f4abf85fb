-- ===== src/Telemetry/Console.antt =====
-- Which output of the console a log entry goes to.
use envoy_mcp_openapi_proces.Common.{Bool, [], arith, false, if◌then◌else◌, true, ◌∷◌, ◌≡◌}
use envoy_mcp_openapi_proces.Telemetry.{create_console_core, stderr, stdout}

module _ {Level : Type 0} (less : Level → Level → Bool) (error_level : Level) where
  -- For an order in which what is below a level is below all that is not below it: up to the level
  -- `error`, an entry is written exactly if it is not below the level, once, and to the standard
  -- error if it is not below `error`. A level above `error` does not silence the entries from `error`
  -- on that are below it: they are written to the standard error.
  pub create_console_core-Writes :
      ((a b c : Level) → less a b ≡ true → less c b ≡ false → less a c ≡ true)
      → (level entry : Level)
      → (less error_level level ≡ false
          → create_console_core less error_level level entry ≡ (
              if less entry level
              then []
              else if less entry error_level
              then stdout ∷ []
              else stderr ∷ []))
        × (less entry error_level ≡ false
            → less entry level ≡ true
            → create_console_core less error_level level entry ≡ stderr ∷ [])
  unfolding create_console_core
  create_console_core-Writes below level entry =
      (λ low. ground (arith, below entry level error_level), λ high hidden. ground arith)
