-- ===== src/Domain/Errors.antt =====
-- The typed failures of src/domain/mod.rs. Static texts (`what`, `field`) and echoed inputs are
-- kept; a `detail` that the source formats for people out of the refused numbers is left out.
use verdant.Base.{ℕ, String}

pub data Error : Type 0 where
  empty : String → Error
  too_long : String → ℕ → ℕ → Error
  bad_chars invalid_value : String → String → Error
  missing_field unexpected_field : String → Error
  unexpected_type : String → String → Error
  impossible_order impossible_elapsed : Error
  boot_mismatch : String → String → Error
  json : String → Error
