-- ===== src/Config/Tests.antt =====
-- A run of the configuration's check.
use database_gateway.Common.{◌≡◌, ◌↔◌, refl, ok}
use database_gateway.Config.{validate}
use database_gateway.Config.Laws.{IsValid, validate_iff}
use database_gateway.Config.Samples.{sample_config}

sample_validated : validate sample_config ≡ ok tt
unfolding validate
sample_validated = refl

validate_example : (validate sample_config ≡ ok tt) ↔ IsValid sample_config
validate_example = validate_iff sample_config
