-- ===== src/Core/Decisions.antt =====
-- crates/risk-core/src/quickscorer/decision.rs: thresholds and the final decision of a cascade.
use riskanvil.Base.{Bool, true, false, Option, none, some}
use riskanvil.Base.Float.{Float32, ge}
use riskanvil.Core.Schema.{Decision, allow, manual_review, deny}

module _ {F : Type 0} ⦃f : Float32 F⦄ where
  unfoldable pub l1_is_pass : F → F → Bool
  l1_is_pass score threshold = ge score threshold

  unfoldable pub l2_is_reject : F → F → Bool
  l2_is_reject score threshold = ge score threshold

unfoldable pub final_decision : Bool → Option Bool → Decision
final_decision true l2_reject = allow
final_decision false (some true) = deny
final_decision false (some false) = manual_review
final_decision false none = manual_review
