-- ===== src/Calls/Rules.antt =====
-- frontend/src/features/rules/api.ts
use lapor_kos.Prelude.{String, ◌^^◌}
use lapor_kos.Calls.{Call, call, with_method, with_body}

pub data RuleCall (P : Type 0) : Type 0 where
  fetch_rules fetch_rule_templates fetch_active_rules fetch_rule_versions : RuleCall P
  fetch_rule_version : (version_id : String) → RuleCall P
  save_draft_rules : (req : P) → RuleCall P
  publish_rule_version : (version_id : String) (req : P) → RuleCall P
  acknowledge_rules : (req : P) → RuleCall P
  fetch_rule_acknowledgments : (version_id : String) → RuleCall P

module _ {P : Type 0} (stringify : P → String) where
  unfoldable pub rule_call : RuleCall P → Call
  rule_call fetch_rules = call "/api/rules"
  rule_call fetch_rule_templates = call "/api/rules/templates"
  rule_call fetch_active_rules = call "/api/rules/active"
  rule_call fetch_rule_versions = call "/api/rules/versions"
  rule_call (fetch_rule_version version_id) = call ("/api/rules/versions/" ^^ version_id)
  rule_call (save_draft_rules req) =
      with_body (stringify req) (with_method "POST" (call "/api/rules/draft"))
  rule_call (publish_rule_version version_id req) =
      with_body (stringify req)
        (with_method "POST" (call ("/api/rules/versions/" ^^ version_id ^^ "/publish")))
  rule_call (acknowledge_rules req) =
      with_body (stringify req) (with_method "POST" (call "/api/rules/active/acknowledge"))
  rule_call (fetch_rule_acknowledgments version_id) =
      call ("/api/rules/versions/" ^^ version_id ^^ "/acknowledgments")
