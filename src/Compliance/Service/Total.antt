-- ===== src/Compliance/Service/Total.antt =====
-- The evaluation of an audit ends with findings (backend/app/compliance/service.py).
use security_configuration_a.Base.{ℕ, ◌≡◌, true, false, not, Option, List, any, ◌==◌}
use security_configuration_a.Base.Result.{Result}
use security_configuration_a.Compliance.Policy.{OrganizationPolicyVersion}
use security_configuration_a.Compliance.Findings.{Audit, EffectiveState, UnresolvedBlock}
use security_configuration_a.Compliance.Judgement.{Judgement}
use security_configuration_a.Compliance.Service.{is_processing, crosses}

-- The refusals have nothing to refuse: the audit is being processed, and the policy, the states and
-- the blocks are its own.
unfoldable pub IsWithin :
    Audit
    → ℕ
    → Option OrganizationPolicyVersion
    → List EffectiveState
    → List UnresolvedBlock
    → Type 0
IsWithin audit organization_id policy states blocks =
    (is_processing audit ≡ true)
    × (crosses organization_id policy ≡ false)
    × (any (λ s. not (s.device_id == audit.device_id)) states ≡ false)
    × (any (λ b. not (b.audit_id == audit.audit_id)) blocks ≡ false)
