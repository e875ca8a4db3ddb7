-- ===== src/Compliance/Evaluator/Reading.antt =====
-- How a result that is a pass is taken apart.
use security_configuration_a.Base.{
  ◌≡◌, refl, ap, Bool, true, false, ◌&&◌, Option, none, some, String,
}
use security_configuration_a.Base.Result.{ok, or_refuse}
use security_configuration_a.Compliance.Evaluator.{pass, verdict_if}

pub passed : (b : Bool) → ok (verdict_if b) ≡ ok pass → b ≡ true
passed true h = refl
passed false h = cc

pub found :
    {A : Type 0} (o : Option A) (message : String) (a : A) → or_refuse o message ≡ ok a → o ≡ some a
found none message a h = cc
found (some b) message a h = ap some (let k : b ≡ a = cc in k)

pub and-true : (a b : Bool) → (a && b) ≡ true → (a ≡ true) × (b ≡ true)
and-true true b h = (refl, h)
and-true false b h = cc
