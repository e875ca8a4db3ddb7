-- ===== src/Compliance/Evidence.antt =====
-- The evidence of a state (`state_evidence` of backend/app/compliance/service.py). A reference is
-- known by `repr(sorted(reference.items()))`, which tells two dictionaries apart unless they have the
-- same entries, types included.
use security_configuration_a.Base.{
  ℕ, Bool, true, false, ◌&&◌, List, [], ◌∷◌, ◌++◌, if◌then◌else◌, ◌==◌, keep,
}
use security_configuration_a.Base.Str.{text_eq, text_le, Text}
use security_configuration_a.Base.Json.{
  Json, json_null, json_bool, json_int, json_str, json_list, json_dict, ℤ, pos, negsuc, Items, nil,
  item, Fields, end, field,
}
use security_configuration_a.Base.Sets.{member}
use security_configuration_a.Compliance.Findings.{EffectiveState, SecurityFactRow}

abbrev same_int : ℤ → ℤ → Bool
same_int (pos m) (pos n) = m == n
same_int (negsuc m) (negsuc n) = m == n
same_int _ _ = false

abbrev same_bool : Bool → Bool → Bool
same_bool true true = true
same_bool false false = true
same_bool _ _ = false

-- Equality of what `repr` writes.
mutual
  same : Json → Json → Bool
  same json_null json_null = true
  same (json_bool b) (json_bool c) = same_bool b c
  same (json_int m) (json_int n) = same_int m n
  same (json_str s) (json_str t) = text_eq s t
  same (json_list js) (json_list ks) = same_items js ks
  same (json_dict d) (json_dict e) = same_fields d e
  same _ _ = false

  same_items : Items → Items → Bool
  same_items nil nil = true
  same_items (item j js) (item k ks) = same j k && same_items js ks
  same_items _ _ = false

  same_fields : Fields → Fields → Bool
  same_fields end end = true
  same_fields (field k v d) (field l w e) = text_eq k l && same v w && same_fields d e
  same_fields _ _ = false

insert_field : Text → Json → Fields → Fields
insert_field k v end = field k v end
insert_field k v (field l w rest) =
    let later = insert_field k v rest in
    if text_le k l then field k v (field l w rest) else field l w later

-- `sorted(reference.items())`: a dictionary has no key twice.
sorted_fields : Fields → Fields
unfolding insert_field
sorted_fields end = end
sorted_fields (field k v rest) = insert_field k v (sorted_fields rest)

unfoldable pub same_reference : Fields → Fields → Bool
unfolding same_fields sorted_fields
same_reference d e = same_fields (sorted_fields d) (sorted_fields e)

-- `unique[key] = reference`: a known key keeps its place.
unfoldable pub put_reference : Fields → List Fields → List Fields
unfolding same_reference
put_reference d [] = d ∷ []
put_reference d (e ∷ es) =
    let later = put_reference d es in if same_reference d e then d ∷ es else e ∷ later

unfoldable pub put_references : List Json → List Fields → List Fields
unfolding put_reference
put_references [] unique = unique
put_references (json_dict d ∷ js) unique = put_references js (put_reference d unique)
put_references (_ ∷ js) unique = put_references js unique

-- `evidence_by_fact.get(fact_id, [])`
unfoldable pub evidence_by_fact : ℕ → List SecurityFactRow → List Json
evidence_by_fact fact_id [] = []
evidence_by_fact fact_id (f ∷ fs) =
    if f.fact_id == fact_id then f.evidence_refs else evidence_by_fact fact_id fs

evidence_from : List SecurityFactRow → List ℕ → List Fields → List Fields
unfolding put_references evidence_by_fact
evidence_from facts [] unique = unique
evidence_from facts (fact_id ∷ ids) unique =
    evidence_from facts ids (put_references (evidence_by_fact fact_id facts) unique)

unfoldable pub state_evidence : List SecurityFactRow → EffectiveState → List Fields
unfolding evidence_from
state_evidence facts state = evidence_from facts state.source_fact_ids []

-- `reference for reference in block.evidence_refs if isinstance(reference, dict)`
unfoldable pub dictionaries : List Json → List Fields
dictionaries [] = []
dictionaries (json_dict d ∷ js) = d ∷ dictionaries js
dictionaries (_ ∷ js) = dictionaries js

-- The ids of the facts behind the states, and the facts of the audit that have one.
unfoldable pub fact_ids : List EffectiveState → List ℕ
fact_ids [] = []
fact_ids (s ∷ ss) = s.source_fact_ids ++ fact_ids ss

unfoldable pub audit_facts : ℕ → List EffectiveState → List SecurityFactRow → List SecurityFactRow
unfolding fact_ids
audit_facts audit_id states =
    keep (λ f. f.audit_id == audit_id && member f.fact_id (fact_ids states))
