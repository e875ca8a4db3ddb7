-- ===== src/Compliance/Evaluator/Collections.antt =====
-- Passes of collections.
use security_configuration_a.Base.{
  ◌≡◌, refl, sym, ap, subst, ◌∙◌, inl, inr, true, false, not, Option, none, some, List, [], ◌∷◌,
  Text, codes, In, All, all, arith, Bool-cases, is_empty, map,
}
use security_configuration_a.Base.Str.{text_eq, eq_of_text_eq, mem_text}
use security_configuration_a.Base.Json.{
  Json, json_str, json_list, json_dict, Items, nil, item, array_of, Fields, get, items,
}
use security_configuration_a.Base.Result.{Result, ok, ◌>>=◌, refuse_if, map_result, >>=-eq-ok}
use security_configuration_a.Compliance.Evaluator.{
  FindingVerdict, pass, verdict_if, has_type, member_text, collection_member, collection, non_empty,
  allowed_text, allow_list, all_members_in_parameter_set,
}
use security_configuration_a.Compliance.Evaluator.Reading.{passed, and-true}

-- Each member of the collection is a dictionary whose value is an allowed text.
abbrev pub AllowedMember : List Text → Json → Type 0
AllowedMember allowed member =
    (d : Fields) × (s : Text) × (member ≡ json_dict d)
    × (get (codes "value") d ≡ some (json_str s))
    × In s allowed

pub record AllAllowed (candidate parameter : Json) : Type 0 where
  pub members : Items
  pub allowed : List Text
  pub is_candidate : candidate ≡ json_list members
  pub is_parameter : parameter ≡ json_list (array_of (map json_str allowed))
  pub each : All (AllowedMember allowed) (items members)

In-mem_text : (s : Text) (ts : List Text) → mem_text s ts ≡ true → In s ts
unfolding mem_text
In-mem_text s [] h = cc
In-mem_text s (t ∷ ts) h = elim (Bool-cases (text_eq s t)) [
  | inl e ↦ inl (eq_of_text_eq s t e)
  | inr e ↦ inr (In-mem_text s ts (unfold mem_text in ground arith))
]

member-text :
    (j : Json) (s : Text)
    → collection_member j ≡ ok s
    → (d : Fields) × (j ≡ json_dict d) × (get (codes "value") d ≡ some (json_str s))
unfolding collection_member member_text
member-text (json_dict d) s h = (d, refl, of_text (get (codes "value") d) h)
  where
    of_text : (o : Option Json) → member_text o ≡ ok s → o ≡ some (json_str s)
    of_text (some (json_str t)) h = ap (λ t. some (json_str t)) (let k : t ≡ s = cc in k)
    of_text none h = cc
    of_text (some _) h = cc
member-text _ s h = cc

each-allowed :
    (allowed : List Text) (js : List Json) (members : List Text)
    → map_result collection_member js ≡ ok members
    → all (λ m. mem_text m allowed) members ≡ true
    → All (AllowedMember allowed) js
each-allowed allowed [] members h a = tt
each-allowed allowed (j ∷ js) members h a =
    let (s, e, h) =
      >>=-eq-ok (collection_member j) (λ s. map_result collection_member js >>= λ ss. ok (s ∷ ss))
        h in
    let (ss, k, h) = >>=-eq-ok (map_result collection_member js) (λ ss. ok (s ∷ ss)) h in
    let same : s ∷ ss ≡ members = cc in
    let (first, rest) =
      and-true (mem_text s allowed) (all (λ m. mem_text m allowed) ss)
        (subst (λ ms. all (λ m. mem_text m allowed) ms ≡ true) (sym same) a) in
    let (d, is_dict, value) = member-text j s e in
    ((d, s, is_dict, value, In-mem_text s allowed first), each-allowed allowed js ss k rest)

texts_of :
    (js : Items) (ts : List Text)
    → map_result allowed_text (items js) ≡ ok ts
    → js ≡ array_of (map json_str ts)
unfolding allowed_text
texts_of nil ts h = ap (λ ts. array_of (map json_str ts)) (let k : [] ≡ ts = cc in k)
texts_of (item j js) ts h =
    let (s, e, h) =
      >>=-eq-ok (allowed_text j) (λ s. map_result allowed_text (items js) >>= λ ss. ok (s ∷ ss))
        h in
    let (ss, k, h) = >>=-eq-ok (map_result allowed_text (items js)) (λ ss. ok (s ∷ ss)) h in
    let same : s ∷ ss ≡ ts = cc in
    subst (λ ts. item j js ≡ array_of (map json_str ts)) same
      (ap (λ k. item k js) (of_text j s e) ∙ ap (item (json_str s)) (texts_of js ss k))
  where
    of_text : (j : Json) (s : Text) → allowed_text j ≡ ok s → j ≡ json_str s
    of_text (json_str t) s h = ap json_str (let k : t ≡ s = cc in k)
    of_text _ s h = cc

-- A candidate that is read as a collection is a list.
collection-list :
    (value_type candidate : Json) (members : List Text)
    → collection value_type candidate ≡ ok members
    → (js : Items) × (candidate ≡ json_list js)
      × (map_result collection_member (items js) ≡ ok members)
unfolding collection
collection-list value_type (json_list js) members h =
    let (u, e, h) =
      >>=-eq-ok {A = Unit {0}}
        (refuse_if (not (has_type (codes "list" ∷ []) value_type))
          "TypedValue is incompatible with collection rule")
        (λ _. map_result collection_member (items js)) h in
    (js, refl, h)
collection-list value_type _ members h = cc

allow_list-texts :
    (parameter : Json) (allowed : List Text)
    → allow_list parameter ≡ ok allowed
    → parameter ≡ json_list (array_of (map json_str allowed))
unfolding allow_list
allow_list-texts (json_list js) allowed h = ap json_list (texts_of js allowed h)
allow_list-texts _ allowed h = cc

pub all_members-AllAllowed :
    (value_type candidate parameter : Json)
    → all_members_in_parameter_set value_type candidate parameter ≡ ok pass
    → AllAllowed candidate parameter
unfolding all_members_in_parameter_set
all_members-AllAllowed value_type candidate parameter h =
    let verdict : List Text → List Text → Result FindingVerdict =
      λ ms allowed. ok (verdict_if (all (λ m. mem_text m allowed) ms)) in
    let (ms, e, h) =
      >>=-eq-ok (collection value_type candidate) (λ ms. allow_list parameter >>= verdict ms) h in
    let (allowed, k, h) = >>=-eq-ok (allow_list parameter) (verdict ms) h in
    let (js, is_list, read) = collection-list value_type candidate ms e in
    record {
      members = js;
      allowed = allowed;
      is_candidate = is_list;
      is_parameter = allow_list-texts parameter allowed k;
      each = each-allowed allowed (items js) ms read (passed (all (λ m. mem_text m allowed) ms) h);
    }

pub non_empty-item :
    (value_type candidate : Json)
    → non_empty value_type candidate ≡ ok pass
    → (j : Json) × (js : Items) × (candidate ≡ json_list (item j js))
unfolding non_empty
non_empty-item value_type candidate h =
    let (ms, e, h) =
      >>=-eq-ok (collection value_type candidate) (λ ms. ok (verdict_if (not (is_empty ms)))) h in
    let (js, is_list, read) = collection-list value_type candidate ms e in
    let (j, rest, full) = filled js ms read (passed (not (is_empty ms)) h) in
    (j, rest, is_list ∙ ap json_list full)
  where
    filled :
        (js : Items) (ms : List Text)
        → map_result collection_member (items js) ≡ ok ms
        → not (is_empty ms) ≡ true
        → (j : Json) × (rest : Items) × (js ≡ item j rest)
    filled nil ms h n =
        let same : [] ≡ ms = cc in
        absurd (let k : false ≡ true = subst (λ ms. not (is_empty ms) ≡ true) (sym same) n in cc)
    filled (item j js) ms h n = (j, js, refl)
