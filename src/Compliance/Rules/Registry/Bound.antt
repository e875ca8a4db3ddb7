-- ===== src/Compliance/Rules/Registry/Bound.antt =====
-- What a registry that was built holds (backend/app/compliance/rule_registry.py).
use security_configuration_a.Base.{
  ℕ, ◌≡◌, refl, Bool, true, false, ◌||◌, Option, none, some, List, [], ◌∷◌, ◌++◌, Text, keep,
  In-keep, sym, arith, All, In, In-All, All-map, Bool-cases, inl, inr, is_some, Option-cases, subst,
  ap, String, ◌⊎◌, All-append,
}
use security_configuration_a.Base.Str.{text_eq, mem_text, text_eq_iff, text_eq_refl, eq_of_text_eq}
use security_configuration_a.Base.Result.{Result, ok, ◌>>=◌, ◌>>◌, refuse_if, >>=-eq-ok}
use security_configuration_a.Compliance.Rules.{RulePack, validate_pack}
use security_configuration_a.Compliance.Rules.Registry.{
  pack_with_id, pack_eq, differs, pack_named, load_packs, Active, of_profile, selected_pack,
  active_pack, configured_for, profiles_of, bind_profiles, RuleRegistry, new_registry, bound_to,
  pack_for_profile,
}

-- The pack of this identifier is the pack, or equals it.
unfoldable pub IsFound : List RulePack → RulePack → Type 0
IsFound packs p =
    (e : RulePack) × (pack_with_id p.rule_pack_version_id packs ≡ some e)
    × ((e ≡ p) ⊎ (pack_eq e p ≡ true))

-- The pack is valid and is found by its identifier.
unfoldable pub IsLoaded : List RulePack → RulePack → Type 0
IsLoaded packs p = (validate_pack p ≡ ok tt) × IsFound packs p

-- A binding names a pack of its profile among the packs.
unfoldable pub IsBinding : List RulePack → Text × RulePack → Type 0
IsBinding packs (profile, p) = In p packs × (p.profile_version_id ≡ profile)

-- Every pack is valid and found, its profile is bound, and profiles are bound to packs of theirs.
unfoldable pub IsRegistry : RuleRegistry → Type 0
IsRegistry r =
    All (IsLoaded r.packs) r.packs
    × All (λ p. is_some (pack_for_profile r p.profile_version_id) ≡ true) r.packs
    × All (IsBinding r.packs) r.by_profile

pack_with_id-append :
    (version_id : ℕ) (xs ys : List RulePack) {e : RulePack}
    → pack_with_id version_id xs ≡ some e
    → pack_with_id version_id (xs ++ ys) ≡ some e
unfolding pack_with_id
pack_with_id-append version_id [] ys h = cc
pack_with_id-append version_id (x ∷ xs) ys {e} h =
    ground (arith, pack_with_id-append version_id xs ys {e = e})

pack_with_id-last :
    (version_id : ℕ) (xs : List RulePack) (q : RulePack)
    → pack_with_id version_id xs ≡ none
    → q.rule_pack_version_id ≡ version_id
    → pack_with_id version_id (xs ++ q ∷ []) ≡ some q
unfolding pack_with_id
pack_with_id-last version_id [] q h e = ground arith
pack_with_id-last version_id (x ∷ xs) q h e = ground (arith, pack_with_id-last version_id xs q)

IsLoaded-append : (xs : List RulePack) (q p : RulePack) → IsLoaded xs p → IsLoaded (xs ++ q ∷ []) p
unfolding IsLoaded IsFound
IsLoaded-append xs q p (v, (e, found, same)) =
    (v, (e, pack_with_id-append p.rule_pack_version_id xs (q ∷ []) found, same))

All-IsLoaded-append :
    (xs : List RulePack) (q : RulePack) (ps : List RulePack)
    → All (IsLoaded xs) ps
    → All (IsLoaded (xs ++ q ∷ [])) ps
All-IsLoaded-append xs q [] h = tt
All-IsLoaded-append xs q (p ∷ ps) h = (IsLoaded-append xs q p h.0, All-IsLoaded-append xs q ps h.1)

IsFound-last :
    (xs : List RulePack) (q : RulePack)
    → differs q (pack_with_id q.rule_pack_version_id xs) ≡ false
    → IsFound (xs ++ q ∷ []) q
unfolding IsFound
IsFound-last xs q h = elim (Option-cases (pack_with_id q.rule_pack_version_id xs)) [
  | inl e ↦ (q, pack_with_id-last q.rule_pack_version_id xs q e refl, inl refl)
  | inr (p, e) ↦ (
    p,
    pack_with_id-append q.rule_pack_version_id xs (q ∷ []) e,
    inr (ground (arith, ap (differs q) e)),
  )
]

guards-open : (t u : Bool) (m : String) → refuse_if (t || u) m ≡ ok tt → (t ≡ false) × (u ≡ false)
guards-open t u m h = ground arith

load_packs-IsLoaded :
    (loaded packs : List RulePack) {result : List RulePack}
    → All (IsLoaded loaded) loaded
    → load_packs loaded packs ≡ ok result
    → All (IsLoaded result) result
unfolding load_packs IsLoaded
load_packs-IsLoaded loaded [] {result} valid h =
    let e : loaded ≡ result = cc in subst (λ r. All (IsLoaded r) r) e valid
load_packs-IsLoaded loaded (pack ∷ packs) {result} valid h =
    let clash : Bool =
      differs pack (pack_with_id pack.rule_pack_version_id loaded)
      || differs pack (pack_named pack.name pack.version loaded) in
    let guarded : Result (List RulePack) =
      refuse_if clash "Rule pack version content conflicts"
      >> load_packs (loaded ++ pack ∷ []) packs in
    let (u, v, h1) = >>=-eq-ok {A = Unit {0}} (validate_pack pack) (λ done. guarded) h in
    let (w, c, h2) =
      >>=-eq-ok {A = Unit {0}} (refuse_if clash "Rule pack version content conflicts")
        (λ done. load_packs (loaded ++ pack ∷ []) packs) h1 in
    let (same, named) =
      guards-open (differs pack (pack_with_id pack.rule_pack_version_id loaded))
        (differs pack (pack_named pack.name pack.version loaded))
        "Rule pack version content conflicts" c in
    load_packs-IsLoaded (loaded ++ pack ∷ []) packs
      (All-append (IsLoaded (loaded ++ pack ∷ [])) loaded (pack ∷ [])
        (All-IsLoaded-append loaded pack loaded valid) ((v, IsFound-last loaded pack same), tt))
      h2

selected_pack-eq :
    (packs : List RulePack) (profile : Text) (o : Option RulePack) {p : RulePack}
    → selected_pack packs profile o ≡ ok p
    → (o ≡ some p) × (p.profile_version_id ≡ profile)
unfolding selected_pack
selected_pack-eq packs profile none h = cc
selected_pack-eq packs profile (some q) h =
    ground (arith, eq_of_text_eq q.profile_version_id profile)

In-pack_with_id :
    (version_id : ℕ) (packs : List RulePack) {p : RulePack}
    → pack_with_id version_id packs ≡ some p
    → In p packs
unfolding pack_with_id
In-pack_with_id version_id [] h = cc
In-pack_with_id version_id (x ∷ xs) {p} h = ground (arith, In-pack_with_id version_id xs {p = p})

-- What the second loop chooses for a profile is one of the packs of that profile.
active_pack-IsBinding :
    (packs : List RulePack) (profile : Text) (candidates : List RulePack) (configured : Option ℕ)
    {p : RulePack}
    → ((q : RulePack) → In q candidates → In q (keep (of_profile profile) packs))
    → active_pack packs profile candidates configured ≡ ok p
    → IsBinding packs (profile, p)
unfolding active_pack IsBinding
active_pack-IsBinding packs profile [] none among h = cc
active_pack-IsBinding packs profile (q ∷ []) none {p} among h =
    let e : q ≡ p = cc in
    let (i, t) = In-keep (of_profile profile) p packs (among p (inl (sym e))) in
    (i, eq_of_text_eq p.profile_version_id profile t)
active_pack-IsBinding packs profile (q ∷ r ∷ rest) none among h = cc
active_pack-IsBinding packs profile candidates (some version_id) {p} among h =
    let (e, t) = selected_pack-eq packs profile (pack_with_id version_id packs) {p = p} h in
    (In-pack_with_id version_id packs e, t)

text_eq_sym : (s t : Text) → text_eq s t ≡ true → text_eq t s ≡ true
text_eq_sym s t h = (text_eq_iff t s).1 (sym (eq_of_text_eq s t h))

bound_to-next :
    (profile : Text) (p : RulePack) (rest : List (Text × RulePack)) (profiles : List Text)
    (q : Text)
    → (mem_text q profiles ≡ true → is_some (bound_to q rest) ≡ true)
    → mem_text q (profile ∷ profiles) ≡ true
    → is_some (bound_to q ((profile, p) ∷ rest)) ≡ true
unfolding bound_to mem_text
bound_to-next profile p rest profiles q later i = elim (Bool-cases (text_eq profile q)) [
  | inl e ↦ rw e refl
  | inr e ↦ ground (arith, text_eq_sym q profile)
]

bind_profiles-IsBinding :
    (packs : List RulePack) (active : Active) (profiles : List Text)
    {bound : List (Text × RulePack)}
    → bind_profiles packs active profiles ≡ ok bound
    → All (IsBinding packs) bound
      × ((profile : Text)
          → mem_text profile profiles ≡ true
          → is_some (bound_to profile bound) ≡ true)
unfolding bind_profiles bound_to mem_text
bind_profiles-IsBinding packs active [] {bound} h =
    let e : [] ≡ bound = cc in (subst (All (IsBinding packs)) e tt, λ p i. cc)
bind_profiles-IsBinding packs active (profile ∷ profiles) {bound} h =
    let chosen_pack : Result RulePack =
      active_pack packs profile (keep (of_profile profile) packs) (configured_for profile active) in
    let after : RulePack → Result (List (Text × RulePack)) =
      λ pack. bind_profiles packs active profiles >>= λ rest. ok ((profile, pack) ∷ rest) in
    let (p, e, h1) = >>=-eq-ok chosen_pack after h in
    let (rest, e2, h2) =
      >>=-eq-ok (bind_profiles packs active profiles) (λ rest. ok ((profile, p) ∷ rest)) h1 in
    let (bindings, all_bound) = bind_profiles-IsBinding packs active profiles e2 in
    let e3 : (profile, p) ∷ rest ≡ bound = cc in
    subst
      (λ b.
        All (IsBinding packs) b
        × ((q : Text) → mem_text q (profile ∷ profiles) ≡ true → is_some (bound_to q b) ≡ true))
      e3
      (
        (
          active_pack-IsBinding packs profile (keep (of_profile profile) packs)
              (configured_for profile active) (λ q i. i) e,
          bindings,
        ),
        λ q i. bound_to-next profile p rest profiles q (all_bound q) i,
      )

mem_text-profiles_of :
    (packs : List RulePack) (p : RulePack)
    → In p packs
    → mem_text p.profile_version_id (profiles_of packs) ≡ true
unfolding profiles_of mem_text
mem_text-profiles_of [] p i = absurd i
mem_text-profiles_of (q ∷ qs) p (inl e) =
    rw e (elim (Bool-cases (mem_text q.profile_version_id (profiles_of qs))) [
      | inl t ↦ rw t t
      | inr t ↦ rw t (rw (text_eq_refl q.profile_version_id) refl)
    ])
mem_text-profiles_of (q ∷ qs) p (inr i) =
    let later = mem_text-profiles_of qs p i in
    elim (Bool-cases (mem_text q.profile_version_id (profiles_of qs))) [
      | inl t ↦ rw t later
      | inr t ↦ rw t (ground (arith, later))
    ]

-- A registry that was built is a registry: each pack was validated and is what its identifier
-- gives, the profile of each pack has an active pack, and the active pack of a profile is one of the
-- packs and made for that profile.
pub new_registry-IsRegistry :
    (packs : List RulePack) (active : Active) {r : RuleRegistry}
    → new_registry packs active ≡ ok r
    → IsRegistry r
unfolding new_registry IsRegistry pack_for_profile
new_registry-IsRegistry packs active {r} h =
    let bind : List RulePack → Result RuleRegistry = λ loaded.
      bind_profiles loaded active (profiles_of loaded) >>= λ by_profile.
      ok (record { packs = loaded; by_profile = by_profile }) in
    let (loaded, e1, h1) = >>=-eq-ok (load_packs [] packs) bind h in
    let (by_profile, e2, h2) =
      >>=-eq-ok (bind_profiles loaded active (profiles_of loaded))
        (λ by_profile. ok (record { packs = loaded; by_profile = by_profile })) h1 in
    let (bindings, all_bound) = bind_profiles-IsBinding loaded active (profiles_of loaded) e2 in
    let e3 : record { packs = loaded; by_profile = by_profile } ≡ r = cc in
    subst IsRegistry e3 (
      load_packs-IsLoaded [] packs tt e1,
      All-map (λ p. mem_text p.profile_version_id (profiles_of loaded) ≡ true)
          (λ p. is_some (bound_to p.profile_version_id by_profile) ≡ true) loaded
          (λ p. all_bound p.profile_version_id)
          (In-All (λ p. mem_text p.profile_version_id (profiles_of loaded) ≡ true) loaded
            (mem_text-profiles_of loaded)),
      bindings,
    )
