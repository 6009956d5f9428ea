-- ===== src/Policy/StrayKeys.antt =====
-- The keys of a policy file that `normalize_policy_mapping` of runeguard/policy.py does not read.
use runeguard.Prelude.{
  Text, Bool, true, false, ◌||◌, List, [], ◌∷◌, ◌==◌, ==_iff, any, list_eq, nat_eq, ◌≡◌, refl, ap,
  ◌∙◌, arith,
}
use runeguard.Outcome.{raised}
use runeguard.Json.{Json, object, Fields, field}
use runeguard.Policy.Loading.{
  Place, within, at_top, Setting, settings, sections, find, has_key, section_of, find_place,
  or_later, first_of, filled, known_key, all_known, normalize_policy_mapping, from_mapping,
}
use runeguard.Policy.Validating.{load_policy}

-- The key of the mapping that a place reads.
abbrev pub top_key : Place → Text
top_key (within section key) = section
top_key (at_top key) = key

-- Some setting reads the key.
abbrev pub read_by : Text → List Setting → Bool
read_by key [] = false
read_by key (setting ∷ rest) =
    any (λ place. key == top_key place) setting.places || read_by key rest

module _ (name : Text) (value : Json) (mapping : Fields) where
  abbrev longer : Fields
  longer = field name value mapping

  find-other : (key : Text) → (name == key) ≡ false → find key longer ≡ find key mapping
  unfolding find
  find-other key h = ground (arith, ==_iff name key, ==_iff key name)

  find_place-other :
      (place : Place)
      → (name == top_key place) ≡ false
      → find_place longer place ≡ find_place mapping place
  unfolding find_place
  find_place-other (within section key) h =
      ap (λ found. find key (section_of found)) (find-other section h)
  find_place-other (at_top key) h = find-other key h

  first_of-other :
      (places : List Place) (fallback : Json)
      → any (λ place. name == top_key place) places ≡ false
      → first_of longer places fallback ≡ first_of mapping places fallback
  unfolding first_of
  first_of-other [] fallback h = refl
  first_of-other (place ∷ places) fallback h =
      let here = find_place-other place (ground arith) in
      let later = first_of-other places fallback (ground arith) in
      ap (λ found. or_later found (first_of longer places fallback)) here
      ∙ ap (or_later (find_place mapping place)) later

  filled-other :
      (rest : List Setting) → read_by name rest ≡ false → filled longer rest ≡ filled mapping rest
  unfolding filled
  filled-other [] h = refl
  filled-other (setting ∷ rest) h =
      rw
        (
          first_of-other setting.places setting.fallback (ground arith),
          filled-other rest (ground arith),
        )
        refl

  any_section-longer :
      (keys : List Text)
      → any (λ section. has_key section mapping) keys ≡ true
      → any (λ section. has_key section longer) keys ≡ true
  unfolding has_key
  any_section-longer [] h = h
  any_section-longer (key ∷ keys) h = ground (arith, any_section-longer keys)

  -- In a mapping with a section, a key that no setting reads changes nothing, whatever its value:
  -- a misspelt key is not refused, and the policy is the one without it.
  pub load_policy-stray_key :
      any (λ section. has_key section mapping) sections ≡ true
      → read_by name settings ≡ false
      → load_policy (object longer) ≡ load_policy (object mapping)
  unfolding load_policy from_mapping normalize_policy_mapping
  load_policy-stray_key sectioned stray =
      rw (any_section-longer sections sectioned, sectioned, filled-other settings stray) refl

  all_known-unknown : known_key name settings ≡ false → all_known longer ≡ false
  unfolding all_known
  all_known-unknown h = ground arith

  -- In a mapping without a section, a key that is no setting is refused.
  pub load_policy-unknown_key :
      any (λ section. has_key section longer) sections ≡ false
      → known_key name settings ≡ false
      → load_policy (object longer) ≡ raised
  unfolding load_policy from_mapping normalize_policy_mapping
  load_policy-unknown_key flat unknown = rw (flat, all_known-unknown unknown) refl
