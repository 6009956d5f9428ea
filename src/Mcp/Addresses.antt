-- ===== src/Mcp/Addresses.antt =====
-- The addresses in the arguments of a tool, and when each may be connected to
-- (runeguard/mcp/proxy.py).
use runeguard.Prelude.{
  Text, codes, Bool, true, false, any, contains, has_part, lower, List, [], ◌∷◌, ◌++◌, All, list_eq,
  nat_eq, ◌≡◌, ◌↔◌, ◌⊎◌, inl, inr, refl, Bool-cases,
}
use runeguard.Json.{
  Json, null, boolean, int, float, str, array, object, Items, nil, cons, Fields, end, field,
}
use runeguard.Regex.{findall}
use runeguard.Mcp.Proxy.{
  url_pattern, host_pattern, add_hosts, addresses_in, urls_or_hosts, urls_in_items, urls_in_fields,
}

-- The keys under which a text without a scheme is taken for a host.
abbrev names_address : Text → Bool
names_address key =
    contains
      (codes "url"
        ∷ codes "uri"
        ∷ codes "host"
        ∷ codes "hostname"
        ∷ codes "domain"
        ∷ codes "endpoint"
        ∷ [])
      (lower key)

module _ (Reaches : Text → Type 0) where
  -- Each of the hosts is reached, but for one that is a part of an address before it.
  abbrev pub ReachesHosts : List Text → List Text → Type 0
  ReachesHosts found [] = Unit
  ReachesHosts found (host ∷ hosts) =
      ((any (λ existing. has_part existing host) found ≡ true) × ReachesHosts found hosts)
      ⊎ ((any (λ existing. has_part existing host) found ≡ false)
          × Reaches host
          × ReachesHosts (found ++ (host ∷ [])) hosts)

  -- Each URL of a text, and under a key that names an address each host of it as well.
  abbrev pub ReachesText : Text → Text → Type 0
  ReachesText text key_hint =
      All Reaches (findall url_pattern text)
      × ((names_address key_hint ≡ false)
          ⊎ ReachesHosts (findall url_pattern text) (findall host_pattern text))

  -- The addresses of all texts in a value. A text in a list has the key of the list.
  abbrev mutual
    pub ReachesAll : Json → Text → Type 0
    ReachesAll (str text) key_hint = ReachesText text key_hint
    ReachesAll (array items) key_hint = ReachesItems items key_hint
    ReachesAll (object fields) key_hint = ReachesFields fields
    ReachesAll _ key_hint = Unit

    pub ReachesItems : Items → Text → Type 0
    ReachesItems nil key_hint = Unit
    ReachesItems (cons value items) key_hint =
        ReachesAll value key_hint × ReachesItems items key_hint

    pub ReachesFields : Fields → Type 0
    ReachesFields end = Unit
    ReachesFields (field name value fields) = ReachesAll value name × ReachesFields fields

  All-append_iff : (xs ys : List Text) → All Reaches (xs ++ ys) ↔ (All Reaches xs × All Reaches ys)
  All-append_iff [] ys = (λ h. (tt, h), λ (h, k). k)
  All-append_iff (x ∷ xs) ys =
      let (there, back) = All-append_iff xs ys in
      (λ (h, hs). let (k, ks) = there hs in ((h, k), ks), λ ((h, k), ks). (h, back (k, ks)))

  -- What is found before the hosts is reached, and so are the hosts that are added.
  add_hosts-Reaches :
      (found hosts : List Text)
      → All Reaches (add_hosts found hosts) ↔ (All Reaches found × ReachesHosts found hosts)
  unfolding add_hosts
  add_hosts-Reaches found [] = (λ h. (h, tt), λ (h, k). h)
  add_hosts-Reaches found (host ∷ hosts) =
      elim (Bool-cases (any (λ existing. has_part existing host) found)) [
        | inl e ↦
            let (there, back) = add_hosts-Reaches found hosts in
            rw e (
              λ h. let (k, ks) = there h in (k, inl (refl, ks)),
              λ (h, k). elim k [ inl (same, ks) ↦ back (h, ks) | inr (other, l, ks) ↦ cc ],
            )
        | inr e ↦
            let (there, back) = add_hosts-Reaches (found ++ (host ∷ [])) hosts in
            let (split, join) = All-append_iff found (host ∷ []) in
            rw e (
              λ h. let (k, ks) = there h in let (l, ls) = split k in (l, inr (refl, ls.0, ks)),
              λ (h, k). elim k [
                | inl (other, ks) ↦ cc
                | inr (same, l, ks) ↦ back (join (h, (l, tt)), ks)
              ],
            )
      ]

  addresses_in-Reaches :
      (text key_hint : Text) → All Reaches (addresses_in text key_hint) ↔ ReachesText text key_hint
  unfolding addresses_in
  addresses_in-Reaches text key_hint = elim (Bool-cases (names_address key_hint)) [
    | inl e ↦
        let (there, back) =
          add_hosts-Reaches (findall url_pattern text) (findall host_pattern text) in
        rw e (
          λ h. let (k, ks) = there h in (k, inr ks),
          λ (h, k). elim k [ inl other ↦ cc | inr ks ↦ back (h, ks) ],
        )
    | inr e ↦ rw e (λ h. (h, inl refl), λ (h, k). h)
  ]

  mutual
    unfolding urls_or_hosts urls_in_items urls_in_fields

    pub urls_or_hosts-Reaches :
        (value : Json) (key_hint : Text)
        → All Reaches (urls_or_hosts value key_hint) ↔ ReachesAll value key_hint
    urls_or_hosts-Reaches (str text) key_hint = addresses_in-Reaches text key_hint
    urls_or_hosts-Reaches (array items) key_hint = urls_in_items-Reaches items key_hint
    urls_or_hosts-Reaches (object fields) key_hint = urls_in_fields-Reaches fields
    urls_or_hosts-Reaches null key_hint = (λ h. h, λ h. h)
    urls_or_hosts-Reaches (boolean b) key_hint = (λ h. h, λ h. h)
    urls_or_hosts-Reaches (int n) key_hint = (λ h. h, λ h. h)
    urls_or_hosts-Reaches (float text) key_hint = (λ h. h, λ h. h)

    urls_in_items-Reaches :
        (items : Items) (key_hint : Text)
        → All Reaches (urls_in_items items key_hint) ↔ ReachesItems items key_hint
    urls_in_items-Reaches nil key_hint = (λ h. h, λ h. h)
    urls_in_items-Reaches (cons value items) key_hint =
        let (split, join) =
          All-append_iff (urls_or_hosts value key_hint) (urls_in_items items key_hint) in
        let (there, back) = urls_or_hosts-Reaches value key_hint in
        let (there', back') = urls_in_items-Reaches items key_hint in
        (λ h. let (k, ks) = split h in (there k, there' ks), λ (h, hs). join (back h, back' hs))

    urls_in_fields-Reaches :
        (fields : Fields) → All Reaches (urls_in_fields fields) ↔ ReachesFields fields
    urls_in_fields-Reaches end = (λ h. h, λ h. h)
    urls_in_fields-Reaches (field name value fields) =
        let (split, join) = All-append_iff (urls_or_hosts value name) (urls_in_fields fields) in
        let (there, back) = urls_or_hosts-Reaches value name in
        let (there', back') = urls_in_fields-Reaches fields in
        (λ h. let (k, ks) = split h in (there k, there' ks), λ (h, hs). join (back h, back' hs))
