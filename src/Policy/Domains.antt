-- ===== src/Policy/Domains.antt =====
-- `_is_allowed_domain` of runeguard/policy.py.
use runeguard.Prelude.{
  Text, codes, Bool, ◌||◌, ◌&&◌, [], ◌∷◌, ◌==◌, any, drop, lower, rstrip, starts_with, ends_with,
  list_eq, nat_eq,
}
use runeguard.Policy.Settings.{Policy}

-- `domain.lower().rstrip(".")`
unfoldable pub plain_domain : Text → Text
plain_domain domain = rstrip (b'.' ∷ []) (lower domain)

-- One round of the loop, with both names plain.
unfoldable pub domain_matches : Text → Text → Bool
domain_matches domain allowed =
    let suffix = drop 2 allowed in
    starts_with allowed (codes "*.") && (domain == suffix || ends_with domain (b'.' ∷ suffix))
    || domain == allowed

unfoldable pub is_allowed_domain : Policy → Text → Bool
unfolding plain_domain domain_matches
is_allowed_domain policy domain =
    any (λ allowed. domain_matches (plain_domain domain) (plain_domain allowed))
      policy.allowed_domains
