-- ===== src/Policy/Matching.antt =====
-- What the tests of domains and commands in runeguard/policy.py mean.
use runeguard.Prelude.{
  Text, codes, Bool, true, false, ◌||◌, List, [], ◌∷◌, ◌++◌, ◌==◌, ==_iff, ==_refl, any, contains,
  take, length, starts_with, ends_with, list_eq, nat_eq, ◌≡◌, ◌≢◌, ◌↔◌, ◌⊎◌, inl, inr, refl, sym,
  ap, ◌∙◌, arith, Option,
}
use mathlib.Core.List.{reverse, reverse-append, reverse-reverse}
use runeguard.Policy.Settings.{Policy}
use runeguard.Policy.Words.{split_command}
use runeguard.Policy.Domains.{plain_domain, domain_matches, is_allowed_domain}
use runeguard.Policy.Commands.{command_tokens, has_window, window_of, matches_command_pattern}

starts_with_iff :
    (value prefix : Text)
    → (starts_with value prefix ≡ true) ↔ ((rest : Text) × (value ≡ prefix ++ rest))
unfolding starts_with
starts_with_iff value [] = (λ h. (value, refl), λ h. refl)
starts_with_iff [] (p ∷ prefix) = (λ h. cc, λ (rest, h). cc)
starts_with_iff (c ∷ value) (p ∷ prefix) = ground (arith, starts_with_iff value prefix)

ends_with_iff :
    (value suffix : Text)
    → (ends_with value suffix ≡ true) ↔ ((front : Text) × (value ≡ front ++ suffix))
unfolding ends_with
ends_with_iff value suffix =
    let heads = starts_with_iff (reverse value) (reverse suffix) in
    (
      λ h.
          let (rest, e) = heads.0 h in
          (
            reverse rest,
            sym (reverse-reverse value)
                ∙ ap reverse e
                ∙ reverse-append (reverse suffix) rest
                ∙ ap (λ s. reverse rest ++ s) (reverse-reverse suffix),
          ),
      λ (front, e). heads.1 (reverse front, ap reverse e ∙ reverse-append front suffix),
    )

-- An entry of a list that satisfies a test.
abbrev pub Entry : (Text → Type 0) → List Text → Type 0
Entry P [] = ⊥
Entry P (entry ∷ entries) = P entry ⊎ Entry P entries

domain_matches_iff :
    (domain entry : Text)
    → (domain_matches domain entry ≡ true) ↔ (
        (domain ≡ entry)
        ⊎ ((suffix : Text) × (entry ≡ codes "*." ++ suffix)
            × ((domain ≡ suffix) ⊎ ((front : Text) × (domain ≡ front ++ (codes "." ++ suffix))))))
unfolding domain_matches starts_with
domain_matches_iff domain [] = ground arith
domain_matches_iff domain (a ∷ []) = ground arith
domain_matches_iff domain (a ∷ b ∷ suffix) =
    let tails = ends_with_iff domain (codes "." ++ suffix) in ground (arith, tails)

-- The tokens begin with the words.
take_iff :
    (words tokens : List Text)
    → ((take (length words) tokens == words) ≡ true)
      ↔ ((back : List Text) × (tokens ≡ words ++ back))
take_iff [] tokens = (λ h. (tokens, refl), λ h. ==_refl {A = List Text} [])
take_iff (word ∷ words) [] = (λ h. ground arith, λ (back, h). ground arith)
take_iff (word ∷ words) (token ∷ tokens) =
    let rest = take_iff words tokens in
    (
      λ h.
          let same : token ≡ word = ground arith in
          let tails : (take (length words) tokens == words) ≡ true = ground arith in
          let (back, e) = rest.0 tails in (back, cc),
      λ (back, h).
          let same : token ≡ word = ground arith in
          let tails : (take (length words) tokens == words) ≡ true = rest.1 (back, ground arith) in
          ground arith,
    )

-- Some slice of the tokens.
abbrev pub Slice : List Text → List Text → Type 0
Slice words tokens = (front : List Text) × (back : List Text) × (tokens ≡ front ++ (words ++ back))

Slice-nil : {A : Type 0} (word : Text) (words : List Text) → Slice (word ∷ words) [] → A
Slice-nil word words ([], back, h) = cc
Slice-nil word words (x ∷ xs, back, h) = cc

-- A slice is at the head or behind it.
Slice-cons_iff :
    (token : Text) (tokens words : List Text)
    → Slice words (token ∷ tokens)
      ↔ (((back : List Text) × (token ∷ tokens ≡ words ++ back)) ⊎ Slice words tokens)
Slice-cons_iff token tokens words = (there, back_again)
  where
    there :
        Slice words (token ∷ tokens)
        → ((back : List Text) × (token ∷ tokens ≡ words ++ back)) ⊎ Slice words tokens
    there ([], back, h) = inl (back, h)
    there (x ∷ front, back, h) = inr (front, back, ground arith)

    back_again :
        ((back : List Text) × (token ∷ tokens ≡ words ++ back)) ⊎ Slice words tokens
        → Slice words (token ∷ tokens)
    back_again (inl (back, h)) = ([], back, h)
    back_again (inr (front, back, h)) = (token ∷ front, back, ap (λ rest. token ∷ rest) h)

or_iff :
    {A B : Type 0} (a b : Bool) → ((a ≡ true) ↔ A) → ((b ≡ true) ↔ B) → ((a || b) ≡ true) ↔ (A ⊎ B)
or_iff true b ha hb = (λ h. inl (ha.0 refl), λ h. refl)
or_iff false b ha hb =
    (λ h. inr (hb.0 h), λ h. elim h [ inl x ↦ (let e = ha.1 x in cc) | inr y ↦ hb.1 y ])

has_window_iff :
    (tokens : List Text) (word : Text) (words : List Text)
    → (has_window tokens (word ∷ words) ≡ true) ↔ Slice (word ∷ words) tokens
unfolding has_window
has_window_iff [] word words = (λ h. ground arith, λ slice. Slice-nil word words slice)
has_window_iff (token ∷ tokens) word words =
    let split = Slice-cons_iff token tokens (word ∷ words) in
    let found =
      or_iff (take (length (word ∷ words)) (token ∷ tokens) == (word ∷ words))
        (has_window tokens (word ∷ words)) (take_iff (word ∷ words) (token ∷ tokens))
        (has_window_iff tokens word words) in
    (λ h. split.1 (found.0 h), λ slice. found.1 (split.0 slice))

contains_iff :
    (tokens : List Text) (word : Text) → (contains tokens word ≡ true) ↔ Slice (word ∷ []) tokens
contains_iff [] word = (λ h. ground arith, λ slice. Slice-nil word [] slice)
contains_iff (token ∷ tokens) word =
    let split = Slice-cons_iff token tokens (word ∷ []) in
    let found =
      or_iff (word == token) (contains tokens word) (head_iff word token tokens)
        (contains_iff tokens word) in
    (λ h. split.1 (found.0 h), λ slice. found.1 (split.0 slice))
  where
    head_iff :
        (word token : Text) (tokens : List Text)
        → ((word == token) ≡ true) ↔ ((back : List Text) × (token ∷ tokens ≡ word ∷ back))
    head_iff word token tokens = (
      λ h. (tokens, let e = (==_iff word token).0 h in cc),
      λ (back, h). (==_iff word token).1 (ground arith),
    )

-- A blocked pattern matches a command exactly when the words of the pattern, and it has some, are
-- a contiguous slice of the command's words.
pub matches_command_pattern_iff :
    (blocked command : Text) (argv : Option (List Text))
    → (matches_command_pattern blocked command argv ≡ true)
      ↔ ((split_command blocked ≢ []) × Slice (split_command blocked) (command_tokens command argv))
unfolding matches_command_pattern window_of
matches_command_pattern_iff blocked command argv = go (split_command blocked)
  where
    go :
        (words : List Text)
        → (window_of words (command_tokens command argv) ≡ true)
          ↔ ((words ≢ []) × Slice words (command_tokens command argv))
    go [] = (λ h. ground arith, λ (full, slice). absurd (full refl))
    go (word ∷ []) =
        let found = contains_iff (command_tokens command argv) word in
        (λ h. (λ e. cc, found.0 h), λ (full, slice). found.1 slice)
    go (word ∷ next ∷ words) =
        let found = has_window_iff (command_tokens command argv) word (next ∷ words) in
        (λ h. (λ e. cc, found.0 h), λ (full, slice). found.1 slice)

any_iff :
    {P : Text → Type 0} (test : Text → Bool) (entries : List Text)
    → ((entry : Text) → (test entry ≡ true) ↔ P entry)
    → (any test entries ≡ true) ↔ Entry P entries
any_iff test [] h = (λ e. ground arith, λ e. absurd e)
any_iff test (entry ∷ entries) h =
    or_iff (test entry) (any test entries) (h entry) (any_iff test entries h)

-- A host is allowed exactly when, with case and trailing dots left aside, it is an entry of the
-- allow list, or the list has a wildcard entry `*.suffix` and the host is the suffix itself or ends
-- in a dot and the suffix.
pub is_allowed_domain_iff :
    (policy : Policy) (domain : Text)
    → (is_allowed_domain policy domain ≡ true)
      ↔ Entry
          (λ entry.
            (plain_domain domain ≡ plain_domain entry)
            ⊎ ((suffix : Text) × (plain_domain entry ≡ codes "*." ++ suffix)
                × ((plain_domain domain ≡ suffix)
                    ⊎ ((front : Text) × (plain_domain domain ≡ front ++ (codes "." ++ suffix))))))
          policy.allowed_domains
unfolding is_allowed_domain
is_allowed_domain_iff policy domain =
    any_iff (λ entry. domain_matches (plain_domain domain) (plain_domain entry))
      policy.allowed_domains
      (λ entry. domain_matches_iff (plain_domain domain) (plain_domain entry))
