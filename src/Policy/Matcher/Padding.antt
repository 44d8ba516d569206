-- ===== src/Policy/Matcher/Padding.antt =====
-- Space around a pattern: the validation does not see it, the match does.
use gereh.Prelude.{
  has_suffix, is_space, trim_right, String, ◌≡◌, refl, sym, ap, inl, inr, true, false, arith,
  string_eq, nat_eq,
}
use gereh.Policy.Matcher.{validate_action_pattern, action_matches}
use gereh.Policy.Matcher.Patterns.{
  append, is_nonempty, longer_than_star, has_suffix-append, action_matches-Matches,
}

trim_right-append : (p : String) → trim_right (append p "* ") ≡ trim_right (append p "*")
unfolding append trim_right is_space
trim_right-append String.[] = refl
trim_right-append (String.◌∷◌ c p) = ground (arith, trim_right-append p)

append_padded-is_nonempty : (p : String) → is_nonempty (append p "* ") ≡ true
unfolding append is_nonempty
append_padded-is_nonempty String.[] = refl
append_padded-is_nonempty (String.◌∷◌ c p) = refl

has_suffix-append_padded : (p : String) → has_suffix (append p "* ") "*" ≡ false
unfolding append has_suffix
has_suffix-append_padded String.[] = refl
has_suffix-append_padded (String.◌∷◌ c p) = ground (
  arith,
  longer_than_star c (append p "* ") (append_padded-is_nonempty p),
  has_suffix-append_padded p,
)

-- If the validation accepts a text with a star at its end, it accepts the same with a space after
-- the star, which then matches no action but its own text.
pub action_matches-padded :
    (p action : String)
    → validate_action_pattern (append p "*") ≡ true
    → (validate_action_pattern (append p "* ") ≡ true)
      × (action_matches (append p "* ") action ≡ true → action ≡ append p "* ")
unfolding validate_action_pattern
action_matches-padded p action h = (
  rw (trim_right-append p) h,
  λ matches. elim ((action_matches-Matches (append p "* ") action).0 matches) [
    | inl (q, rest, starred, continues) ↦ absurd (
        ground (
          arith,
          ap (λ t. has_suffix t "*") starred,
          has_suffix-append q,
          has_suffix-append_padded p,
        ))
    | inr (exact, same) ↦ sym same
  ],
)
