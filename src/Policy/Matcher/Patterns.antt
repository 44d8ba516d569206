-- ===== src/Policy/Matcher/Patterns.antt =====
-- What an action pattern stands for.
use Prim.Native.Char.{Char, code}
use text.Mathlib.TextEquality.{Char-path}
use gereh.Prelude.{
  Bool-cases, has_prefix, has_suffix, trim_suffix, trim_right, trim_left, byte_length, ◌==◌, nat_eq,
  eq_refl, ◌+◌, ◌≤◌, String, ◌≡◌, refl, ap, ◌∙◌, ◌↔◌, ◌⊎◌, inl, inr, Bool, true, false, ◌&&◌, not,
  arith, eq_iff, string_eq,
}
use gereh.Policy.Matcher.{count_stars, validate_action_pattern, action_matches}

-- One text after another.
unfoldable pub append : String → String → String
append String.[] t = t
append (String.◌∷◌ c s) t = String.◌∷◌ c (append s t)

has_prefix-append : (p rest : String) → has_prefix (append p rest) p ≡ true
unfolding append has_prefix
has_prefix-append String.[] String.[] = refl
has_prefix-append String.[] (String.◌∷◌ c rest) = refl
has_prefix-append (String.◌∷◌ c p) rest = ground (arith, eq_refl (code c), has_prefix-append p rest)

prefix_rest : (s p : String) → has_prefix s p ≡ true → (rest : String) × (s ≡ append p rest)
unfolding append has_prefix
prefix_rest s String.[] h = (s, refl)
prefix_rest String.[] (String.◌∷◌ d p) h = cc
prefix_rest (String.◌∷◌ c s) (String.◌∷◌ d p) h =
    let (rest, same) = prefix_rest s p (ground (arith, h)) in
    let alike : c ≡ d = Char-path c d ((nat_eq.same_iff (code c) (code d)).0 (ground (arith, h))) in
    (rest, ap (λ x. String.◌∷◌ x s) alike ∙ ap (String.◌∷◌ d) same)

suffix_trimmed : (s : String) → has_suffix s "*" ≡ true → s ≡ append (trim_suffix s "*") "*"
unfolding append has_suffix trim_suffix
suffix_trimmed String.[] h = absurd (ground (arith, h))
suffix_trimmed (String.◌∷◌ c s) h = elim (Bool-cases (String.◌∷◌ c s == "*")) [
  | inl whole ↦ rw whole ((eq_iff (String.◌∷◌ c s) "*").0 whole)
  | inr more ↦ rw more (ap (String.◌∷◌ c) (suffix_trimmed s (ground (arith, h, more))))
]

-- A text with something before a star is not the star.
unfoldable pub is_nonempty : String → Bool
is_nonempty String.[] = false
is_nonempty (String.◌∷◌ c s) = true

append_star-is_nonempty : (p : String) → is_nonempty (append p "*") ≡ true
unfolding append is_nonempty
append_star-is_nonempty String.[] = refl
append_star-is_nonempty (String.◌∷◌ c p) = refl

tail : String → String
tail String.[] = String.[]
tail (String.◌∷◌ c s) = s

pub longer_than_star :
    (c : Char) (s : String) → is_nonempty s ≡ true → (String.◌∷◌ c s == "*") ≡ false
unfolding is_nonempty tail
longer_than_star c s more = elim (Bool-cases (String.◌∷◌ c s == "*")) [
  | inl whole ↦
      absurd (
        ground
          (arith, more, ap (λ t. is_nonempty (tail t)) ((eq_iff (String.◌∷◌ c s) "*").0 whole)))
  | inr differs ↦ differs
]

trim_suffix-append : (p : String) → trim_suffix (append p "*") "*" ≡ p
unfolding append trim_suffix
trim_suffix-append String.[] = refl
trim_suffix-append (String.◌∷◌ c p) =
    rw (longer_than_star c (append p "*") (append_star-is_nonempty p))
      (ap (String.◌∷◌ c) (trim_suffix-append p))

pub has_suffix-append : (p : String) → has_suffix (append p "*") "*" ≡ true
unfolding append has_suffix
has_suffix-append String.[] = refl
has_suffix-append (String.◌∷◌ c p) = ground (arith, has_suffix-append p)

-- What it takes for a pattern to stand for an action.
abbrev pub Matches : String → String → Type 0
Matches pattern action =
    ((p : String) × (rest : String) × (pattern ≡ append p "*") × (action ≡ append p rest))
    ⊎ ((has_suffix pattern "*" ≡ false) × (pattern ≡ action))

shape_of_match :
    (pattern action : String) → action_matches pattern action ≡ true → Matches pattern action
unfolding action_matches
shape_of_match pattern action h = elim (Bool-cases (has_suffix pattern "*")) [
  | inl wild ↦
      let p = trim_suffix pattern "*" in
      let (rest, same) = prefix_rest action p (ground (arith, h, wild)) in
      inl (p, rest, suffix_trimmed pattern wild, same)
  | inr exact ↦ inr (exact, (eq_iff pattern action).0 (ground (arith, h, exact)))
]

match_of_shape :
    (pattern action : String) → Matches pattern action → action_matches pattern action ≡ true
unfolding action_matches
match_of_shape pattern action (inl (p, rest, pattern_is, action_is)) =
    rw (pattern_is, action_is)
      (rw (has_suffix-append p, trim_suffix-append p) (has_prefix-append p rest))
match_of_shape pattern action (inr (exact, same)) = rw exact ((eq_iff pattern action).1 same)

-- A pattern matches an action exactly when it ends in a star and the action continues what stands
-- before that star, or it does not end in a star and is the action.
pub action_matches-Matches :
    (pattern action : String) → (action_matches pattern action ≡ true) ↔ Matches pattern action
action_matches-Matches pattern action =
    (shape_of_match pattern action, match_of_shape pattern action)

count_stars-append : (p : String) → count_stars (append p "*") ≡ count_stars p + 1
unfolding append count_stars
count_stars-append String.[] = refl
count_stars-append (String.◌∷◌ c p) = omega (arith, count_stars-append p)

-- The pattern that is checked.
abbrev pub trimmed : String → String
trimmed pattern = trim_left (trim_right pattern)

-- A text without a star.
unfoldable pub is_plain : String → Bool
is_plain String.[] = true
is_plain (String.◌∷◌ c s) = not (code c == 42) && is_plain s

plain-count_stars : (s : String) → is_plain s ≡ true → count_stars s ≡ 0
unfolding is_plain count_stars
plain-count_stars String.[] h = refl
plain-count_stars (String.◌∷◌ c s) h = ground (arith, h, plain-count_stars s)

count_stars-plain : (s : String) → count_stars s ≡ 0 → is_plain s ≡ true
unfolding is_plain count_stars
count_stars-plain String.[] h = refl
count_stars-plain (String.◌∷◌ c s) h = ground (arith, h, count_stars-plain s)

-- A text without a star, or such a text with a star after it.
abbrev pub IsPattern : String → Type 0
IsPattern t = (is_plain t ≡ true) ⊎ ((p : String) × (t ≡ append p "*") × (is_plain p ≡ true))

shape_of_accepted :
    (pattern : String)
    → validate_action_pattern pattern ≡ true
    → ((trimmed pattern == "") ≡ false)
      × (byte_length (trimmed pattern) ≤ 256)
      × IsPattern (trimmed pattern)
unfolding validate_action_pattern
shape_of_accepted pattern h = (
  ground (arith, h),
  ground (arith, h),
  elim (Bool-cases (has_suffix (trimmed pattern) "*")) [
    | inl wild ↦
        let p = trim_suffix (trimmed pattern) "*" in
        let is = suffix_trimmed (trimmed pattern) wild in
        inr
          (p, is, count_stars-plain p (ground (arith, h, ap count_stars is, count_stars-append p)))
    | inr exact ↦ inl (count_stars-plain (trimmed pattern) (ground (arith, h, exact)))
  ],
)

accepted_of_shape :
    (pattern : String)
    → (trimmed pattern == "") ≡ false
    → byte_length (trimmed pattern) ≤ 256
    → IsPattern (trimmed pattern)
    → validate_action_pattern pattern ≡ true
unfolding validate_action_pattern
accepted_of_shape pattern some_text short (inl plain) =
    ground (arith, some_text, short, plain-count_stars (trimmed pattern) plain)
accepted_of_shape pattern some_text short (inr (p, is, plain)) =
    let ends : has_suffix (trimmed pattern) "*" ≡ true = rw is (has_suffix-append p) in
    ground (
      arith,
      some_text,
      short,
      ends,
      ap count_stars is,
      count_stars-append p,
      plain-count_stars p plain,
    )

-- The validation accepts a pattern exactly when what is left without the space around it is not
-- empty, has at most 256 bytes, and is a text without a star or such a text with a star after it.
pub validate_action_pattern-IsPattern :
    (pattern : String)
    → (validate_action_pattern pattern ≡ true) ↔ (
        ((trimmed pattern == "") ≡ false)
        × (byte_length (trimmed pattern) ≤ 256)
        × IsPattern (trimmed pattern))
validate_action_pattern-IsPattern pattern = (
  shape_of_accepted pattern,
  λ (some_text, short, shape). accepted_of_shape pattern some_text short shape,
)
