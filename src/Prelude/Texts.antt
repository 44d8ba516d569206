-- ===== src/Prelude/Texts.antt =====
-- Texts as the Go standard library's `strings` and string comparison see them. Code points compare
-- as the bytes of their UTF-8 encodings do.
use Prim.Native.Char.{code}
use Prim.Native.Nat.{ℕ, suc, ◌+◌}
use Prim.Native.String.{String}
use mathlib.Core.List.{List, [], ◌∷◌}
use mathlib.Core.Bool.{Bool, true, false, ◌&&◌, ◌||◌}
use gereh.Prelude.Tests.{ltb, leb, if◌then◌else◌}
use gereh.Prelude.EqTests.{◌==◌, contains, string_eq, nat_eq}

-- `left < right`
unfoldable pub text_lt : String → String → Bool
text_lt String.[] String.[] = false
text_lt String.[] (String.◌∷◌ d t) = true
text_lt (String.◌∷◌ c s) String.[] = false
text_lt (String.◌∷◌ c s) (String.◌∷◌ d t) =
    let rest = text_lt s t in
    if ltb (code c) (code d) then true else if ltb (code d) (code c) then false else rest

-- `strings.HasPrefix`
unfoldable pub has_prefix : String → String → Bool
has_prefix s String.[] = true
has_prefix String.[] (String.◌∷◌ d p) = false
has_prefix (String.◌∷◌ c s) (String.◌∷◌ d p) = code c == code d && has_prefix s p

-- `strings.HasSuffix`
unfoldable pub has_suffix : String → String → Bool
has_suffix String.[] p = String.[] == p
has_suffix (String.◌∷◌ c s) p = String.◌∷◌ c s == p || has_suffix s p

-- `strings.TrimSuffix`: the text stays as it is if the suffix is not there.
unfoldable pub trim_suffix : String → String → String
trim_suffix String.[] p = String.[]
trim_suffix (String.◌∷◌ c s) p =
    let rest = trim_suffix s p in if String.◌∷◌ c s == p then String.[] else String.◌∷◌ c rest

-- `unicode.IsSpace`
unfoldable pub is_space : ℕ → Bool
is_space c =
    (leb 9 c && leb c 13)
    || (contains (32 ∷ 133 ∷ 160 ∷ 5760 ∷ 8232 ∷ 8233 ∷ 8239 ∷ 8287 ∷ 12288 ∷ []) c
        || (leb 8192 c && leb c 8202))

-- `strings.TrimSpace`: from the right, then from the left.
unfoldable pub trim_right : String → String
unfolding is_space
trim_right String.[] = String.[]
trim_right (String.◌∷◌ c s) =
    let rest = trim_right s in
    if rest == "" && is_space (code c) then String.[] else String.◌∷◌ c rest

unfoldable pub trim_left : String → String
unfolding is_space
trim_left String.[] = String.[]
trim_left (String.◌∷◌ c s) =
    let rest = trim_left s in if is_space (code c) then rest else String.◌∷◌ c s

-- `len` of a string: the bytes of its encoding as UTF-8.
unfoldable pub byte_length : String → ℕ
byte_length String.[] = 0
byte_length (String.◌∷◌ c s) =
    (if ltb (code c) 128
      then 1
      else if ltb (code c) 2048
      then 2
      else if ltb (code c) 65536
      then 3
      else 4)
    + byte_length s

-- `len` of the runes of a string.
unfoldable pub rune_count : String → ℕ
rune_count String.[] = 0
rune_count (String.◌∷◌ c s) = suc (rune_count s)

-- `slices.Sort` over strings.
unfoldable pub insert_text : String → List String → List String
unfolding text_lt
insert_text x [] = x ∷ []
insert_text x (y ∷ ys) = let rest = insert_text x ys in if text_lt y x then y ∷ rest else x ∷ y ∷ ys

unfoldable pub sort_texts : List String → List String
unfolding insert_text
sort_texts [] = []
sort_texts (x ∷ xs) = insert_text x (sort_texts xs)
