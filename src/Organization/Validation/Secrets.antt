-- ===== src/Organization/Validation/Secrets.antt =====
-- Which configurations the search for secrets lets through.
use gereh.Prelude.{
  Option-cases, ok, contains, ℕ, ◌≤◌, String, ◌≡◌, refl, ◌↔◌, inl, inr, Bool, true, false, ◌&&◌,
  not, some, arith, string_eq, nat_eq,
}
use gereh.Organization.Configuration.{Json, object, Fields, no_fields, field}
use gereh.Organization.Validation.{
  Libraries, forbidden_keys, inspect, inspect_value, validate_configuration,
}

-- The keys of an object and of the objects that stand in it as values of fields, to any depth. The
-- objects in lists are not among them.
pub data HasKey (key : String) : Fields → Type 0 where
  at_field : {raw : Json} {rest : Fields} → HasKey key (field key raw rest)
  inside :
      {name : String} {inner rest : Fields}
      → HasKey key inner
      → HasKey key (field name (object inner) rest)
  further :
      {name : String} {raw : Json} {rest : Fields}
      → HasKey key rest
      → HasKey key (field name raw rest)

module _ (libraries : Libraries) where
  abbrev is_forbidden : String → Bool
  is_forbidden key = contains forbidden_keys (libraries.to_lower key)

  inspected :
      (given : Fields) (key : String)
      → inspect libraries given ≡ true
      → HasKey key given
      → is_forbidden key ≡ false
  unfolding inspect
  inspected no_fields key h k = elim k [ ]
  inspected (field name raw rest) key h at_field = ground (arith, h)
  inspected (field name (object inner) rest) key h (inside k) =
      inspected inner key (ground (arith, h)) k
  inspected (field name raw rest) key h (further k) = inspected rest key (ground (arith, h)) k

  all_three : (a b c : Bool) → a ≡ false → b ≡ true → c ≡ true → (not a && (b && c)) ≡ true
  all_three a b c h k l = ground (arith, h, k, l)

  passes :
      (given : Fields)
      → ((key : String) → HasKey key given → is_forbidden key ≡ false)
      → inspect libraries given ≡ true
  unfolding inspect
  passes no_fields fine = refl
  passes (field name (object inner) rest) fine =
      all_three (is_forbidden name) (inspect libraries inner) (inspect libraries rest)
        (fine name at_field) (passes inner (λ key k. fine key (inside k)))
        (passes rest (λ key k. fine key (further k)))
  passes (field name raw rest) fine =
      all_three (is_forbidden name) (inspect_value libraries raw) (inspect libraries rest)
        (fine name at_field) refl (passes rest (λ key k. fine key (further k)))

  -- The service accepts a configuration exactly if it can be encoded in 64 KiB and no key of the
  -- object, or of an object that stands in it as a value of a field to any depth, is the name of a
  -- secret in lower case. The keys of objects in lists are not looked at.
  pub validate_configuration-HasKey :
      (given : Fields)
      → (validate_configuration libraries (some given) ≡ ok tt) ↔ (
          (size : ℕ) × (libraries.encoded_length given ≡ some size)
          × (size ≤ 65536)
          × ((key : String) → HasKey key given → is_forbidden key ≡ false))
  unfolding validate_configuration
  validate_configuration-HasKey given = elim (Option-cases (libraries.encoded_length given)) [
    | inl e ↦ (λ h. absurd (ground (arith, e, h)), λ h. absurd (ground (arith, e, h.1)))
    | inr (size, e) ↦ (
      λ h.
          let clean : inspect libraries given ≡ true = ground (arith, e, h) in
          (size, e, ground (arith, e, h), λ key k. inspected given key clean k),
      λ h.
          let (n, at, small, fine) = h in
          let clean = passes given fine in ground (arith, e, at, small, clean),
    )
  ]
