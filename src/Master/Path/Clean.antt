-- ===== src/Master/Path/Clean.antt =====
-- What SanitizeKey leaves of a key (mooncake-store/src/master_service.cpp).
use Prim.Native.Char.{Char, code}
use Prim.Native.String as Text
use mooncake.Prelude.{
  ℕ, ◌≡◌, ◌∙◌, sym, refl, String, Bool, true, false, ◌||◌, contains, nat_eq, ◌==◌, inl, inr,
  Bool-cases, ap₂, ◌⊎◌,
}
use mooncake.Master.Path.{sanitize_key, sanitize_char, invalid_chars}

-- Some character of a text has this code.
abbrev pub occurs : ℕ → String → Bool
occurs n Text.[] = false
occurs n (Text.◌∷◌ c s) = (code c == n) || occurs n s

-- The characters that a file name may not have.
abbrev pub forbidden : String
forbidden = "/\\:*?\"<>|"

-- The one text is the other, character by character, with an underscore for each forbidden one.
unfoldable pub IsSanitized : String → String → Type 0
IsSanitized Text.[] Text.[] = Unit
IsSanitized Text.[] (Text.◌∷◌ d t) = ⊥
IsSanitized (Text.◌∷◌ c s) Text.[] = ⊥
IsSanitized (Text.◌∷◌ c s) (Text.◌∷◌ d t) =
    (((occurs (code c) forbidden ≡ true) × (d ≡ "_"))
      ⊎ ((occurs (code c) forbidden ≡ false) × (d ≡ c)))
    × IsSanitized s t

invalid_chars_lem : (n : ℕ) → contains invalid_chars n ≡ occurs n forbidden
invalid_chars_lem n = refl

sanitize_char_lem :
    (c : Char)
    → ((occurs (code c) forbidden ≡ true) × (sanitize_char c ≡ "_"))
      ⊎ ((occurs (code c) forbidden ≡ false) × (sanitize_char c ≡ c))
sanitize_char_lem c = elim (Bool-cases (contains invalid_chars (code c))) [
  | inl bad ↦ inl (sym (invalid_chars_lem (code c)) ∙ bad, rw bad refl)
  | inr good ↦ inr (sym (invalid_chars_lem (code c)) ∙ good, rw good refl)
]

sanitize_key-IsSanitized : (key : String) → IsSanitized key (sanitize_key key)
unfolding IsSanitized sanitize_key
sanitize_key-IsSanitized Text.[] = tt
sanitize_key-IsSanitized (Text.◌∷◌ c s) = (sanitize_char_lem c, sanitize_key-IsSanitized s)

sanitize_char_twice : (c : Char) → sanitize_char (sanitize_char c) ≡ sanitize_char c
sanitize_char_twice c = elim (Bool-cases (contains invalid_chars (code c))) [
  | inl bad ↦ rw bad refl
  | inr good ↦ rw (good, good) refl
]

sanitize_key_twice : (key : String) → sanitize_key (sanitize_key key) ≡ sanitize_key key
unfolding sanitize_key
sanitize_key_twice Text.[] = refl
sanitize_key_twice (Text.◌∷◌ c s) =
    ap₂ (λ (d : Char) (k : String). Text.◌∷◌ d k) (sanitize_char_twice c) (sanitize_key_twice s)

-- SanitizeKey leaves every character of a key at its place, but for / \ : * ? " < > and |, for each of
-- which it writes an underscore; a second run changes nothing.
pub sanitize_key_lem :
    (key : String)
    → IsSanitized key (sanitize_key key) × (sanitize_key (sanitize_key key) ≡ sanitize_key key)
sanitize_key_lem key = (sanitize_key-IsSanitized key, sanitize_key_twice key)
