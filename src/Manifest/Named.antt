-- ===== src/Manifest/Named.antt =====
-- utils/manifest.c: the texts that name an application.
use afb_app_manager.Base.{
  ℕ, Bool, true, false, ◌&&◌, ◌||◌, [], ◌∷◌, Bytes, leb, ◌==◌, ◌≡◌, refl, arith,
}
use afb_app_manager.ManifestText.{
  lower, is_valid_char, is_valid, all_valid, make_lowercase, dash_to_underscore,
}

-- A lower case letter, a digit, a dot, a dash or an underscore.
abbrev pub is_plain : ℕ → Bool
is_plain c =
    (leb b'0' c && leb c b'9') || (leb b'a' c && leb c b'z') || c == b'.' || c == b'-' || c == b'_'

unfoldable pub all_plain : Bytes → Bool
all_plain [] = true
all_plain (c ∷ s) = is_plain c && all_plain s

unfoldable pub has_dash : Bytes → Bool
has_dash [] = false
has_dash (c ∷ s) = c == b'-' || has_dash s

pub dash_to_underscore-has_dash : (s : Bytes) → has_dash (dash_to_underscore s) ≡ false
unfolding has_dash dash_to_underscore
dash_to_underscore-has_dash [] = refl
dash_to_underscore-has_dash (c ∷ s) = ground (arith, dash_to_underscore-has_dash s)

lower-is_plain : (c : ℕ) → is_valid_char c ≡ true → is_plain (lower c) ≡ true
lower-is_plain c h = ground arith

make_lowercase-all_plain : (s : Bytes) → all_valid s ≡ true → all_plain (make_lowercase s) ≡ true
unfolding all_plain make_lowercase all_valid
make_lowercase-all_plain [] h = refl
make_lowercase-all_plain (c ∷ s) h = ground (arith, make_lowercase-all_plain s, lower-is_plain c)

pub is_valid-all_plain : (s : Bytes) → is_valid s ≡ true → all_plain (make_lowercase s) ≡ true
unfolding is_valid
is_valid-all_plain [] h = ground arith
is_valid-all_plain (c ∷ s) h = make_lowercase-all_plain (c ∷ s) h
