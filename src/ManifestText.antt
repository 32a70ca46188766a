-- ===== src/ManifestText.antt =====
-- utils/manifest.c, built without DISTINCT_VERSIONS: the texts that name an application and its version.
use afb_app_manager.Base.{
  ℕ, ◌+◌, Bool, true, false, ◌&&◌, ◌||◌, Option, none, some, [], ◌∷◌, Bytes, Memory, alloc, leb,
  ◌==◌, if◌then◌else◌,
}

-- `tolower` and `isalnum`, in the locale "C".
abbrev pub lower : ℕ → ℕ
lower c = if leb b'A' c && leb c b'Z' then c + 32 else c

abbrev pub is_alnum : ℕ → Bool
is_alnum c = (leb b'0' c && leb c b'9') || (leb b'A' c && leb c b'Z') || (leb b'a' c && leb c b'z')

unfoldable pub make_lowercase : Bytes → Bytes
make_lowercase [] = []
make_lowercase (c ∷ s) = lower c ∷ make_lowercase s

abbrev pub underscored : ℕ → ℕ
underscored c = if c == b'-' then b'_' else c

unfoldable pub dash_to_underscore : Bytes → Bytes
dash_to_underscore [] = []
dash_to_underscore (c ∷ s) = underscored c ∷ dash_to_underscore s

-- The two scans: up to the first space or the second dot, or the end.
abbrev pub is_end : ℕ → Bool
is_end c = c == b' ' || c == b'.'

unfoldable pub minor : Bytes → Bytes
minor [] = []
minor (c ∷ s) = if is_end c then [] else c ∷ minor s

unfoldable pub major : Bytes → Bytes
major [] = []
major (c ∷ s) =
    let rest = major s in if c == b'.' then c ∷ minor s else if c == b' ' then [] else c ∷ rest

-- The bytes that `check_valid_string` accepts.
abbrev pub is_valid_char : ℕ → Bool
is_valid_char c = is_alnum c || c == b'.' || c == b'-' || c == b'_'

unfoldable pub all_valid : Bytes → Bool
all_valid [] = true
all_valid (c ∷ s) = is_valid_char c && all_valid s

unfoldable pub is_valid : Bytes → Bool
is_valid [] = false
is_valid (c ∷ s) = all_valid (c ∷ s)

-- A text for which there may be no memory.
abbrev pub Copy : Type 0
Copy = Option Bytes × Memory

abbrev pub strdup : Memory → Bytes → Copy
strdup m t = let (room, m') = alloc m in ((if room then some t else none), m')

unfoldable pub mkver : Memory → Bytes → Copy
mkver m version = strdup m (make_lowercase (major version))
