-- ===== src/Text.antt =====
-- Texts as the program tests them: `_valid_text` of xsync_v2/state_machine.py, and the two regular
-- expressions of xsync_v2/work_identity.py, written out as walks over code points.
use Prim.Native.Char.{code}
use mathlib.Core.List.{reverse}
use x_sync.Prelude.{
  Bool, List, Option, String, [], all, false, if◌then◌else◌, is_empty, leb, length, none, not, some,
  true, when, ℕ, ℕ-eq, ◌&&◌, ◌==◌, ◌||◌, ◌∷◌,
}

-- The code points of a text. `String` has its own `[]` and `∷`.
abbrev pub codes : String → List ℕ
codes String.[] = []
codes (String.◌∷◌ c s) = code c ∷ codes s

between : ℕ → ℕ → ℕ → Bool
between lo hi c = leb lo c && leb c hi

-- The characters that `str.strip()` removes: Python's `str.isspace`.
unfoldable pub is_space : ℕ → Bool
unfolding between
is_space c =
    between 9 13 c
    || between 28 32 c
    || (c == 0x85)
    || (c == 0xa0)
    || (c == 0x1680)
    || between 0x2000 0x200a c
    || between 0x2028 0x2029 c
    || (c == 0x202f)
    || (c == 0x205f)
    || (c == 0x3000)

unfoldable pub lstrip : List ℕ → List ℕ
lstrip [] = []
lstrip (c ∷ cs) = elim (is_space c) [ true ↦ lstrip cs | false ↦ c ∷ cs ]

-- `value.strip()`.
unfoldable pub strip : List ℕ → List ℕ
strip cs = reverse (lstrip (reverse (lstrip cs)))

unfoldable pub valid_text : String → Bool
valid_text value = not (is_empty (strip (codes value)))

-- `[A-Za-z0-9]`.
unfoldable pub is_alnum : ℕ → Bool
unfolding between
is_alnum c = between b'A' b'Z' c || between b'a' b'z' c || between b'0' b'9' c

-- `[A-Za-z0-9._:-]`.
unfoldable pub is_id_char : ℕ → Bool
unfolding is_alnum
is_id_char c = is_alnum c || (c == b'.') || (c == b'_') || (c == b':') || (c == b'-')

-- `[A-Za-z0-9][A-Za-z0-9._:-]{0,127}\Z`.
unfoldable pub protocol_id_pattern : List ℕ → Bool
protocol_id_pattern [] = false
protocol_id_pattern (c ∷ cs) = is_alnum c && leb (length cs) 127 && all is_id_char cs

unfoldable pub is_protocol_id : String → Bool
is_protocol_id value = protocol_id_pattern (codes value)

unfoldable pub is_optional_protocol_id : Option String → Bool
is_optional_protocol_id value = when true is_protocol_id value

-- `[0-9a-f]`.
unfoldable pub is_hex_char : ℕ → Bool
unfolding between
is_hex_char c = between b'0' b'9' c || between b'a' b'f' c

-- `[0-9a-f]{64}\Z`.
unfoldable pub is_hex64 : List ℕ → Bool
is_hex64 cs = (length cs == 64) && all is_hex_char cs

-- The text behind a literal prefix of a pattern.
unfoldable pub after : List ℕ → List ℕ → Option (List ℕ)
after [] cs = some cs
after (p ∷ ps) [] = none
after (p ∷ ps) (c ∷ cs) = if p == c then after ps cs else none

-- `sha256:[0-9a-f]{64}\Z`.
unfoldable pub sha256_digest_pattern : List ℕ → Bool
sha256_digest_pattern cs = when false is_hex64 (after (codes "sha256:") cs)

unfoldable pub is_sha256_digest : String → Bool
is_sha256_digest value = sha256_digest_pattern (codes value)

unfoldable pub is_optional_sha256_digest : Option String → Bool
is_optional_sha256_digest value = when true is_sha256_digest value
