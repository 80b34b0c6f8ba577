-- ===== src/Core/Sanitize.antt =====
-- crates/onair-core/src/sanitize.rs: texts made safe for paths, keys and log lines.
pub mod Laws
use Prim.Native.String.{[], ◌∷◌}
use onair.Prelude.{
  ℕ, zero, suc, Char, code, String, Bool, ◌&&◌, ◌||◌, Option, none, some, leb, ltb, eqb, is_empty,
  if◌then◌else◌,
}

abbrev pub storage_segment_max_chars : ℕ
storage_segment_max_chars = 160

abbrev pub display_segment_max_chars : ℕ
display_segment_max_chars = 512

-- `is_ascii_alphanumeric() || matches!(character, '-' | '_' | '.')`
abbrev pub is_kept : Char → Bool
is_kept c =
    let n = code c in
    (leb b'0' n && leb n b'9')
    || (leb b'A' n && leb n b'Z')
    || (leb b'a' n && leb n b'z')
    || eqb n b'-'
    || eqb n b'_'
    || eqb n b'.'

-- `is_ascii() && !is_ascii_control()`
abbrev pub is_printable : Char → Bool
is_printable c = leb 32 (code c) && ltb (code c) 127

-- The characters that `filter_map` lets through, the rest as '_'.
unfoldable pub projected : String → String
projected [] = []
projected (c ∷ s) =
    let rest = projected s in
    if is_kept c then c ∷ rest else if is_printable c then "_" ∷ rest else rest

-- `take(max_chars)` and `collect`.
unfoldable pub take_chars : ℕ → String → String
take_chars zero s = []
take_chars (suc n) [] = []
take_chars (suc n) (c ∷ s) = c ∷ take_chars n s

non_empty_text : String → Option String
non_empty_text s = if is_empty s then none else some s

unfoldable pub sanitize_for_storage : String → ℕ → Option String
unfolding projected take_chars non_empty_text
sanitize_for_storage value max_chars = non_empty_text (take_chars max_chars (projected value))
