-- ===== src/Proxy/Routing/Paths.antt =====
-- The request paths of routing.rs: the capabilities that a path asks for, its metric name, and
-- whether it needs a model.
pub mod Members
pub mod Names
pub mod Candidates
use Prim.Native.Char.{code}
use Prim.Native.String
use Prim.Native.String.{[], ◌∷◌}
use onair.Prelude.{
  ℕ, String, Char, Bool, not, ◌&&◌, ◌||◌, List, [], ◌∷◌, map, ◌==◌, eqb, ltb, filter, is_empty,
  trim_start_matches, trim_end_matches, strip_prefix, split, unwrap_or, StringSet, contains, insert,
  if◌then◌else◌, ◌+ˢ◌,
}
use onair.Core.Config.Markers.{responses_via_chat_completions}

-- `str::ends_with`
pub ends_with : String → String → Bool
ends_with p [] = p == []
ends_with p (c ∷ s) = p == (c ∷ s) || ends_with p s

-- `char::to_ascii_lowercase`, of the 26 letters
abbrev lowercase_of : List (ℕ × String)
lowercase_of =
    (b'A', "a")
    ∷ (b'B', "b")
    ∷ (b'C', "c")
    ∷ (b'D', "d")
    ∷ (b'E', "e")
    ∷ (b'F', "f")
    ∷ (b'G', "g")
    ∷ (b'H', "h")
    ∷ (b'I', "i")
    ∷ (b'J', "j")
    ∷ (b'K', "k")
    ∷ (b'L', "l")
    ∷ (b'M', "m")
    ∷ (b'N', "n")
    ∷ (b'O', "o")
    ∷ (b'P', "p")
    ∷ (b'Q', "q")
    ∷ (b'R', "r")
    ∷ (b'S', "s")
    ∷ (b'T', "t")
    ∷ (b'U', "u")
    ∷ (b'V', "v")
    ∷ (b'W', "w")
    ∷ (b'X', "x")
    ∷ (b'Y', "y")
    ∷ (b'Z', "z")
    ∷ []

lowercase_in : List (ℕ × String) → Char → String
lowercase_in [] c = c ∷ []
lowercase_in ((k, s) ∷ table) c = if eqb (code c) k then s else lowercase_in table c

normalize_char : Char → String
normalize_char c = if eqb (code c) b'-' then "_" else lowercase_in lowercase_of c

unfoldable pub normalize_segment : String → String
unfolding normalize_char lowercase_in
normalize_segment [] = []
normalize_segment (c ∷ s) = normalize_char c +ˢ normalize_segment s

-- `segment.strip_suffix('s').unwrap_or(segment)`
unfoldable pub singularize : String → String
singularize [] = []
singularize (c ∷ s) =
    let rest = singularize s in if eqb (code c) b's' && is_empty s then [] else c ∷ rest

abbrev longer_than_one : String → Bool
longer_than_one s = ltb 1 (String.len s)

-- The candidates that the first segment alone adds.
pub first_candidates : String → StringSet → StringSet
first_candidates first set =
    if ends_with "s" first && longer_than_one first
    then insert (singularize first) (insert first set)
    else insert first set

second_candidates : String → List String → StringSet → StringSet
second_candidates first [] set = set
second_candidates first (second ∷ rest) set = insert (first +ˢ "_" +ˢ second) (insert second set)

third_candidates : String → List String → StringSet → StringSet
third_candidates first (second ∷ third ∷ rest) set =
    insert third (insert (first +ˢ "_" +ˢ third) set)
third_candidates first _ set = set

pub family_candidates : String → StringSet → StringSet
family_candidates first set =
    if first == "chat"
    then insert "completions" (insert "chat_completions" set)
    else if first == "responses"
    then insert responses_via_chat_completions set
    else if first == "messages"
    then insert "messages" set
    else if first == "images"
    then insert "image" set
    else if first == "files"
    then insert "file" set
    else if first == "models"
    then insert "model" set
    else if first == "audio"
    then insert "audio" set
    else set

candidates_of : List String → StringSet
candidates_of [] = []
candidates_of (first ∷ rest) =
    family_candidates first
      (third_candidates first rest (second_candidates first rest (first_candidates first [])))

trimmed_path : String → String
trimmed_path path = trim_start_matches b'/' (unwrap_or (strip_prefix "/v1/" path) path)

unfoldable pub path_capability_candidates : String → StringSet
unfolding candidates_of first_candidates second_candidates third_candidates family_candidates
    trimmed_path normalize_segment singularize ends_with insert
path_capability_candidates path =
    let trimmed = trimmed_path path in
    if is_empty trimmed
    then []
    else candidates_of
        (map normalize_segment (filter (λ segment. not (is_empty segment)) (split b'/' trimmed)))

first_or_unknown : StringSet → String
first_or_unknown [] = "unknown"
first_or_unknown (x ∷ xs) = x

unfoldable pub path_metric_name : String → String
unfolding first_or_unknown ends_with path_capability_candidates
path_metric_name path =
    let normalized = trim_end_matches b'/' path in
    if ends_with "/chat/completions" normalized
    then "chat_completions"
    else if ends_with "/chat/completion" normalized
    then "chat_completions"
    else if ends_with "/responses" normalized
    then "responses"
    else if ends_with "/messages" normalized
    then "messages"
    else first_or_unknown (path_capability_candidates path)

unfoldable pub path_requires_model : String → Bool
path_requires_model path =
    contains
      ("/v1/chat/completions" ∷ "/v1/chat/completion" ∷ "/v1/responses" ∷ "/v1/messages"
        ∷ "/v1/embeddings" ∷ "/v1/audio/transcriptions" ∷ "/v1/audio/translations"
        ∷ "/v1/images/generations" ∷ "/v1/images/edits" ∷ "/v1/images/variations" ∷ [])
      (trim_end_matches b'/' path)
