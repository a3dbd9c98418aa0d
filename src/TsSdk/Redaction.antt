-- ===== src/TsSdk/Redaction.antt =====
-- sdks/typescript/src/redaction.ts: API keys are taken out of texts.
use cryptokorr.Common.{
  ℕ, suc, ◌+◌, ◌==◌, Text, codes, text_eq, to_lower, begins_with, drop, is_digit, is_lower,
  is_upper, leb, not, Bool, ◌||◌, ◌&&◌, Option, none, some, List, [], ◌∷◌, map, if◌then◌else◌,
  Matcher, replace_all, all_some,
}

abbrev pub redacted : Text
redacted = codes "[REDACTED]"

-- `\w`, and `[A-Za-z0-9_-]`
abbrev pub is_word_code : ℕ → Bool
is_word_code c = is_lower c || is_upper c || is_digit c || c == b'_'

abbrev pub is_key_code : ℕ → Bool
is_key_code c = is_word_code c || c == b'-'

abbrev xor : Bool → Bool → Bool
xor a b = if a then not b else b

-- `[A-Za-z0-9_-]{16,}\b` after `n` such code units, the last of which is `before`: the longest match,
-- if there is one, or else the longest so far.
unfoldable pub longest_key : ℕ → ℕ → Option ℕ → Text → Option ℕ
longest_key n before best [] = if leb 16 n && is_word_code before then some n else best
longest_key n before best (c ∷ s) =
    let here = if leb 16 n && xor (is_word_code before) (is_word_code c) then some n else best in
    let further = longest_key (suc n) c here s in if is_key_code c then further else here

-- `/\bcb_[A-Za-z0-9_-]{16,}\b/`
unfoldable pub match_api_key : Matcher
unfolding longest_key
match_api_key before s =
    if begins_with (codes "cb_") s && all_some (λ c. not (is_word_code c)) before
    then elim (longest_key 0 b'_' none (drop 3 s)) [ none ↦ none | some n ↦ some (redacted, n + 3) ]
    else none

unfoldable pub redact_string : Text → Text
redact_string value = replace_all match_api_key value

-- The value of a header as it may be logged.
unfoldable pub redact_header : Text × Text → Text × Text
redact_header (name, value) = (
  name,
  if text_eq (to_lower name) (codes "authorization") then redacted else redact_string value,
)

unfoldable pub redact_headers : List (Text × Text) → List (Text × Text)
unfolding redact_header
redact_headers headers = map redact_header headers
