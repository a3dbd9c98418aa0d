-- ===== src/Grant/Redaction.antt =====
-- chain_adapter/src/chains/base/grant.ts: `redactGrantError`, on the error's message.
use cryptokorr.Common.{
  ℕ, ◌+◌, ◌==◌, Text, codes, nonempty, length, begins_with, not, Bool, ◌||◌, ◌&&◌, Option, none,
  some, [], ◌∷◌, ◌++◌, if◌then◌else◌, Matcher, replace_all, take_while, drop_while, is_space, drop,
}

-- `[^/\s"]` and `[^\s"]`
abbrev pub is_path_code : ℕ → Bool
is_path_code c = not (is_space c || c == b'"')

abbrev pub is_host_code : ℕ → Bool
is_host_code c = not (c == b'/' || is_space c || c == b'"')

-- `([^/\s"]+)\/[^\s"]*` after a scheme and its `//`.
unfoldable pub match_after_scheme : Text → Text → Option (Text × ℕ)
match_after_scheme scheme s =
    let host = take_while is_host_code s in
    elim (drop_while is_host_code s) [
      | [] ↦ none
      | c ∷ rest ↦
          if nonempty host && c == b'/'
          then some (
            scheme ++ host ++ codes "/<redacted>",
            length scheme + length host + 1 + length (take_while is_path_code rest),
          )
          else none
    ]

-- `/(https?:)\/\/([^/\s"]+)\/[^\s"]*/`, and its replacement `$1//$2/<redacted>`.
unfoldable pub match_url : Matcher
unfolding match_after_scheme
match_url before s =
    if begins_with (codes "https://") s
    then match_after_scheme (codes "https://") (drop 8 s)
    else if begins_with (codes "http://") s
    then match_after_scheme (codes "http://") (drop 7 s)
    else none

unfoldable pub redact_grant_error : Text → Text
redact_grant_error message = replace_all match_url message
