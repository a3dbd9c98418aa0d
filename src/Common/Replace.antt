-- ===== src/Common/Replace.antt =====
-- `s.replace(pattern, ...)` with a global pattern: the leftmost match is replaced, and the search goes
-- on after it. A pattern is given as its match at the start of a text, with the code unit before it:
-- the replacement, and the length of the match, which is not 0.
use Prim.Native.Nat.{ℕ, zero, suc, ◌-◌}
use mathlib.Core.Bool.{Bool, ◌||◌, ◌&&◌}
use mathlib.Core.Option.{Option, none, some}
use mathlib.Core.List.{[], ◌∷◌, ◌++◌}
use cryptokorr.Common.Core.{leb, ◌==◌, if◌then◌else◌, any}
use cryptokorr.Common.Texts.{Text}

abbrev pub Matcher : Type 0
Matcher = Option ℕ → Text → Option (Text × ℕ)

-- What the search does with the rest of a match, and with the text after it.
unfoldable pub replace_from : Matcher → ℕ → Option ℕ → Text → Text
replace_from match skip before [] = []
replace_from match (suc skip) before (c ∷ s) = replace_from match skip (some c) s
replace_from match zero before (c ∷ s) = elim (match before (c ∷ s)) [
  | none ↦ c ∷ replace_from match 0 (some c) s
  | some found ↦ found.0 ++ replace_from match (found.1 - 1) (some c) s
]

unfoldable pub replace_all : Matcher → Text → Text
unfolding replace_from
replace_all match s = replace_from match 0 none s

-- The longest prefix of such code units, and what comes after it.
abbrev pub take_while : (ℕ → Bool) → Text → Text
take_while p [] = []
take_while p (c ∷ s) = if p c then c ∷ take_while p s else []

abbrev pub drop_while : (ℕ → Bool) → Text → Text
drop_while p [] = []
drop_while p (c ∷ s) = if p c then drop_while p s else c ∷ s

-- `\s`
unfoldable pub is_space : ℕ → Bool
is_space c =
    (leb 9 c && leb c 13)
    || (leb 0x2000 c && leb c 0x200a)
    || any (λ d. c == d)
        (32 ∷ 160 ∷ 0x1680 ∷ 0x2028 ∷ 0x2029 ∷ 0x202f ∷ 0x205f ∷ 0x3000 ∷ 0xfeff ∷ [])
