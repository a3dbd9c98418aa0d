-- ===== src/TsSdk/Case/Keys.antt =====
-- The keys that survive the way to the SDK and back.
use cryptokorr.Common.{
  ℕ, Text, is_lower, lower_code, upper_code, to_lower, ◌≡◌, refl, ap, true, [], ◌∷◌, map, arith,
}
use mathlib.Core.Path.{ap₂}
use cryptokorr.TsSdk.Case.{is_lower_or_digit, camel_key, split_words, snake_key}

-- What follows a lower-case letter or a digit in a snake_case key: each word after the first begins
-- with a letter, and has more than one code unit unless it is the last.
pub data SnakeTail : Text → Type 0 where
  done : SnakeTail []
  same_word : (c : ℕ) (t : Text) → is_lower_or_digit c ≡ true → SnakeTail t → SnakeTail (c ∷ t)
  last_letter : (d : ℕ) → is_lower d ≡ true → SnakeTail (b'_' ∷ d ∷ [])
  next_word :
      (d y : ℕ) (t : Text)
      → is_lower d ≡ true
      → is_lower_or_digit y ≡ true
      → SnakeTail t
      → SnakeTail (b'_' ∷ d ∷ y ∷ t)

pub data IsSnakeKey : Text → Type 0 where
  snake : (c : ℕ) (t : Text) → is_lower_or_digit c ≡ true → SnakeTail t → IsSnakeKey (c ∷ t)

camel_key-keeps :
    (c : ℕ) (t : Text) → is_lower_or_digit c ≡ true → camel_key (c ∷ t) ≡ c ∷ camel_key t
unfolding camel_key
camel_key-keeps c [] h = refl
camel_key-keeps c (d ∷ s) h = ground arith

camel_key-joins :
    (d : ℕ) (t : Text) → is_lower d ≡ true → camel_key (b'_' ∷ d ∷ t) ≡ upper_code d ∷ camel_key t
unfolding camel_key
camel_key-joins d t h = ground arith

split_words-keeps :
    (c d : ℕ) (t : Text)
    → is_lower_or_digit d ≡ true
    → split_words (c ∷ d ∷ t) ≡ c ∷ split_words (d ∷ t)
unfolding split_words
split_words-keeps c d t h = ground arith

split_words-parts :
    (c d : ℕ) (t : Text)
    → is_lower_or_digit c ≡ true
    → is_lower d ≡ true
    → split_words (c ∷ upper_code d ∷ t) ≡ c ∷ b'_' ∷ upper_code d ∷ split_words t
unfolding split_words upper_code
split_words-parts c d t h k = ground arith

lower_code-keeps : (c : ℕ) → is_lower_or_digit c ≡ true → lower_code c ≡ c
unfolding lower_code
lower_code-keeps c h = ground arith

lower_code-upper_code : (c : ℕ) → is_lower c ≡ true → lower_code (upper_code c) ≡ c
unfolding lower_code upper_code
lower_code-upper_code c h = ground arith

is_lower-or-digit : (c : ℕ) → is_lower c ≡ true → is_lower_or_digit c ≡ true
is_lower-or-digit c h = rw h refl

SnakeTail-camel_key :
    (x : ℕ) (t : Text)
    → is_lower_or_digit x ≡ true
    → SnakeTail t
    → map lower_code (split_words (x ∷ camel_key t)) ≡ x ∷ t
unfolding split_words camel_key lower_code
SnakeTail-camel_key x _ h done = ap (λ c. c ∷ []) (lower_code-keeps x h)
SnakeTail-camel_key x _ h (same_word c t k tail) =
    rw (camel_key-keeps c t k, split_words-keeps x c (camel_key t) k)
      (ap₂ ◌∷◌ (lower_code-keeps x h) (SnakeTail-camel_key c t k tail))
SnakeTail-camel_key x _ h (last_letter d k) =
    rw (camel_key-joins d [] k, split_words-parts x d [] h k)
      (ap₂ (λ a b. a ∷ b'_' ∷ b ∷ []) (lower_code-keeps x h) (lower_code-upper_code d k))
SnakeTail-camel_key x _ h (next_word d y t k k' tail) =
    rw
      (
        camel_key-joins d (y ∷ t) k,
        split_words-parts x d (camel_key (y ∷ t)) h k,
        camel_key-keeps y t k',
        lower_code-keeps x h,
        lower_code-upper_code d k,
      )
      (ap (λ s. x ∷ b'_' ∷ d ∷ s) (SnakeTail-camel_key y t k' tail))

pub snake_key-camel_key : (key : Text) → IsSnakeKey key → snake_key (camel_key key) ≡ key
unfolding snake_key to_lower
snake_key-camel_key _ (snake c t h tail) =
    rw (camel_key-keeps c t h) (SnakeTail-camel_key c t h tail)
