-- ===== src/Wakeups/Split.antt =====
-- src/up-wakeups.c: `up_strsplit_complete_set`, which splits a line of a file of /proc.
use upower.Prelude.{
  ℕ, ◌+◌, ◌-◌, ◌%◌, ◌^◌, Bool, true, false, ◌||◌, List, [], ◌∷◌, ◌++◌, take, Option, none, some,
  ltb, ◌==◌, if◌then◌else◌,
}
use upower.Prelude.Text.{Text}

unfoldable pub is_in : ℕ → Text → Bool
is_in needle [] = false
is_in needle (d ∷ delimiters) = (d == needle) || is_in needle delimiters

-- `start` is the text from where the section began, with the number of its bytes up to here.
pub record Splitting : Type 0 where
  pub start : Option (Text × ℕ)
  pub tokens : ℕ

-- What one byte does: the next state, the sections it adds, and whether it ends the loop.
abbrev pub delimited : ℕ → ℕ → Option (Text × ℕ) → Splitting × List Text × Bool
delimited max_tokens tokens none = (record { start = none; tokens = tokens }, [], false)
delimited max_tokens tokens (some (start, len)) =
    if tokens == ((max_tokens + (2 ^ 32 - 1)) % 2 ^ 32)
    then (record { start = none; tokens = tokens }, start ∷ [], true)
    else (
      record { start = none; tokens = (tokens + 1) % 2 ^ 32 },
      take (if ltb 99 len then 99 else len) start ∷ [],
      false,
    )

abbrev pub more : Text → Option (Text × ℕ) → Option (Text × ℕ)
more text none = some (text, 1)
more text (some (start, len)) = some (start, len + 1)

abbrev pub advance : Text → ℕ → Splitting → ℕ → Text → Splitting × List Text × Bool
advance delimiters max_tokens s c text =
    if is_in c delimiters
    then delimited max_tokens s.tokens s.start
    else (record s { start = more text s.start }, [], false)

-- The section at the end of the text is not added.
unfoldable pub scan : Text → ℕ → Splitting → Text → List Text
unfolding is_in
scan delimiters max_tokens s [] = []
scan delimiters max_tokens s (c ∷ cs) =
    let (next, added, ended) = advance delimiters max_tokens s c (c ∷ cs) in
    let later = scan delimiters max_tokens next cs in if ended then added else added ++ later

unfoldable pub strsplit_complete_set : Text → Text → ℕ → List Text
unfolding scan
strsplit_complete_set string delimiters max_tokens =
    scan delimiters max_tokens (record { start = none; tokens = 0 }) string
