-- ===== src/Wakeups/Sections.antt =====
-- src/up-wakeups.c: the sections of a line.
use upower.Prelude.{
  ℕ, ◌+◌, ◌-◌, ◌%◌, ◌^◌, ◌≤◌, ◌<◌, ◌≡◌, Bool, List, [], ◌∷◌, ◌++◌, length, Option, none, some,
  Bool-cases, inl, inr, arith, ◌==◌, if◌then◌else◌,
}
use upower.Prelude.Text.{Text}
use upower.Wakeups.Split.{Splitting, is_in, delimited, more, scan, strsplit_complete_set}

-- The sections that one byte adds, and those that come later.
abbrev followed : Splitting × List Text × Bool → (Splitting → List Text) → List Text
followed (next, added, ended) later = if ended then added else added ++ later next

-- With `tokens` sections done, there are no more than the maximum in the end.
abbrev IsWithin : ℕ → (Splitting → List Text) → Type 0
IsWithin max later = (s : Splitting) → s.tokens < max → length (later s) + s.tokens ≤ max

delimited-length :
    (max tokens : ℕ) (start : Option (Text × ℕ)) (later : Splitting → List Text)
    → max < 2 ^ 32
    → tokens < max
    → IsWithin max later
    → length (followed (delimited max tokens start) later) + tokens ≤ max
delimited-length max tokens none later word room within = within _ room
delimited-length max tokens (some (start, len)) later word room within =
    elim (Bool-cases (tokens == ((max + (2 ^ 32 - 1)) % 2 ^ 32))) [
      | inl last ↦ rw last (omega (arith, room))
      | inr other ↦
          let more_room : tokens + 1 < max = ground (arith, room, word, other) in
          let same : (tokens + 1) % 2 ^ 32 ≡ tokens + 1 = omega (arith, more_room, word) in
          let rest =
            within (record { start = none; tokens = (tokens + 1) % 2 ^ 32 }) (rw same more_room) in
          rw other (omega (arith, rest, same))
    ]

scan-IsWithin :
    (delimiters : Text) (max : ℕ) (text : Text)
    → max < 2 ^ 32
    → IsWithin max (λ s. scan delimiters max s text)
unfolding scan
scan-IsWithin delimiters max [] word s room = omega (arith, room)
scan-IsWithin delimiters max (c ∷ cs) word s room =
    let within = scan-IsWithin delimiters max cs word in
    elim (Bool-cases (is_in c delimiters)) [
      | inl ends ↦
          rw ends
            (delimited-length max s.tokens s.start (λ n. scan delimiters max n cs) word room within)
      | inr goes ↦ rw goes (within (record s { start = more (c ∷ cs) s.start }) room)
    ]

-- A line is never split into more sections than asked for, unless the number asked for is zero.
pub length-strsplit_complete_set :
    (string delimiters : Text) (max_tokens : ℕ)
    → 0 < max_tokens
    → max_tokens < 2 ^ 32
    → length (strsplit_complete_set string delimiters max_tokens) ≤ max_tokens
unfolding strsplit_complete_set
length-strsplit_complete_set string delimiters max_tokens some_room word =
    let bound =
      scan-IsWithin delimiters max_tokens string word (record { start = none; tokens = 0 })
        some_room in
    omega (arith, bound)
