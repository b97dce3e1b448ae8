-- ===== src/Llm/Json.antt =====
-- internal/llm/client.go: how a model's answer is searched for JSON. A text is its list of bytes.
-- The trimming of white space (`TrimSpace`, which knows Unicode's tables) and the JSON decoder are
-- parameters.
pub mod Brackets
pub mod Fence
use cryptofunk.Prelude.{
  ℕ, zero, suc, ◌+◌, ◌-◌, Bool, true, false, not, ◌&&◌, ◌||◌, Option, none, some, List, [], ◌∷◌,
  ◌==◌, if◌then◌else◌,
}

abbrev pub Bytes : Type 0
Bytes = List ℕ

abbrev pub is_opener : ℕ → Bool
is_opener x = x == b'{' || x == b'['

-- The content from its first `{` or `[` on, and whether that is a `[`.
first_opener : Bytes → Option (Bool × Bytes)
first_opener [] = none
first_opener (x ∷ xs) =
    let rest = first_opener xs in
    if x == b'{' then some (false, x ∷ xs) else if x == b'[' then some (true, x ∷ xs) else rest

abbrev pub open_char : Bool → ℕ
open_char is_array = if is_array then b'[' else b'{'

abbrev pub close_char : Bool → ℕ
close_char is_array = if is_array then b']' else b'}'

-- `depth` after a byte. It is at least 1 whenever a closing byte is read, since the scan starts at
-- an opening one.
abbrev pub next_depth : Bool → ℕ → ℕ → ℕ
next_depth a x depth =
    if x == open_char a then depth + 1 else if x == close_char a then depth - 1 else depth

abbrev pub is_last : Bool → ℕ → ℕ → Bool
is_last a x depth = not (x == open_char a) && (x == close_char a && next_depth a x depth == 0)

abbrev pub cons_to : ℕ → Option Bytes → Option Bytes
cons_to x none = none
cons_to x (some xs) = some (x ∷ xs)

-- The loop that looks for the matching bracket: what it has read when the depth falls to 0.
unfoldable pub take_closed : Bool → ℕ → Bytes → Option Bytes
take_closed a depth [] = none
take_closed a depth (x ∷ xs) =
    let rest = take_closed a (next_depth a x depth) xs in
    if is_last a x depth then some (x ∷ []) else cons_to x rest

-- The Go functions return the empty string for nothing found.
abbrev pub or_empty : Option Bytes → Bytes
or_empty none = []
or_empty (some xs) = xs

closed_from : Option (Bool × Bytes) → Bytes
unfolding take_closed
closed_from none = []
closed_from (some (a, xs)) = or_empty (take_closed a 0 xs)

-- What follows a prefix.
strip : Bytes → Bytes → Option Bytes
strip [] s = some s
strip (p ∷ ps) [] = none
strip (p ∷ ps) (x ∷ xs) = let rest = strip ps xs in if p == x then rest else none

abbrev pub cons_before : ℕ → Option (Bytes × Bytes) → Option (Bytes × Bytes)
cons_before x none = none
cons_before x (some (before, after)) = some (x ∷ before, after)

-- `bytes.Index` of a pattern that is not empty: what is before its first occurrence and after it.
cut : Bytes → Bytes → Option (Bytes × Bytes)
unfolding strip
cut pattern [] = none
cut pattern (x ∷ xs) =
    let later = cut pattern xs in
    elim (strip pattern (x ∷ xs)) [ some after ↦ some ([], after) | none ↦ cons_before x later ]

abbrev pub fence : Bytes
fence = b'`' ∷ b'`' ∷ b'`' ∷ []

abbrev pub json_fence : Bytes
json_fence = b'`' ∷ b'`' ∷ b'`' ∷ b'j' ∷ b's' ∷ b'o' ∷ b'n' ∷ []

abbrev newline : ℕ
newline = 10

abbrev pub json_fence_line : Bytes
json_fence_line = b'`' ∷ b'`' ∷ b'`' ∷ b'j' ∷ b's' ∷ b'o' ∷ b'n' ∷ newline ∷ []

abbrev pub fence_line : Bytes
fence_line = b'`' ∷ b'`' ∷ b'`' ∷ newline ∷ []

-- "Validate it looks like JSON before returning"
abbrev pub looks_like_json : Bytes → Bool
looks_like_json [] = false
looks_like_json (x ∷ xs) = is_opener x

module _ (trim : Bytes → Bytes) where
  unfoldable pub extract_first_json_object : Bytes → Bytes
  unfolding first_opener closed_from
  extract_first_json_object content = closed_from (first_opener (trim content))

  -- One of the four patterns: the text between it and the next fence, if that looks like JSON.
  fenced : Bytes → Bytes → Option Bytes
  unfolding cut
  fenced pattern content = elim (cut pattern content) [
    | none ↦ none
    | some (_, rest) ↦ elim (cut fence rest) [
      | none ↦ none
      | some (inside, _) ↦
          let extracted = trim inside in if looks_like_json extracted then some extracted else none
    ]
  ]

  first_fenced : List Bytes → Bytes → Bytes
  unfolding fenced
  first_fenced [] content = []
  first_fenced (p ∷ ps) content =
      let others = first_fenced ps content in
      elim (fenced p content) [ none ↦ others | some extracted ↦ extracted ]

  unfoldable pub extract_json_from_markdown : Bytes → Bytes
  unfolding first_fenced
  extract_json_from_markdown = first_fenced (json_fence_line ∷ json_fence ∷ fence_line ∷ fence ∷ [])

  module _ {T : Type 0} (decode : Bytes → Option T) where
    -- The first candidate that is not empty and that the decoder accepts.
    first_decoded : List Bytes → Option T
    first_decoded [] = none
    first_decoded ([] ∷ rest) = first_decoded rest
    first_decoded ((x ∷ xs) ∷ rest) =
        let others = first_decoded rest in
        elim (decode (x ∷ xs)) [ some value ↦ some value | none ↦ others ]

    unfoldable pub parse_json_response : Bytes → Option T
    unfolding first_decoded extract_json_from_markdown extract_first_json_object
    parse_json_response content =
        first_decoded (
          extract_json_from_markdown content
          ∷ extract_first_json_object content
          ∷ trim content
          ∷ [])
