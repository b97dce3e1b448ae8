-- ===== src/Llm/Json/Fence.antt =====
-- What `extractJSONFromMarkdown` and `ParseJSONResponse` of internal/llm/client.go find.
use cryptofunk.Prelude.{◌≡◌, ◌≢◌, refl, true, some, Option, List, [], ◌∷◌, ◌++◌, arith, All}
use cryptofunk.Llm.Json.{
  Bytes, strip, cut, fence, json_fence_line, newline, looks_like_json, fenced, first_fenced,
  extract_json_from_markdown, parse_json_response, first_decoded,
}

abbrev pub HasNoTick : Bytes → Type 0
HasNoTick = All (λ x. x ≢ b'`')

strip-append : (p s : Bytes) → strip p (p ++ s) ≡ some s
unfolding strip
strip-append [] s = refl
strip-append (x ∷ p) s = ground (arith, strip-append p s)

-- A pattern that begins with a backtick is first found after a text without backticks.
cut-append :
    (p pre s : Bytes) → HasNoTick pre → cut (b'`' ∷ p) (pre ++ ((b'`' ∷ p) ++ s)) ≡ some (pre, s)
unfolding cut
cut-append p [] s h = rw (strip-append p s, strip)
cut-append p (x ∷ pre) s h = ground (arith, cut-append p pre s h.1)

-- `pre`, a line that opens a block of JSON, the block, and the fence that closes it.
abbrev pub in_block : Bytes → Bytes → Bytes → Bytes
in_block pre body post = pre ++ (json_fence_line ++ (body ++ (fence ++ post)))

fenced-in_block :
    (trim : Bytes → Bytes) (pre body post : Bytes)
    → HasNoTick pre
    → HasNoTick body
    → looks_like_json (trim body) ≡ true
    → fenced trim json_fence_line (in_block pre body post) ≡ some (trim body)
unfolding fenced
fenced-in_block trim pre body post h b l =
    let opened : cut json_fence_line (in_block pre body post)
        ≡ some (pre, body ++ (fence ++ post)) =
      cut-append (b'`' ∷ b'`' ∷ b'j' ∷ b's' ∷ b'o' ∷ b'n' ∷ newline ∷ []) pre
        (body ++ (fence ++ post)) h in
    let closed : cut fence (body ++ (fence ++ post)) ≡ some (body, post) =
      cut-append (b'`' ∷ b'`' ∷ []) body post b in
    rw (opened, fenced) (rw closed (rw l))

markdown-in_block :
    (trim : Bytes → Bytes) (pre body post : Bytes)
    → HasNoTick pre
    → HasNoTick body
    → looks_like_json (trim body) ≡ true
    → extract_json_from_markdown trim (in_block pre body post) ≡ trim body
unfolding extract_json_from_markdown
markdown-in_block trim pre body post h b l =
    rw (fenced-in_block trim pre body post h b l, first_fenced)

decoded-first :
    {T : Type 0} (trim : Bytes → Bytes) (decode : Bytes → Option T) (xs : Bytes) (rest : List Bytes)
    (v : T)
    → looks_like_json xs ≡ true
    → decode xs ≡ some v
    → first_decoded trim decode (xs ∷ rest) ≡ some v
unfolding first_decoded
decoded-first trim decode [] rest v l e = cc
decoded-first trim decode (x ∷ xs) rest v l e = rw (e, first_decoded)

-- A JSON value that a model writes in a fenced block is read back: with no backtick before the
-- block or in it, and a block that begins with a bracket once trimmed, the block is what
-- `extractJSONFromMarkdown` returns, and if the decoder reads it, that is the parsed answer,
-- whatever follows the block.
pub parse_json_response-in_block :
    {T : Type 0} (trim : Bytes → Bytes) (decode : Bytes → Option T) (pre body post : Bytes) (v : T)
    → HasNoTick pre
    → HasNoTick body
    → looks_like_json (trim body) ≡ true
    → decode (trim body) ≡ some v
    → (extract_json_from_markdown trim (in_block pre body post) ≡ trim body)
      × (parse_json_response trim decode (in_block pre body post) ≡ some v)
unfolding parse_json_response
parse_json_response-in_block trim decode pre body post v h b l e =
    let block = markdown-in_block trim pre body post h b l in
    (block, rw block (decoded-first trim decode (trim body) _ v l e))
