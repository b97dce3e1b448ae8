-- ===== src/Llm/Json/Brackets.antt =====
-- What `extractFirstJSONObject` of internal/llm/client.go finds.
use cryptofunk.Prelude.{
  ℕ, ◌+◌, ◌<◌, ◌≡◌, ◌≢◌, ◌↔◌, refl, sym, ap, ◌∙◌, inl, inr, Bool, true, false, none, some, Option,
  [], ◌∷◌, ◌++◌, ◌==◌, if◌then◌else◌, subst, arith, Bool-cases, Option-cases, All,
}
use cryptofunk.Llm.Json.{
  Bytes, is_opener, first_opener, open_char, close_char, next_depth, is_last, cons_to, take_closed,
  or_empty, closed_from, extract_first_json_object,
}

-- How often a byte stands in a text.
abbrev pub count : ℕ → Bytes → ℕ
count b [] = 0
count b (x ∷ xs) = (if x == b then 1 else 0) + count b xs

-- From a depth of `d`, the text comes to depth 0 at its end and not before.
abbrev pub ClosesFrom : Bool → ℕ → Bytes → Type 0
ClosesFrom a d out =
    (count (close_char a) out ≡ count (open_char a) out + d)
    × ((p q : Bytes) (y : ℕ)
        → out ≡ p ++ y ∷ q
        → count (close_char a) p < count (open_char a) p + d)

abbrev weight : ℕ → ℕ → ℕ
weight b x = if x == b then 1 else 0

-- One byte that does not end the text moves the depth by what it opens and closes.
next_depth_lem :
    (a : Bool) (x d : ℕ)
    → 0 < d
    → is_last a x d ≡ false
    → (0 < next_depth a x d)
      × (next_depth a x d + weight (close_char a) x ≡ d + weight (open_char a) x)
next_depth_lem true x d h l = ground arith
next_depth_lem false x d h l = ground arith

is_last_lem :
    (a : Bool) (x d : ℕ)
    → 0 < d
    → is_last a x d ≡ true
    → (d ≡ 1) × (weight (close_char a) x ≡ 1) × (weight (open_char a) x ≡ 0)
is_last_lem true x d h l = ground arith
is_last_lem false x d h l = ground arith

cons-ClosesFrom :
    (a : Bool) (x d : ℕ) (out : Bytes)
    → 0 < d
    → is_last a x d ≡ false
    → ClosesFrom a (next_depth a x d) out
    → ClosesFrom a d (x ∷ out)
cons-ClosesFrom a x d out h l (total, inside) =
    let (p, w) = next_depth_lem a x d h l in (omega (arith, p, w, total), split w)
  where
    split :
        next_depth a x d + weight (close_char a) x ≡ d + weight (open_char a) x
        → (p q : Bytes) (y : ℕ) → x ∷ out ≡ p ++ y ∷ q
        → count (close_char a) p < count (open_char a) p + d
    split w [] q y e = omega arith
    split w (z ∷ p) q y e =
        let same : x ≡ z = cc in
        let rest : out ≡ p ++ y ∷ q = cc in
        let below = inside p q y rest in rw (← same) (omega (arith, below, w))

uncons-ClosesFrom :
    (a : Bool) (x d : ℕ) (out : Bytes)
    → 0 < d
    → is_last a x d ≡ false
    → ClosesFrom a d (x ∷ out)
    → ClosesFrom a (next_depth a x d) out
uncons-ClosesFrom a x d out h l (total, inside) =
    let (p, w) = next_depth_lem a x d h l in
    (
      omega (arith, p, w, total),
      λ p' q y e. let below = inside (x ∷ p') q y (ap (λ r. x ∷ r) e) in omega (arith, w, below),
    )

last-ClosesFrom : (a : Bool) (x d : ℕ) → 0 < d → is_last a x d ≡ true → ClosesFrom a d (x ∷ [])
last-ClosesFrom a x d h l =
    let (one, c, o) = is_last_lem a x d h l in (omega (arith, one, c, o), split)
  where
    split :
        (p q : Bytes) (y : ℕ)
        → x ∷ [] ≡ p ++ y ∷ q
        → count (close_char a) p < count (open_char a) p + d
    split [] q y e = omega arith
    split (z ∷ []) q y e = cc
    split (z ∷ z' ∷ p) q y e = cc

last_only :
    (a : Bool) (x d : ℕ) (out : Bytes)
    → 0 < d
    → is_last a x d ≡ true
    → ClosesFrom a d (x ∷ out)
    → out ≡ []
last_only a x d [] h l c = refl
last_only a x d (y ∷ q) h l (total, inside) =
    let (one, c, o) = is_last_lem a x d h l in
    let below = inside (x ∷ []) q y refl in absurd (omega (arith, one, c, o, below))

take_closed-last :
    (a : Bool) (d x : ℕ) (xs : Bytes)
    → is_last a x d ≡ true
    → take_closed a d (x ∷ xs) ≡ some (x ∷ [])
unfolding take_closed
take_closed-last a d x xs l = rw l

take_closed-cons :
    (a : Bool) (d x : ℕ) (xs : Bytes)
    → is_last a x d ≡ false
    → take_closed a d (x ∷ xs) ≡ cons_to x (take_closed a (next_depth a x d) xs)
unfolding take_closed
take_closed-cons a d x xs l = rw l

cons_to-some :
    (x : ℕ) (o : Option Bytes) (out : Bytes)
    → cons_to x o ≡ some out
    → (out' : Bytes) × (o ≡ some out') × (out ≡ x ∷ out')
cons_to-some x none out e = cc
cons_to-some x (some out') out e = (out', refl, cc)

take_closed-ClosesFrom :
    (a : Bool) (d : ℕ) (xs out : Bytes)
    → 0 < d
    → take_closed a d xs ≡ some out
    → ((post : Bytes) × (xs ≡ out ++ post)) × ClosesFrom a d out
take_closed-ClosesFrom a d [] out h e = unfold take_closed in cc e
take_closed-ClosesFrom a d (x ∷ xs) out h e = elim (Bool-cases (is_last a x d)) [
  | inl l ↦
      let same : x ∷ [] ≡ out = cc (take_closed-last a d x xs l) in
      rw (← same) ((xs, refl), last-ClosesFrom a x d h l)
  | inr l ↦
      let (out', e', shape) =
        cons_to-some x (take_closed a (next_depth a x d) xs) out
          (sym (take_closed-cons a d x xs l) ∙ e) in
      let (p, _) = next_depth_lem a x d h l in
      let ((post, parts), closes) = take_closed-ClosesFrom a (next_depth a x d) xs out' p e' in
      rw shape ((post, ap (λ r. x ∷ r) parts), cons-ClosesFrom a x d out' h l closes)
]

ClosesFrom-take_closed :
    (a : Bool) (d : ℕ) (out post : Bytes)
    → 0 < d
    → ClosesFrom a d out
    → take_closed a d (out ++ post) ≡ some out
ClosesFrom-take_closed a d [] post h c = absurd (omega arith)
ClosesFrom-take_closed a d (x ∷ out) post h c = elim (Bool-cases (is_last a x d)) [
  | inl l ↦
      take_closed-last a d x (out ++ post) l
      ∙ ap (λ r. some (x ∷ r)) (sym (last_only a x d out h l c))
  | inr l ↦
      take_closed-cons a d x (out ++ post) l
      ∙ ap (cons_to x) (
          ClosesFrom-take_closed a (next_depth a x d) out post (next_depth_lem a x d h l).0
            (uncons-ClosesFrom a x d out h l c))
]

abbrev pub HasNoOpener : Bytes → Type 0
HasNoOpener = All (λ x. is_opener x ≡ false)

first_opener-some :
    (s : Bytes) (a : Bool) (rest : Bytes)
    → first_opener s ≡ some (a, rest)
    → (pre : Bytes) × (tail : Bytes) × (s ≡ pre ++ open_char a ∷ tail)
      × HasNoOpener pre
      × (rest ≡ open_char a ∷ tail)
unfolding first_opener
first_opener-some [] a rest e = cc
first_opener-some (x ∷ xs) a rest e = elim (Bool-cases (x == b'{')) [
  | inl brace ↦ ([], xs, ground arith, tt, ground arith)
  | inr no_brace ↦ elim (Bool-cases (x == b'[')) [
    | inl bracket ↦ ([], xs, ground arith, tt, ground arith)
    | inr no_bracket ↦
        let later : first_opener xs ≡ some (a, rest) = ground arith in
        let (pre, tail, parts, free, shape) = first_opener-some xs a rest later in
        (x ∷ pre, tail, ap (λ r. x ∷ r) parts, (ground arith, free), shape)
  ]
]

first_opener-append :
    (pre : Bytes) (a : Bool) (tail : Bytes)
    → HasNoOpener pre
    → first_opener (pre ++ open_char a ∷ tail) ≡ some (a, open_char a ∷ tail)
unfolding first_opener
first_opener-append [] true tail h = refl
first_opener-append [] false tail h = refl
first_opener-append (x ∷ pre) a tail h = ground (arith, first_opener-append pre a tail h.1)

-- What is found starts at the first bracket of the text and ends at the first place where as many
-- brackets of its kind are closed as opened.
abbrev pub IsFirstObject : Bytes → Bytes → Type 0
IsFirstObject s out =
    (a : Bool) × (pre : Bytes) × (body : Bytes) × (post : Bytes) × (s
      ≡ pre ++ open_char a ∷ (body ++ post))
    × HasNoOpener pre
    × ClosesFrom a 1 body
    × (out ≡ open_char a ∷ body)

take_closed-open :
    (a : Bool) (tail : Bytes)
    → take_closed a 0 (open_char a ∷ tail) ≡ cons_to (open_char a) (take_closed a 1 tail)
unfolding take_closed
take_closed-open true tail = refl
take_closed-open false tail = refl

or_empty-cons : (o : Option Bytes) (out : Bytes) → out ≢ [] → or_empty o ≡ out → o ≡ some out
or_empty-cons none out h e = absurd (h (sym e))
or_empty-cons (some xs) out h e = ap some e

found-IsFirstObject :
    (s out : Bytes) → out ≢ [] → closed_from (first_opener s) ≡ out → IsFirstObject s out
unfolding closed_from
found-IsFirstObject s out h e = elim (Option-cases (first_opener s)) [
  | inl n ↦ absurd (h (sym (rw n at e)))
  | inr ((a, rest), f) ↦
      let (pre, tail, parts, free, shape) = first_opener-some s a rest f in
      let found : or_empty (take_closed a 0 rest) ≡ out = rw f at e in
      let taken : take_closed a 0 (open_char a ∷ tail) ≡ some out =
        or_empty-cons (take_closed a 0 (open_char a ∷ tail)) out h
          (subst (λ (r : Bytes). or_empty (take_closed a 0 r) ≡ out) shape found) in
      let (body, inner, whole) =
        cons_to-some (open_char a) (take_closed a 1 tail) out
          (sym (take_closed-open a tail) ∙ taken) in
      let ((post, split), closes) = take_closed-ClosesFrom a 1 tail body (omega arith) inner in
      (a, pre, body, post, parts ∙ ap (λ t. pre ++ open_char a ∷ t) split, free, closes, whole)
]

IsFirstObject-found : (s out : Bytes) → IsFirstObject s out → closed_from (first_opener s) ≡ out
unfolding closed_from
IsFirstObject-found s out (a, pre, body, post, parts, free, closes, whole) =
    rw (parts, first_opener-append pre a (body ++ post) free, take_closed-open)
      (rw (ClosesFrom-take_closed a 1 body post (omega arith) closes) (sym whole))

-- `extractFirstJSONObject` returns a text that is not empty exactly if it is the stretch of the
-- trimmed content from its first `{` or `[` up to where brackets of that kind first balance.
-- Brackets inside JSON strings count too.
pub extract_first_json_object_iff :
    (trim : Bytes → Bytes) (content out : Bytes)
    → out ≢ []
    → (extract_first_json_object trim content ≡ out) ↔ IsFirstObject (trim content) out
unfolding extract_first_json_object
extract_first_json_object_iff trim content out h =
    (found-IsFirstObject (trim content) out h, IsFirstObject-found (trim content) out)
