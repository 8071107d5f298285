-- ===== src/Cc/Context/Base64.antt =====
-- The encoding base64.StdEncoding of Go, which pkg/cc/context.go puts around JSON. A byte and an
-- ASCII character are numbers.
use cs.Prelude.{
  ℕ, ◌+◌, ◌-◌, ◌*◌, ◌%◌, ◌<◌, Option, none, some, List, [], ◌∷◌, ◌||◌, ◌≤◌, ◌≢◌, ◌≡◌, refl, ap, ◌∙◌,
  arith,
}
use Prim.Native.Nat.{◌/◌}
use cs.Prelude.Tests.{ltb, ◌==◌, if◌then◌else◌}
use cs.Prelude.Lists.{All}

-- The character of a number below 64: A-Z, a-z, 0-9, + and /.
unfoldable pub digit : ℕ → ℕ
digit n =
    if ltb n 26
    then n + 65
    else if ltb n 52
    then n + 71
    else if ltb n 62
    then n - 4
    else if n == 62
    then 43
    else 47

unfoldable pub value : ℕ → Option ℕ
value c =
    if c == 43
    then some 62
    else if c == 47
    then some 63
    else if ltb c 48
    then none
    else if ltb c 58
    then some (c + 4)
    else if ltb c 65
    then none
    else if ltb c 91
    then some (c - 65)
    else if ltb c 97
    then none
    else if ltb c 123
    then some (c - 71)
    else none

-- The padding character is '='.
abbrev pub pad : ℕ
pad = 61

unfoldable pub encode_string : List ℕ → List ℕ
encode_string [] = []
encode_string (a ∷ []) = digit (a / 4) ∷ digit (a % 4 * 16) ∷ pad ∷ pad ∷ []
encode_string (a ∷ (b ∷ [])) =
    digit (a / 4) ∷ digit (a % 4 * 16 + b / 16) ∷ digit (b % 16 * 4) ∷ pad ∷ []
encode_string (a ∷ (b ∷ (c ∷ rest))) =
    digit (a / 4)
    ∷ digit (a % 4 * 16 + b / 16)
    ∷ digit (b % 16 * 4 + c / 64)
    ∷ digit (c % 64)
    ∷ encode_string rest

-- Line feeds and carriage returns are skipped.
unfoldable pub strip : List ℕ → List ℕ
strip [] = []
strip (c ∷ s) = let rest = strip s in if c == 10 || c == 13 then rest else c ∷ rest

-- The bytes of four characters of which none, one or two at the end are padding. What the last
-- digit has beyond the last byte is dropped.
unfoldable pub bytes_3 :
    Option ℕ → Option ℕ → Option ℕ → Option ℕ → Option (List ℕ) → Option (List ℕ)
bytes_3 (some w) (some x) (some y) (some z) (some rest) =
    some ((w * 4 + x / 16) ∷ (x % 16 * 16 + y / 4) ∷ (y % 4 * 64 + z) ∷ rest)
bytes_3 _ _ _ _ _ = none

unfoldable pub bytes_2 : Option ℕ → Option ℕ → Option ℕ → List ℕ → Option (List ℕ)
bytes_2 (some w) (some x) (some y) [] = some ((w * 4 + x / 16) ∷ (x % 16 * 16 + y / 4) ∷ [])
bytes_2 _ _ _ _ = none

unfoldable pub bytes_1 : Option ℕ → Option ℕ → List ℕ → Option (List ℕ)
bytes_1 (some w) (some x) [] = some ((w * 4 + x / 16) ∷ [])
bytes_1 _ _ _ = none

unfoldable pub decode_digits : List ℕ → Option (List ℕ)
decode_digits [] = some []
decode_digits (w ∷ (x ∷ (y ∷ (z ∷ rest)))) =
    let later = decode_digits rest in
    if z == pad
    then (if y == pad
        then bytes_1 (value w) (value x) rest
        else bytes_2 (value w) (value x) (value y) rest)
    else bytes_3 (value w) (value x) (value y) (value z) later
decode_digits _ = none

unfoldable pub decode_string : List ℕ → Option (List ℕ)
decode_string s = decode_digits (strip s)

value-digit : (n : ℕ) → n < 64 → value (digit n) ≡ some n
unfolding value digit
value-digit n h = ground (arith, h)

-- A digit is a character that is neither skipped nor padding.
digit-plain : (n : ℕ) → n < 64 → (14 ≤ digit n) × (digit n ≢ pad)
unfolding digit
digit-plain n h = (ground (arith, h), ground (arith, h))

strip-plain : (s : List ℕ) → All (λ c. 14 ≤ c) s → strip s ≡ s
unfolding strip
strip-plain [] h = refl
strip-plain (c ∷ s) (h, hs) = ground (arith, h, strip-plain s hs)

encode_string-plain : (l : List ℕ) → All (λ b. b < 256) l → All (λ c. 14 ≤ c) (encode_string l)
unfolding encode_string
encode_string-plain [] h = tt
encode_string-plain (a ∷ []) (ha, _) = (
  (digit-plain (a / 4) (omega arith)).0,
  ((digit-plain (a % 4 * 16) (omega arith)).0, (omega arith, (omega arith, tt))),
)
encode_string-plain (a ∷ (b ∷ [])) (ha, (hb, _)) = (
  (digit-plain (a / 4) (omega arith)).0,
  (
    (digit-plain (a % 4 * 16 + b / 16) (omega arith)).0,
    ((digit-plain (b % 16 * 4) (omega arith)).0, (omega arith, tt)),
  ),
)
encode_string-plain (a ∷ (b ∷ (c ∷ rest))) (ha, (hb, (hc, hs))) = (
  (digit-plain (a / 4) (omega arith)).0,
  (
    (digit-plain (a % 4 * 16 + b / 16) (omega arith)).0,
    (
      (digit-plain (b % 16 * 4 + c / 64) (omega arith)).0,
      ((digit-plain (c % 64) (omega arith)).0, encode_string-plain rest hs),
    ),
  ),
)

decode_digits-encode_string :
    (l : List ℕ) → All (λ b. b < 256) l → decode_digits (encode_string l) ≡ some l
unfolding encode_string decode_digits bytes_1 bytes_2 bytes_3
decode_digits-encode_string [] h = refl
decode_digits-encode_string (a ∷ []) (ha, _) =
    ground (arith, ha, value-digit (a / 4) (omega arith), value-digit (a % 4 * 16) (omega arith))
decode_digits-encode_string (a ∷ (b ∷ [])) (ha, (hb, _)) = ground (
  arith,
  ha,
  hb,
  value-digit (a / 4) (omega arith),
  value-digit (a % 4 * 16 + b / 16) (omega arith),
  value-digit (b % 16 * 4) (omega arith),
  (digit-plain (b % 16 * 4) (omega arith)).1,
)
decode_digits-encode_string (a ∷ (b ∷ (c ∷ rest))) (ha, (hb, (hc, hs))) = ground (
  arith,
  ha,
  hb,
  hc,
  value-digit (a / 4) (omega arith),
  value-digit (a % 4 * 16 + b / 16) (omega arith),
  value-digit (b % 16 * 4 + c / 64) (omega arith),
  value-digit (c % 64) (omega arith),
  (digit-plain (c % 64) (omega arith)).1,
  decode_digits-encode_string rest hs,
)

pub decode_string-encode_string :
    (l : List ℕ) → All (λ b. b < 256) l → decode_string (encode_string l) ≡ some l
unfolding decode_string
decode_string-encode_string l h =
    ap decode_digits (strip-plain (encode_string l) (encode_string-plain l h))
    ∙ decode_digits-encode_string l h
