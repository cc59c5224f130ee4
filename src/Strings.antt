-- ===== src/Strings.antt =====
-- Strings of C: the library functions that the programs call. `strcmp(a, b) == 0`, `strtol` in base
-- 10, `atoi`, `strncpy` and `snprintf` with one `%s`.
use linux_exercises.Base.{
  zero, suc, Option, none, some, ap, take, take-le-length, length, length-append, ◌++◌, ◌≤◌, ◌<◌,
  ◌≡◌, ◌≢◌, refl, List, All, arith, ℕ, ◌+◌, ◌-◌, ◌*◌, ◌%◌, ◌^◌, Bool, true, false, ◌&&◌, ◌||◌, [],
  ◌∷◌, ◌==◌, leb, ltb, if◌then◌else◌,
}

-- The bytes of a string, without the NUL that ends them.
abbrev pub Text : Type 0
Text = List ℕ

-- The string at the start of a buffer: up to the first NUL.
abbrev pub c_string : List ℕ → Text
c_string [] = []
c_string (c ∷ cs) = let rest = c_string cs in if c == 0 then [] else c ∷ rest

-- A string has no NUL inside.
abbrev pub NoNul : Text → Type 0
NoNul t = All (λ c. c ≢ 0) t

pub c_string-NoNul : (t : Text) → NoNul t → c_string t ≡ t
c_string-NoNul [] h = refl
c_string-NoNul (c ∷ t) h = ground (arith, c_string-NoNul t h.1, h.0)

pub NoNul-c_string : (b : List ℕ) → NoNul (c_string b)
NoNul-c_string [] = tt
NoNul-c_string (c ∷ b) = ground (arith, NoNul-c_string b)

pub length-c_string-le : (b : List ℕ) → length (c_string b) ≤ length b
length-c_string-le [] = omega arith
length-c_string-le (c ∷ b) = ground (arith, length-c_string-le b)

-- Ends the string at its first newline, if it has one.
unfoldable pub cut_newline : Text → Text
cut_newline [] = []
cut_newline (c ∷ cs) = let rest = cut_newline cs in if c == 10 then [] else c ∷ rest

-- What `strncpy(out, text, n)` leaves in a buffer of more than `n` bytes that was all zero.
unfoldable pub strncpy : (n : ℕ) → Text → Text
strncpy n text = take n text

-- `snprintf(out, size, "<before>%s", text)`.
unfoldable pub snprintf : (size : ℕ) → (before text : Text) → Text
snprintf size before text = take (size - 1) (before ++ text)

pub snprintf-whole :
    (size : ℕ) (before text : Text)
    → length before + length text < size
    → snprintf size before text ≡ before ++ text
unfolding snprintf
snprintf-whole size before text h =
    take-le-length (size - 1) (before ++ text) (omega (arith, length-append before text))

abbrev pub is_empty : Text → Bool
is_empty [] = true
is_empty (c ∷ cs) = false

-- `strcmp(a, b) == 0`
unfoldable pub same_text : Text → Text → Bool
same_text [] [] = true
same_text (a ∷ as') (b ∷ bs) = a == b && same_text as' bs
same_text _ _ = false

abbrev pub is_space : ℕ → Bool
is_space c = c == 32 || (leb 9 c && leb c 13)

abbrev pub is_digit : ℕ → Bool
is_digit c = leb b'0' c && leb c b'9'

unfoldable pub skip_spaces : Text → Text
skip_spaces [] = []
skip_spaces (c ∷ cs) = let rest = skip_spaces cs in if is_space c then rest else c ∷ cs

-- The digits read so far stand for `acc`; the number and what follows the digits.
unfoldable pub digits : ℕ → Text → ℕ × Text
digits acc [] = (acc, [])
digits acc (c ∷ cs) =
    let rest = digits (acc * 10 + (c - b'0')) cs in if is_digit c then rest else (acc, c ∷ cs)

-- The sign, the magnitude, and `endp`. Out of the range of `long` the magnitude is that of its
-- bound.
pub record Parsed : Type 0 where
  pub negative : Bool
  pub value : ℕ
  pub rest : Text

abbrev pub clamp : Bool → ℕ → ℕ
clamp true v = if ltb (2 ^ 63) v then 2 ^ 63 else v
clamp false v = if ltb (2 ^ 63 - 1) v then 2 ^ 63 - 1 else v

abbrev pub starts_with_digit : Text → Bool
starts_with_digit [] = false
starts_with_digit (c ∷ cs) = is_digit c

-- `whole` is what `endp` is set to if there is no digit.
unfoldable pub parse_digits : (whole : Text) → Bool → Text → Parsed
unfolding digits
parse_digits whole neg cs =
    if starts_with_digit cs
    then (let r = digits 0 cs in record { negative = neg; value = clamp neg r.0; rest = r.1 })
    else record { negative = false; value = 0; rest = whole }

unfoldable pub parse_sign : (whole : Text) → Text → Parsed
unfolding parse_digits
parse_sign whole [] = record { negative = false; value = 0; rest = whole }
parse_sign whole (c ∷ cs) =
    if c == b'-'
    then parse_digits whole true cs
    else if c == b'+'
    then parse_digits whole false cs
    else parse_digits whole false (c ∷ cs)

-- `strtol(s, &endp, 10)`
unfoldable pub strtol : Text → Parsed
unfolding skip_spaces parse_sign
strtol s = parse_sign s (skip_spaces s)

-- `atoi`, as the bit pattern of an `int`.
unfoldable pub atoi : Text → ℕ
unfolding strtol
atoi s =
    let r = strtol s in let v = r.value % 2 ^ 32 in if r.negative then (2 ^ 32 - v) % 2 ^ 32 else v

-- At most `n` bytes, up to and with the first newline, and the rest.
abbrev pub line_of : (n : ℕ) → Text → Text × Text
line_of zero cs = ([], cs)
line_of (suc n) [] = ([], [])
line_of (suc n) (c ∷ cs) = let r = line_of n cs in if c == 10 then (c ∷ [], cs) else (c ∷ r.0, r.1)

-- `fgets` with a buffer of `size`: what it stores, and the rest of the input.
unfoldable pub fgets : (size : ℕ) → Text → Option (Text × Text)
fgets size [] = none
fgets size (c ∷ cs) = some (line_of (size - 1) (c ∷ cs))

-- A line has no newline inside.
abbrev pub NoNewline : Text → Type 0
NoNewline t = All (λ c. c ≢ 10) t

line_of-whole :
    (n : ℕ) (t rest : Text)
    → NoNewline t
    → length t < n
    → line_of n (t ++ 10 ∷ rest) ≡ (t ++ 10 ∷ [], rest)
line_of-whole zero t rest h lt = absurd (omega (arith, lt))
line_of-whole (suc n) [] rest h lt = refl
line_of-whole (suc n) (c ∷ t) rest h lt = ground (arith, line_of-whole n t rest h.1, h.0)

pub fgets-whole :
    (size : ℕ) (t rest : Text)
    → NoNewline t
    → length t + 1 < size
    → fgets size (t ++ 10 ∷ rest) ≡ some (t ++ 10 ∷ [], rest)
unfolding fgets
fgets-whole size [] rest h lt = ap some (line_of-whole (size - 1) [] rest h (omega (arith, lt)))
fgets-whole size (c ∷ t) rest h lt =
    ap some (line_of-whole (size - 1) (c ∷ t) rest h (omega (arith, lt)))

pub cut_newline-line : (t rest : Text) → NoNewline t → cut_newline (t ++ 10 ∷ rest) ≡ t
unfolding cut_newline
cut_newline-line [] rest h = refl
cut_newline-line (c ∷ t) rest h = ground (arith, cut_newline-line t rest h.1, h.0)
