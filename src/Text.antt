-- ===== src/Text.antt =====
-- What the services use of Go's strings package: TrimSpace, HasPrefix, and ToLower and Title, for
-- which letters outside ASCII are taken to be without case.
use Prim.Native.Char.{Char, code}
use Prim.Native.String.{◌++◌ as str_append}
use text.Mathlib.Text.{starts_with}
use abhiyan.Prelude.{
  ℕ, zero, suc, ◌+◌, ◌-◌, ltb, String, Bool, false, ◌&&◌, ◌||◌, Option, none, some, List, [], ◌∷◌,
  ◌==◌, leb, str_eq, if◌then◌else◌,
}

infixr 65 ◌<>◌
abbrev pub ◌<>◌ : String → String → String
s <> t = str_append s t

-- Unicode's White_Space
is_space : ℕ → Bool
is_space c =
    (leb 9 c && leb c 13)
    || c == 32
    || c == 0x85
    || c == 0xa0
    || c == 0x1680
    || (leb 0x2000 c && leb c 0x200a)
    || c == 0x2028
    || c == 0x2029
    || c == 0x202f
    || c == 0x205f
    || c == 0x3000

trim_start : String → String
unfolding is_space
trim_start String.[] = String.[]
trim_start (String.◌∷◌ c s) =
    let rest = trim_start s in if is_space (code c) then rest else String.◌∷◌ c s

trim_end_cons : Char → String → String
unfolding is_space
trim_end_cons c String.[] = if is_space (code c) then String.[] else String.◌∷◌ c String.[]
trim_end_cons c (String.◌∷◌ d s) = String.◌∷◌ c (String.◌∷◌ d s)

trim_end : String → String
unfolding trim_end_cons
trim_end String.[] = String.[]
trim_end (String.◌∷◌ c s) = trim_end_cons c (trim_end s)

unfoldable pub trim_space : String → String
unfolding trim_start trim_end
trim_space s = trim_end (trim_start s)

abbrev pub has_prefix : String → String → Bool
has_prefix = starts_with

abbrev pub is_blank : String → Bool
is_blank s = str_eq s ""

-- A NULL text reads as the empty one.
abbrev pub or_empty : Option String → String
or_empty none = ""
or_empty (some s) = s

-- strings.TrimSpace(first + " " + last)
unfoldable pub full_name : Option String → Option String → String
unfolding trim_space
full_name first last = trim_space (or_empty first <> " " <> or_empty last)

abbrev letters : List (Char × Char)
letters =
    ("A", "a")
    ∷ ("B", "b")
    ∷ ("C", "c")
    ∷ ("D", "d")
    ∷ ("E", "e")
    ∷ ("F", "f")
    ∷ ("G", "g")
    ∷ ("H", "h")
    ∷ ("I", "i")
    ∷ ("J", "j")
    ∷ ("K", "k")
    ∷ ("L", "l")
    ∷ ("M", "m")
    ∷ ("N", "n")
    ∷ ("O", "o")
    ∷ ("P", "p")
    ∷ ("Q", "q")
    ∷ ("R", "r")
    ∷ ("S", "s")
    ∷ ("T", "t")
    ∷ ("U", "u")
    ∷ ("V", "v")
    ∷ ("W", "w")
    ∷ ("X", "x")
    ∷ ("Y", "y")
    ∷ ("Z", "z")
    ∷ []

lower_by : List (Char × Char) → Char → Char
lower_by [] c = c
lower_by ((up, low) ∷ r) c = let rest = lower_by r c in if code up == code c then low else rest

upper_by : List (Char × Char) → Char → Char
upper_by [] c = c
upper_by ((up, low) ∷ r) c = let rest = upper_by r c in if code low == code c then up else rest

unfoldable pub to_lower : String → String
unfolding lower_by
to_lower String.[] = String.[]
to_lower (String.◌∷◌ c s) = String.◌∷◌ (lower_by letters c) (to_lower s)

-- What does not end a word, for strings.Title
is_word : ℕ → Bool
is_word c =
    (leb b'0' c && leb c b'9')
    || (leb b'A' c && leb c b'Z')
    || (leb b'a' c && leb c b'z')
    || c == b'_'
    || leb 128 c

title_from : Bool → String → String
unfolding upper_by is_word
title_from inside String.[] = String.[]
title_from inside (String.◌∷◌ c s) =
    String.◌∷◌ (if inside then c else upper_by letters c) (title_from (is_word (code c)) s)

unfoldable pub title : String → String
unfolding title_from
title s = title_from false s

-- The bytes of a character in UTF-8
unfoldable pub utf8_width : ℕ → ℕ
utf8_width c = if ltb c 0x80 then 1 else if ltb c 0x800 then 2 else if ltb c 0x10000 then 3 else 4

-- len(s), which counts bytes
unfoldable pub byte_length : String → ℕ
unfolding utf8_width
byte_length String.[] = 0
byte_length (String.◌∷◌ c s) = utf8_width (code c) + byte_length s

abbrev with_char : Char → Option String → Option String
with_char c none = none
with_char c (some s) = some (String.◌∷◌ c s)

-- s[:n], where that ends between two characters; `none` is a slice that cuts one, which is no
-- valid UTF-8.
unfoldable pub take_bytes : ℕ → String → Option String
unfolding utf8_width
take_bytes zero s = some ""
take_bytes (suc n) String.[] = some ""
take_bytes (suc n) (String.◌∷◌ c s) =
    let rest = with_char c (take_bytes (suc n - utf8_width (code c)) s) in
    if ltb (suc n) (utf8_width (code c)) then none else rest
