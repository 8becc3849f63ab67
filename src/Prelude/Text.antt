-- ===== src/Prelude/Text.antt =====
-- The methods of JavaScript's texts and numbers that the code uses: `trim` and the printing of a number.
use Prim.Native.Char.{Char, code}
use Prim.Native.Nat.{ℕ, zero, suc, ◌/◌, ◌%◌}
use Prim.Native.String.{String, [], ◌∷◌}
use mathlib.Core.Path.{◌≡◌, refl, ap, ◌∙◌, sym}
use mathlib.Core.Bool.{Bool, true, false, not, ◌||◌, ◌&&◌}
use mathlib.Core.Logic.{inl, inr}
use mathlib.Core.Option.{Option, none, some}
use text.Mathlib.Text.{◌==◌}
use native.Mathlib.Omega.{arith}
use skypier_chat.Prelude.Tests.{if◌then◌else◌, ltb, leb, Bool-cases}

abbrev pub between : ℕ → ℕ → ℕ → Bool
between low high n = leb low n && leb n high

-- The white space and the line terminators of ECMAScript.
unfoldable pub is_space : Char → Bool
is_space c =
    let n = code c in
    between 9 13 n
    || between 32 32 n
    || between 160 160 n
    || between 5760 5760 n
    || between 8192 8202 n
    || between 8232 8233 n
    || between 8239 8239 n
    || between 8287 8287 n
    || between 12288 12288 n
    || between 65279 65279 n

abbrev trim_start : String → String
trim_start [] = []
trim_start (c ∷ cs) = let rest = trim_start cs in if is_space c then rest else c ∷ cs

abbrev is_nil : String → Bool
is_nil [] = true
is_nil (c ∷ cs) = false

abbrev trim_end : String → String
trim_end [] = []
trim_end (c ∷ cs) = let rest = trim_end cs in if is_space c && is_nil rest then [] else c ∷ rest

-- s.trim()
unfoldable pub trim : String → String
trim s = trim_end (trim_start s)

abbrev char_at : ℕ → String → Char
char_at n [] = "9"
char_at zero (c ∷ s) = c
char_at (suc n) (c ∷ s) = char_at n s

abbrev digit : ℕ → Char
digit d = char_at d "0123456789"

-- `${n}`: the decimal digits; as many steps as `n` are enough, since each divides it by ten
abbrev decimal_from : ℕ → ℕ → String → String
decimal_from zero n later = later
decimal_from (suc fuel) n later =
    let rest = decimal_from fuel (n / 10) (digit (n % 10) ∷ later) in
    if ltb n 10 then digit (n % 10) ∷ later else rest

-- The text of the number with `later` behind it.
unfoldable pub decimal : ℕ → String → String
decimal n later = decimal_from (suc n) n later

trim_end_idem : (cs : String) → trim_end (trim_end cs) ≡ trim_end cs
trim_end_idem [] = refl
trim_end_idem (c ∷ cs) = elim (Bool-cases (is_space c && is_nil (trim_end cs))) [
  | inl gone ↦ rw gone refl
  | inr kept ↦ rw (kept, trim_end_idem cs) (rw kept refl)
]

trim_start-other : (c : Char) (s : String) → is_space c ≡ false → trim_start (c ∷ s) ≡ c ∷ s
trim_start-other c s h = rw h refl

trim_end-other : (c : Char) (s : String) → is_space c ≡ false → trim_end (c ∷ s) ≡ c ∷ trim_end s
trim_end-other c s h = rw h refl

trim_start-trim_end : (s : String) → trim_start (trim_end (trim_start s)) ≡ trim_end (trim_start s)
trim_start-trim_end [] = refl
trim_start-trim_end (c ∷ s) = elim (Bool-cases (is_space c)) [
  | inl space ↦ rw space (trim_start-trim_end s)
  | inr other ↦
      ap trim_start (ap trim_end (trim_start-other c s other) ∙ trim_end-other c s other)
      ∙ trim_start-other c (trim_end s) other
      ∙ sym (ap trim_end (trim_start-other c s other) ∙ trim_end-other c s other)
]

pub trim_idem : (s : String) → trim (trim s) ≡ trim s
unfolding trim
trim_idem s = ap trim_end (trim_start-trim_end s) ∙ trim_end_idem (trim_start s)

abbrev no_spaces : String → Bool
no_spaces [] = true
no_spaces (c ∷ s) = not (is_space c) && no_spaces s

is_space-char_at : (n : ℕ) (s : String) → no_spaces s ≡ true → is_space (char_at n s) ≡ false
unfolding is_space
is_space-char_at n [] h = refl
is_space-char_at zero (c ∷ s) h = elim (Bool-cases (is_space c)) [
  | inl space ↦ absurd (ground (arith, space))
  | inr other ↦ other
]
is_space-char_at (suc n) (c ∷ s) h = is_space-char_at n s (ground arith)

is_space-digit : (d : ℕ) → is_space (digit d) ≡ false
unfolding is_space
is_space-digit d = is_space-char_at d "0123456789" refl

trim_end-decimal_from :
    (fuel n : ℕ) (later : String)
    → trim_end later ≡ later
    → trim_end (decimal_from fuel n later) ≡ decimal_from fuel n later
trim_end-decimal_from zero n later h = h
trim_end-decimal_from (suc fuel) n later h =
    let here : trim_end (digit (n % 10) ∷ later) ≡ digit (n % 10) ∷ later =
      rw (is_space-digit (n % 10), h) refl in
    elim (Bool-cases (ltb n 10)) [
      | inl last ↦ rw last here
      | inr more ↦ rw more (trim_end-decimal_from fuel (n / 10) (digit (n % 10) ∷ later) here)
    ]

pub trim_end-decimal :
    (n : ℕ) (later : String) → trim_end later ≡ later → trim_end (decimal n later) ≡ decimal n later
unfolding decimal
trim_end-decimal n later h = trim_end-decimal_from (suc n) n later h

-- s.endsWith(t) and s.replace(/t$/, '')
abbrev pub ends_with : String → String → Bool
ends_with [] t = [] == t
ends_with (c ∷ s) t = (c ∷ s) == t || ends_with s t

abbrev pub without_end : String → String → String
without_end [] t = []
without_end (c ∷ s) t = let rest = without_end s t in if (c ∷ s) == t then [] else c ∷ rest

-- The text up to the first slash, and the text from there on.
abbrev is_slash : Char → Bool
is_slash c = between 47 47 (code c)

abbrev pub before_slash : String → String
before_slash [] = []
before_slash (c ∷ s) = let rest = before_slash s in if is_slash c then [] else c ∷ rest

abbrev pub from_slash : String → String
from_slash [] = []
from_slash (c ∷ s) = let rest = from_slash s in if is_slash c then c ∷ s else rest

-- What follows a prefix, where the text has it.
abbrev pub after_prefix : String → String → Option String
after_prefix s [] = some s
after_prefix [] (d ∷ t) = none
after_prefix (c ∷ s) (d ∷ t) =
    let rest = after_prefix s t in if between (code d) (code d) (code c) then rest else none

-- The first place of a text at which something is found.
abbrev pub first_at {ℓ} : {A : Type ℓ} → (String → Option A) → String → Option A
first_at f [] = f []
first_at f (c ∷ s) = let rest = first_at f s in elim (f (c ∷ s)) [ none ↦ rest | some a ↦ some a ]

-- s.slice(0, n)
abbrev pub first_chars : ℕ → String → String
first_chars zero s = []
first_chars (suc n) [] = []
first_chars (suc n) (c ∷ s) = c ∷ first_chars n s

abbrev drop_chars : ℕ → String → String
drop_chars zero s = s
drop_chars (suc n) [] = []
drop_chars (suc n) (c ∷ s) = drop_chars n s

-- The first text without as many characters as the second has.
abbrev drop_as_many : String → String → String
drop_as_many s [] = s
drop_as_many [] (c ∷ t) = []
drop_as_many (d ∷ s) (c ∷ t) = drop_as_many s t

-- s.slice(-n)
abbrev pub last_chars : ℕ → String → String
last_chars n s = drop_as_many s (drop_chars n s)

-- The text without a byte order mark (U+FEFF) at its beginning.
abbrev pub without_mark : String → String
without_mark [] = []
without_mark (c ∷ s) = if between 65279 65279 (code c) then s else c ∷ s
