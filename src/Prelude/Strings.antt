-- ===== src/Prelude/Strings.antt =====
-- Go strings as lists of bytes, and the functions of `strings`, `strconv` and `sort` that the gateway
-- calls. `TrimSpace` is that of ASCII text; `Replace` and `Split` are at a one-byte separator.
use Prim.Native.Nat.{ℕ, zero, suc, ◌+◌, ◌-◌, ◌*◌, ◌/◌, ◌%◌, ◌^◌}
use Prim.Native.Char.{code}
use Prim.Native.String.{String}
use mathlib.Core.Path.{◌≡◌, refl}
use mathlib.Core.Logic.{◌↔◌}
use mathlib.Core.Bool.{Bool, true, false, not, ◌&&◌, ◌||◌}
use mathlib.Core.List.{List, [], ◌∷◌, ◌++◌, map}
use mathlib.Core.Option.{Option, none, some}
use native.Mathlib.Omega.{arith}
use gnmi_gateway.Prelude.Tests.{ltb, leb, eqb, if◌then◌else◌}
use gnmi_gateway.Prelude.Lists.{all}
use gnmi_gateway.Prelude.Int.{ℤ, pos, negsuc}

abbrev pub Text : Type 0
Text = List ℕ

-- The bytes of an ASCII literal.
abbrev pub codes : String → Text
codes String.[] = []
codes (String.◌∷◌ c s) = code c ∷ codes s

infix 50 ◌==◌
unfoldable pub ◌==◌ : Text → Text → Bool
[] == [] = true
[] == (d ∷ t) = false
(c ∷ s) == [] = false
(c ∷ s) == (d ∷ t) = eqb c d && s == t

pub eq_iff : (s t : Text) → ((s == t) ≡ true) ↔ (s ≡ t)
unfolding ◌==◌
eq_iff [] [] = ground arith
eq_iff [] (d ∷ t) = ground arith
eq_iff (c ∷ s) [] = ground arith
eq_iff (c ∷ s) (d ∷ t) = ground (arith, eq_iff s t)

pub eq_refl : (s : Text) → (s == s) ≡ true
eq_refl s = (eq_iff s s).1 refl

-- Go's `s < t` on strings is byte-wise and lexicographic; this is `s <= t`.
unfoldable pub text_leb : Text → Text → Bool
text_leb [] t = true
text_leb (c ∷ s) [] = false
text_leb (c ∷ s) (d ∷ t) = ltb c d || (eqb c d && text_leb s t)

abbrev push_head : ℕ → List Text → List Text
push_head c [] = (c ∷ []) ∷ []
push_head c (p ∷ ps) = (c ∷ p) ∷ ps

-- `strings.Split` at one byte: at least one part.
unfoldable pub split : Text → ℕ → List Text
split [] sep = [] ∷ []
split (c ∷ s) sep = let rest = split s sep in if eqb c sep then [] ∷ rest else push_head c rest

-- Every byte differs from the separator.
abbrev pub lacks : ℕ → Text → Bool
lacks sep = all (λ c. not (eqb c sep))

pub split-part :
    (sep : ℕ) (p rest : Text)
    → lacks sep p ≡ true
    → split (p ++ sep ∷ rest) sep ≡ p ∷ split rest sep
unfolding split all
split-part sep [] rest h = ground arith
split-part sep (c ∷ p) rest h = ground (arith, split-part sep p rest)

pub split-whole : (sep : ℕ) (p : Text) → lacks sep p ≡ true → split p sep ≡ p ∷ []
unfolding split all
split-whole sep [] h = refl
split-whole sep (c ∷ p) h = ground (arith, split-whole sep p)

-- `strings.Join`.
unfoldable pub join : List Text → Text → Text
join [] sep = []
join (p ∷ []) sep = p
join (p ∷ q ∷ ps) sep = p ++ (sep ++ join (q ∷ ps) sep)

-- `strings.TrimLeft`, `TrimRight` and `Trim` by a test on bytes.
unfoldable pub trim_left : (ℕ → Bool) → Text → Text
trim_left p [] = []
trim_left p (c ∷ s) = let rest = trim_left p s in if p c then rest else c ∷ s

abbrev is_empty : Text → Bool
is_empty [] = true
is_empty (_ ∷ _) = false

unfoldable pub trim_right : (ℕ → Bool) → Text → Text
trim_right p [] = []
trim_right p (c ∷ s) = let rest = trim_right p s in if p c && is_empty rest then [] else c ∷ rest

unfoldable pub trim : (ℕ → Bool) → Text → Text
unfolding trim_left trim_right
trim p s = trim_right p (trim_left p s)

abbrev pub is_slash : ℕ → Bool
is_slash c = eqb c b'/'

abbrev pub is_space : ℕ → Bool
is_space c = eqb c 32 || (leb 9 c && leb c 13)

-- `strings.ReplaceAll` of one byte by one byte.
unfoldable pub replace_all : Text → ℕ → ℕ → Text
replace_all s old new = map (λ c. if eqb c old then new else c) s

abbrev is_digit : ℕ → Bool
is_digit c = leb b'0' c && leb c b'9'

-- The number that digits spell behind `n`.
unfoldable pub digits_value : ℕ → Text → Option ℕ
digits_value n [] = some n
digits_value n (c ∷ s) =
    let rest = digits_value (n * 10 + (c - b'0')) s in if is_digit c then rest else none

abbrev magnitude : Text → Option ℕ
magnitude [] = none
magnitude (c ∷ s) = digits_value 0 (c ∷ s)

abbrev non_negative : Option ℕ → Option ℤ
non_negative none = none
non_negative (some n) = if ltb n (2 ^ 63) then some (pos n) else none

abbrev negative : Option ℕ → Option ℤ
negative none = none
negative (some zero) = some (pos 0)
negative (some (suc n)) = if ltb n (2 ^ 63) then some (negsuc n) else none

-- `strconv.Atoi` on a 64-bit machine; `none` is a syntax or range error.
unfoldable pub atoi : Text → Option ℤ
unfolding digits_value
atoi [] = none
atoi (c ∷ s) =
    if eqb c b'-'
    then negative (magnitude s)
    else if eqb c b'+'
    then non_negative (magnitude s)
    else non_negative (magnitude (c ∷ s))

-- `strconv.Itoa`: the digits of a number below 2 ^ 64 fill at most twenty rounds.
digits_of : ℕ → ℕ → Text → Text
digits_of zero n acc = acc
digits_of (suc f) n acc =
    let more = digits_of f (n / 10) ((b'0' + n % 10) ∷ acc) in
    if ltb n 10 then (b'0' + n) ∷ acc else more

unfoldable pub itoa : ℤ → Text
unfolding digits_of
itoa (pos n) = digits_of 20 n []
itoa (negsuc n) = b'-' ∷ digits_of 20 (suc n) []
