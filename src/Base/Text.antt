-- ===== src/Base/Text.antt =====
-- The functions of Go's package `strings` that the gateway uses, over the characters of a text.
-- Upper and lower case are those of ASCII: other letters are left as they are.
use Prim.Native.Nat.{ℕ, zero, suc, ◌+◌, ◌-◌, ◌*◌, ◌/◌, ◌%◌, ◌^◌}
use Prim.Native.String
use Prim.Native.Char.{Char, code}
use Prim.Native.String.{String, [], ◌∷◌, slice}
use mathlib.Core.Bool.{Bool, true, false, ◌&&◌, ◌||◌}
use mathlib.Core.Path.{◌≡◌, refl}
use mathlib.Core.Logic.{◌↔◌, inl, inr}
use mathlib.Core.Option
use mathlib.Core.Option.{Option, none, some}
use mathlib.Core.List.{List, map}
use native.Mathlib.Omega.{arith}
use text.Mathlib.TextLemmas.{nil-append, cons-append}
use docker_faas.Base.Tests.{Bool-cases, leb, ltb, ◌==◌, nat_eq, string_eq, if◌then◌else◌}
use docker_faas.Base.Lists.{contains}
use docker_faas.Base.Int.{ℤ, pos, negsuc, pos_part, neg_part, sub_ℕ}

abbrev pub codes : String → List ℕ
codes [] = List.[]
codes (c ∷ s) = List.◌∷◌ (code c) (codes s)

-- `unicode.IsSpace`
pub is_space : Char → Bool
is_space ch =
    let c = code ch in
    (leb 9 c && leb c 13)
    || c == 32
    || c == 0x85
    || c == 0xa0
    || c == 0x1680
    || (leb 0x2000 c && leb c 0x200a)
    || c == 0x2028
    || c == 0x2029
    || c == 0x202f
    || c == 0x205f
    || c == 0x3000

trim_left : String → String
trim_left [] = []
trim_left (c ∷ s) = let rest = trim_left s in if is_space c then rest else c ∷ s

trim_right : String → String
trim_right [] = []
trim_right (c ∷ s) = let rest = trim_right s in if is_space c && rest == "" then [] else c ∷ rest

-- `strings.TrimSpace`
unfoldable pub trim_space : String → String
unfolding trim_left trim_right is_space
trim_space s = trim_right (trim_left s)

abbrev to_lower_code : ℕ → ℕ
to_lower_code c = if leb b'A' c && leb c b'Z' then c + 32 else c

-- `strings.ToLower`, as code points
unfoldable pub to_lower : String → List ℕ
to_lower s = map to_lower_code (codes s)

begins : List ℕ → List ℕ → Bool
begins s List.[] = true
begins List.[] (List.◌∷◌ _ _) = false
begins (List.◌∷◌ c s) (List.◌∷◌ d p) = let rest = begins s p in if c == d then rest else false

same : List ℕ → List ℕ → Bool
same List.[] List.[] = true
same (List.◌∷◌ c s) (List.◌∷◌ d t) = let rest = same s t in if c == d then rest else false
same _ _ = false

-- `strings.HasPrefix` and `strings.Contains` of a text given by its code points
unfoldable pub has_prefix : List ℕ → List ℕ → Bool
unfolding begins
has_prefix s p = begins s p

unfoldable pub contains_text : List ℕ → List ℕ → Bool
unfolding begins
contains_text List.[] p = begins List.[] p
contains_text (List.◌∷◌ c s) p =
    let rest = contains_text s p in if begins (List.◌∷◌ c s) p then true else rest

unfoldable pub same_text : List ℕ → List ℕ → Bool
unfolding same
same_text s t = same s t

-- `strings.EqualFold` against an ASCII word without `k` and `s`
unfoldable pub equal_fold : String → String → Bool
unfolding same to_lower
equal_fold s t = same (to_lower s) (to_lower t)

-- The text before the suffix, where there is one.
unfoldable pub cut_suffix : String → String → Option String
cut_suffix [] suffix = if suffix == "" then some [] else none
cut_suffix (c ∷ s) suffix =
    let rest = cut_suffix s suffix in
    if (c ∷ s) == suffix then some [] else Option.map (λ p. c ∷ p) rest

-- The two sides of the first separator, where there is one: `strings.SplitN(s, sep, 2)`.
unfoldable pub cut : ℕ → String → Option (String × String)
cut sep [] = none
cut sep (c ∷ s) =
    let rest = cut sep s in
    if code c == sep then some ([], s) else Option.map (λ p. (c ∷ p.0, p.1)) rest

-- `strings.Split(s, ",")[0]`
unfoldable pub first_field : ℕ → String → String
first_field sep [] = []
first_field sep (c ∷ s) = let rest = first_field sep s in if code c == sep then [] else c ∷ rest

trims : trim_space "  a b \t" ≡ "a b"
unfolding trim_space
trims = refl

cuts :
    (cut b' ' "Bearer a b" ≡ some ("Bearer", "a b"))
    × (cut_suffix "fn.openfaas" ".openfaas" ≡ some "fn")
    × (equal_fold "bEARER" "Bearer" ≡ true)
    × (contains_text (codes "Up 3 min") (codes "Up") ≡ true)
unfolding cut cut_suffix equal_fold contains_text
cuts = (refl, refl, refl, refl)

-- `strings.TrimPrefix(s, "/")`
unfoldable pub trim_slash : String → String
trim_slash [] = []
trim_slash (c ∷ s) = if code c == b'/' then s else c ∷ s

-- The text after the last separator, where there is one: `s[strings.LastIndex(s, sep)+1:]`.
unfoldable pub after_last : ℕ → String → Option String
after_last sep [] = none
after_last sep (c ∷ s) =
    let rest = after_last sep s in
    elim rest [ some t ↦ some t | none ↦ if code c == sep then some s else none ]

digits : ℕ → List ℕ → Option ℕ
digits n List.[] = some n
digits n (List.◌∷◌ c s) =
    let rest = digits (n * 10 + (c - b'0')) s in if leb b'0' c && leb c b'9' then rest else none

magnitude : List ℕ → Option ℕ
magnitude List.[] = none
magnitude (List.◌∷◌ c s) = digits 0 (List.◌∷◌ c s)

-- An `int` of 64 bits.
in_range : ℤ → Option ℤ
in_range i = if leb (pos_part i) (2 ^ 63 - 1) && leb (neg_part i) (2 ^ 63) then some i else none

signed : List ℕ → Option ℤ
signed List.[] = none
signed (List.◌∷◌ c s) =
    if c == b'-'
    then Option.map (λ n. sub_ℕ 0 n) (magnitude s)
    else if c == b'+'
    then Option.map pos (magnitude s)
    else Option.map pos (magnitude (List.◌∷◌ c s))

-- `strconv.Atoi`, where `none` is its error
unfoldable pub atoi : String → Option ℤ
unfolding signed magnitude digits in_range
atoi s = elim (signed (codes s)) [ none ↦ none | some i ↦ in_range i ]

numbers :
    (atoi "-12" ≡ some (negsuc 11))
    × (atoi "+7" ≡ some (pos 7))
    × (atoi "1x" ≡ none)
    × (atoi "9223372036854775808" ≡ none)
    × (after_last b'-' "/fn-a-10" ≡ some "10")
unfolding atoi after_last
numbers = (refl, refl, refl, refl, refl)

-- The text of a number, as `%d` prints it. An `int` of 64 bits has at most twenty digits.
decimal_digits : ℕ → ℕ → String
decimal_digits zero n = ""
decimal_digits (suc k) n =
    let rest = decimal_digits k (n / 10) in
    let last = slice "0123456789" (n % 10) (n % 10 + 1) in
    if ltb n 10 then last else String.◌++◌ rest last

unfoldable pub decimal : ℤ → String
unfolding decimal_digits
decimal (pos n) = decimal_digits 20 n
decimal (negsuc n) = String.◌++◌ "-" (decimal_digits 20 (suc n))

-- Texts one after the other
infixr 65 ◌<>◌
abbrev pub ◌<>◌ : String → String → String
s <> t = String.◌++◌ s t

prints : (decimal (pos 120) ≡ "120") × (decimal (negsuc 6) ≡ "-7")
unfolding decimal
prints = (refl, refl)

contains-begins :
    (s p : List ℕ) (c : ℕ) → begins s p ≡ true → contains p c ≡ true → contains s c ≡ true
unfolding begins contains
contains-begins s List.[] c h k = absurd (cc k)
contains-begins List.[] (List.◌∷◌ d p) c h k = absurd (cc h)
contains-begins (List.◌∷◌ a s) (List.◌∷◌ d p) c h k = ground (arith, contains-begins s p c)

-- What a prefix contains is in the text.
pub contains-has_prefix :
    (s p : List ℕ) (c : ℕ) → has_prefix s p ≡ true → contains p c ≡ true → contains s c ≡ true
unfolding has_prefix
contains-has_prefix s p c h k = contains-begins s p c h k

abbrev dash : Char
dash = "-"

dash-append : (t : String) → "-" <> t ≡ dash ∷ ([] <> t)
dash-append t = cons-append dash [] t

-- A text with a dash between its parts contains a dash.
pub contains_dash : (s t : String) → contains (codes (s <> "-" <> t)) b'-' ≡ true
unfolding contains
contains_dash [] t = rw (nil-append ("-" <> t), dash-append t) refl
contains_dash (c ∷ s) t = rw (cons-append c s ("-" <> t)) (ground (arith, contains_dash s t))

same_iff : (s t : List ℕ) → (same s t ≡ true) ↔ (s ≡ t)
unfolding same
same_iff List.[] List.[] = (λ e. refl, λ e. refl)
same_iff List.[] (List.◌∷◌ d t) = (λ e. absurd (cc e), λ e. absurd (cc e))
same_iff (List.◌∷◌ c s) List.[] = (λ e. absurd (cc e), λ e. absurd (cc e))
same_iff (List.◌∷◌ c s) (List.◌∷◌ d t) =
    let rest = same_iff s t in
    let heads = nat_eq.beq_iff c d in
    elim (Bool-cases (c == d)) [
      | inl e ↦ rw e (
        λ h. let p : c ≡ d = heads.0 e in let q : s ≡ t = rest.0 h in cc (p, q),
        λ h. rest.1 (let q : s ≡ t = cc h in q),
      )
      | inr e ↦ rw e (λ h. absurd (cc h), λ h. absurd (let p : c ≡ d = cc h in cc (heads.1 p, e)))
    ]

pub same_text_iff : (s t : List ℕ) → (same_text s t ≡ true) ↔ (s ≡ t)
unfolding same_text
same_text_iff s t = same_iff s t
