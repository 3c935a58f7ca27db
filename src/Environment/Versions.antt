-- ===== src/Environment/Versions.antt =====
-- The version texts and constraints of environment/resolver.py, with its two regular expressions written
-- out on the numbers of the characters: digits are ASCII, space is that of ASCII and Latin-1.
pub mod Joining
use cyrene_yield.Common.{
  codes, is_space, lstrip, rstrip, strip, after_prefix, ℕ, suc, ◌+◌, ◌-◌, ◌*◌, ◌≡◌, refl, String,
  Bool, true, false, not, ◌&&◌, ◌||◌, Option, none, some, List, [], ◌∷◌, ◌++◌, Result, ok, err,
  ◌>>=◌, is_nil, any, ltb, leb, nat_eq, is_empty, if◌then◌else◌,
}

abbrev pub is_digit : ℕ → Bool
is_digit c = leb 48 c && leb c 57

abbrev pub first_part : List ℕ → List (List ℕ) → List (List ℕ)
first_part part [] = part ∷ []
first_part part (p ∷ ps) = (part ++ p) ∷ ps

-- text.split(",")
unfoldable pub split_commas : List ℕ → List (List ℕ)
split_commas [] = [] ∷ []
split_commas (c ∷ cs) =
    let rest = split_commas cs in if nat_eq c 44 then [] ∷ rest else first_part (c ∷ []) rest

-- The digits that follow, added to a number that is begun.
unfoldable pub more_digits : ℕ → List ℕ → ℕ × List ℕ
more_digits n [] = (n, [])
more_digits n (c ∷ cs) =
    let rest = more_digits (10 * n + (c - 48)) cs in if is_digit c then rest else (n, c ∷ cs)

-- \d+
unfoldable pub number : List ℕ → Option (ℕ × List ℕ)
unfolding more_digits
number [] = none
number (c ∷ cs) = if is_digit c then some (more_digits 0 (c ∷ cs)) else none

-- \.(\d+)
unfoldable pub dotted : List ℕ → Option (ℕ × List ℕ)
unfolding number
dotted [] = none
dotted (c ∷ cs) = if nat_eq c 46 then number cs else none

pub record Version : Type 0 where
  pub major : ℕ
  pub minor : ℕ
  pub micro : ℕ

-- The groups of a match, how many there are, and what is left.
pub record Groups : Type 0 where
  pub version : Version
  pub parts : ℕ
  pub left : List ℕ

abbrev pub one_group : ℕ → List ℕ → Groups
one_group a left = record {
  version = record { major = a; minor = 0; micro = 0 };
  parts = 1;
  left = left;
}

abbrev pub two_groups : ℕ → ℕ → List ℕ → Groups
two_groups a b left = record {
  version = record { major = a; minor = b; micro = 0 };
  parts = 2;
  left = left;
}

abbrev pub three_groups : ℕ → ℕ → ℕ → List ℕ → Groups
three_groups a b c left = record {
  version = record { major = a; minor = b; micro = c };
  parts = 3;
  left = left;
}

unfoldable pub third_group : ℕ → ℕ → List ℕ → Groups
unfolding dotted
third_group a b left = elim (dotted left) [
  | none ↦ two_groups a b left
  | some (c, rest) ↦ three_groups a b c rest
]

unfoldable pub second_group : ℕ → List ℕ → Groups
unfolding dotted third_group
second_group a left = elim (dotted left) [
  | none ↦ one_group a left
  | some (b, rest) ↦ third_group a b rest
]

-- (\d+)(?:\.(\d+))?(?:\.(\d+))?
unfoldable pub groups : List ℕ → Option Groups
unfolding number second_group
groups cs = elim (number cs) [ none ↦ none | some (a, rest) ↦ some (second_group a rest) ]

pub data EnvironmentError : Type 0 where
  -- ValueError, by its message
  invalid_version invalid_digest : String → EnvironmentError
  digest_mismatch not_compatible : EnvironmentError

-- `.*$`: what is left has no line break.
abbrev pub version_of : String → Option Groups → Result EnvironmentError Version
version_of value none = err (invalid_version value)
version_of value (some g) =
    if any (λ c. nat_eq c 10) g.left then err (invalid_version value) else ok g.version

-- _version
unfoldable pub version : String → Result EnvironmentError Version
unfolding codes lstrip rstrip groups
version value = version_of value (groups (strip (codes value)))

-- The order of tuples of three numbers.
abbrev pub version_lt : Version → Version → Bool
version_lt a b =
    ltb a.major b.major
    || (nat_eq a.major b.major
        && (ltb a.minor b.minor || (nat_eq a.minor b.minor && ltb a.micro b.micro)))

abbrev pub version_eq : Version → Version → Bool
version_eq a b = nat_eq a.major b.major && nat_eq a.minor b.minor && nat_eq a.micro b.micro

pub data Operator : Type 0 where
  le ge eq ne lt gt : Operator

-- The alternatives in their order; `<=` stands before `<`.
abbrev pub operators : List (List ℕ × Operator)
operators =
    (60 ∷ 61 ∷ [], le)
    ∷ (62 ∷ 61 ∷ [], ge)
    ∷ (61 ∷ 61 ∷ [], eq)
    ∷ (33 ∷ 61 ∷ [], ne)
    ∷ (60 ∷ [], lt)
    ∷ (62 ∷ [], gt)
    ∷ []

-- The operator, `==` if there is none, and what follows it.
unfoldable pub operator_of : List (List ℕ × Operator) → List ℕ → Operator × List ℕ
unfolding after_prefix
operator_of [] cs = (eq, cs)
operator_of ((text, o) ∷ rest) cs =
    let later = operator_of rest cs in
    elim (after_prefix text cs) [ none ↦ later | some left ↦ (o, left) ]

-- `==` compares as many parts as the constraint names.
unfoldable pub compares : Operator → Version → Groups → Bool
compares eq actual g =
    if nat_eq g.parts 1
    then nat_eq actual.major g.version.major
    else if nat_eq g.parts 2
    then nat_eq actual.major g.version.major && nat_eq actual.minor g.version.minor
    else version_eq actual g.version
compares ne actual g = not (version_eq actual g.version)
compares ge actual g = not (version_lt actual g.version)
compares le actual g = not (version_lt g.version actual)
compares gt actual g = version_lt g.version actual
compares lt actual g = version_lt actual g.version

-- A term that the expression does not match is not satisfied.
abbrev pub matched : Operator → Version → Option Groups → Bool
matched o actual none = false
matched o actual (some g) = is_nil g.left && compares o actual g

unfoldable pub term_holds : Version → List ℕ → Bool
unfolding operator_of lstrip groups compares
term_holds actual term =
    let (o, left) = operator_of operators term in
    is_nil term || matched o actual (groups (lstrip left))

-- The loop over the terms.
unfoldable pub terms_hold : Version → List (List ℕ) → Bool
unfolding term_holds rstrip lstrip
terms_hold actual [] = true
terms_hold actual (t ∷ ts) =
    let rest = terms_hold actual ts in if term_holds actual (strip t) then rest else false

-- _satisfies
unfoldable pub satisfies : String → String → Result EnvironmentError Bool
unfolding version terms_hold split_commas codes
satisfies actual constraint =
    if is_empty constraint
    then ok true
    else do v ← version actual; ok (terms_hold v (split_commas (codes constraint)))

tests :
    (satisfies "3.11.4" ">=3.10, <3.12" ≡ ok true)
    × (satisfies "3.12.0rc1" ">=3.10,<3.12" ≡ ok false)
    × (satisfies "3.11.4" "3.11" ≡ ok true)
    × (satisfies "3.11.4" "~=3.11" ≡ ok false)
    × (satisfies "v3" "3" ≡ err (invalid_version "v3"))
unfolding satisfies
tests = (refl, refl, refl, refl, refl)
