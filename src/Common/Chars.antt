-- ===== src/Common/Chars.antt =====
-- Texts as the numbers of their characters, for regular expressions and the tests on characters: spaces
-- are those of ASCII and Latin-1.
use Prim.Native.Char.{code}
use Prim.Native.String.{String, [] as end_of, ◌∷◌ as and_then}
use Prim.Native.Nat.{ℕ}
use mathlib.Core.Path.{◌≡◌, refl, ap, ◌∙◌}
use mathlib.Core.Bool.{Bool, true, false, ◌&&◌, ◌||◌}
use mathlib.Core.Option.{Option, none, some}
use mathlib.Core.List.{List, [], ◌∷◌, ◌++◌}
use native.Mathlib.Omega.{arith}
use text.Mathlib.TextLemmas.{nil-append, cons-append}
use cyrene_yield.Common.Tests.{leb, nat_eq, concat, if◌then◌else◌}
use cyrene_yield.Common.Lists.{length, all, is_nil}

unfoldable pub codes : String → List ℕ
codes end_of = []
codes (and_then c s) = code c ∷ codes s

abbrev pub is_space : ℕ → Bool
is_space c = (leb 9 c && leb c 13) || (leb 28 c && leb c 32) || nat_eq c 133 || nat_eq c 160

unfoldable pub lstrip : List ℕ → List ℕ
lstrip [] = []
lstrip (c ∷ cs) = let rest = lstrip cs in if is_space c then rest else c ∷ cs

unfoldable pub rstrip : List ℕ → List ℕ
rstrip [] = []
rstrip (c ∷ cs) = let rest = rstrip cs in if is_space c && is_nil rest then [] else c ∷ rest

-- text.strip()
abbrev pub strip : List ℕ → List ℕ
strip cs = lstrip (rstrip cs)

-- What follows a prefix.
unfoldable pub after_prefix : List ℕ → List ℕ → Option (List ℕ)
after_prefix [] cs = some cs
after_prefix (p ∷ ps) [] = none
after_prefix (p ∷ ps) (c ∷ cs) = let rest = after_prefix ps cs in if nat_eq p c then rest else none

abbrev pub is_hex : ℕ → Bool
is_hex c = (leb 48 c && leb c 57) || (leb 97 c && leb c 102)

abbrev pub is_hex_digest : Option (List ℕ) → Bool
is_hex_digest none = false
is_hex_digest (some cs) = nat_eq (length cs) 64 && all is_hex cs

-- _DIGEST_RE
unfoldable pub is_digest : String → Bool
unfolding codes after_prefix
is_digest value = is_hex_digest (after_prefix (codes "sha256:") (codes value))

pub codes-concat : (s t : String) → codes (concat s t) ≡ codes s ++ codes t
unfolding codes concat
codes-concat end_of t = ap codes (nil-append t)
codes-concat (and_then c s) t =
    ap codes (cons-append c s t) ∙ ap (λ z. code c ∷ z) (codes-concat s t)

-- A prefix that a text begins with is taken off.
pub after_prefix-append : (ps cs : List ℕ) → after_prefix ps (ps ++ cs) ≡ some cs
unfolding after_prefix
after_prefix-append [] cs = refl
after_prefix-append (p ∷ ps) cs =
    let same : nat_eq p p ≡ true = ground arith in rw same (after_prefix-append ps cs)
