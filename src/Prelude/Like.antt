-- ===== src/Prelude/Like.antt =====
-- The `LIKE` of SQL over code points: `%` is any text, `_` any character, a backslash quotes.
use Prim.Native.Char.{code}
use Prim.Native.Nat.{ℕ}
use Prim.Native.String.{String}
use mathlib.Core.Path.{◌≡◌, refl}
use mathlib.Core.Bool.{Bool, true, false, ◌&&◌, ◌||◌}
use mathlib.Core.List.{List, [], ◌∷◌, ◌++◌}
use native.Mathlib.Omega.{arith}
use introspector.Prelude.Tests.{if◌then◌else◌, ◌==◌}
use mathlib.Core.Logic.{◌≢◌}

abbrev pub codes : String → List ℕ
codes String.[] = []
codes (String.◌∷◌ c s) = code c ∷ codes s

any_suffix : (List ℕ → Bool) → List ℕ → Bool
any_suffix f [] = f []
any_suffix f (c ∷ s) = f (c ∷ s) || any_suffix f s

literal : ℕ → (List ℕ → Bool) → List ℕ → Bool
literal c f [] = false
literal c f (d ∷ s) = (d == c) && f s

one_char : (List ℕ → Bool) → List ℕ → Bool
one_char f [] = false
one_char f (d ∷ s) = f s

at_end : List ℕ → Bool
at_end [] = true
at_end (d ∷ s) = false

-- The character behind a backslash stands for itself.
unfoldable pub like_codes : List ℕ → Bool → List ℕ → Bool
unfolding any_suffix literal one_char at_end
like_codes [] quoted = at_end
like_codes (c ∷ p) true = literal c (like_codes p false)
like_codes (c ∷ p) false =
    let quote = like_codes p true in
    let rest = like_codes p false in
    if c == b'%'
    then any_suffix rest
    else if c == b'_'
    then one_char rest
    else if c == b'\\'
    then quote
    else literal c rest

-- text LIKE pattern
unfoldable pub like : String → String → Bool
unfolding like_codes
like text pattern = like_codes (codes pattern) false (codes text)

-- Not `%`, `_` or a backslash.
abbrev pub IsPlain : List ℕ → Type 0
IsPlain [] = Unit
IsPlain (c ∷ p) = (c ≢ b'%') × (c ≢ b'_') × (c ≢ b'\\') × IsPlain p

unfoldable pub begins : List ℕ → List ℕ → Bool
begins [] s = true
begins (c ∷ p) [] = false
begins (c ∷ p) (d ∷ s) = (d == c) && begins p s

any_suffix_end : (s : List ℕ) → any_suffix at_end s ≡ true
unfolding any_suffix at_end
any_suffix_end [] = refl
any_suffix_end (c ∷ s) = any_suffix_end s

eq_false : (c d : ℕ) → c ≢ d → (c == d) ≡ false
eq_false c d h = ground arith

like_codes_plain :
    (c : ℕ) (p : List ℕ)
    → c ≢ b'%'
    → c ≢ b'_'
    → c ≢ b'\\'
    → like_codes (c ∷ p) false ≡ literal c (like_codes p false)
unfolding like_codes
like_codes_plain c p a b d = rw (eq_false c _ a, eq_false c _ b, eq_false c _ d)

-- The pattern `prefix%` is the test of a prefix, if the prefix has no special character.
pub like_codes-prefix :
    (p s : List ℕ) → IsPlain p → like_codes (p ++ b'%' ∷ []) false s ≡ begins p s
unfolding begins literal
like_codes-prefix [] s h = unfold like_codes in any_suffix_end s
like_codes-prefix (c ∷ p) [] (a, b, d, h) = rw (like_codes_plain c (p ++ b'%' ∷ []) a b d) refl
like_codes-prefix (c ∷ p) (x ∷ s) (a, b, d, h) =
    rw (like_codes_plain c (p ++ b'%' ∷ []) a b d) (rw (like_codes-prefix p s h))
