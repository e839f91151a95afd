-- ===== src/Prelude/Text.antt =====
-- The methods of Python's `str` that the code calls.
use Prim.Native.Char.{Char, code}
use Prim.Native.Nat.{ℕ, zero, suc}
use Prim.Native.String.{String, ◌++◌}
use mathlib.Core.List.{List, [], ◌∷◌}
use mathlib.Core.Path.{◌≡◌, refl}
use mathlib.Core.Bool.{Bool, true, false, ◌||◌}
use text.Mathlib.Text.{◌==◌ as str_eq}
use native.Mathlib.Omega.{arith}
use text.Mathlib.TextLemmas.{nil-append, cons-append}
use introspector.Prelude.Tests.{if◌then◌else◌, ◌==◌}

-- s == ''
unfoldable pub is_blank : String → Bool
is_blank String.[] = true
is_blank (String.◌∷◌ c s) = false

-- s[:-1]
unfoldable pub drop_last : String → String
drop_last String.[] = String.[]
drop_last (String.◌∷◌ c String.[]) = String.[]
drop_last (String.◌∷◌ c (String.◌∷◌ d s)) = String.◌∷◌ c (drop_last (String.◌∷◌ d s))

unfoldable pub on_head : (String → String) → List String → List String
on_head f [] = f String.[] ∷ []
on_head f (x ∷ xs) = f x ∷ xs

-- s.split(sep), for a separator of one character
unfoldable pub split : ℕ → String → List String
unfolding on_head
split sep String.[] = String.[] ∷ []
split sep (String.◌∷◌ c s) =
    let rest = split sep s in
    if code c == sep then String.[] ∷ rest else on_head (String.◌∷◌ c) rest

-- sep.join(parts)
unfoldable pub join : String → List String → String
join sep [] = String.[]
join sep (p ∷ []) = p
join sep (p ∷ (q ∷ ps)) = p ++ (sep ++ join sep (q ∷ ps))

-- s.endswith(suffix)
unfoldable pub ends_with : String → String → Bool
ends_with String.[] suffix = str_eq String.[] suffix
ends_with (String.◌∷◌ c s) suffix = str_eq (String.◌∷◌ c s) suffix || ends_with s suffix

-- s[n:]
unfoldable pub text_from : ℕ → String → String
text_from n String.[] = String.[]
text_from zero (String.◌∷◌ c s) = String.◌∷◌ c s
text_from (suc n) (String.◌∷◌ c s) = text_from n s

-- The lower case of the ASCII letters; the names that the code lowers are ASCII.
abbrev lower_letters : List (ℕ × Char)
lower_letters =
    (b'A', "a")
    ∷ (b'B', "b")
    ∷ (b'C', "c")
    ∷ (b'D', "d")
    ∷ (b'E', "e")
    ∷ (b'F', "f")
    ∷ (b'G', "g")
    ∷ (b'H', "h")
    ∷ (b'I', "i")
    ∷ (b'J', "j")
    ∷ (b'K', "k")
    ∷ (b'L', "l")
    ∷ (b'M', "m")
    ∷ (b'N', "n")
    ∷ (b'O', "o")
    ∷ (b'P', "p")
    ∷ (b'Q', "q")
    ∷ (b'R', "r")
    ∷ (b'S', "s")
    ∷ (b'T', "t")
    ∷ (b'U', "u")
    ∷ (b'V', "v")
    ∷ (b'W', "w")
    ∷ (b'X', "x")
    ∷ (b'Y', "y")
    ∷ (b'Z', "z")
    ∷ []

abbrev lower_in : List (ℕ × Char) → Char → Char
lower_in [] c = c
lower_in ((u, l) ∷ rest) c = let later = lower_in rest c in if code c == u then l else later

-- s.lower()
unfoldable pub lower : String → String
lower String.[] = String.[]
lower (String.◌∷◌ c s) = String.◌∷◌ (lower_in lower_letters c) (lower s)

lower_example : lower "SecurityGroup-1" ≡ "securitygroup-1"
unfolding lower
lower_example = refl

split_example : split b'$' "o-1$$2" ≡ "o-1" ∷ "" ∷ "2" ∷ []
unfolding split
split_example = refl

-- A text without the character.
abbrev pub Lacks : ℕ → String → Type 0
Lacks sep String.[] = Unit
Lacks sep (String.◌∷◌ c s) = ((code c == sep) ≡ false) × Lacks sep s

pub split_last : (sep : ℕ) (p : String) → Lacks sep p → split sep p ≡ p ∷ []
unfolding split
split_last sep String.[] h = refl
split_last sep (String.◌∷◌ c p) (other, h) = rw (other, split_last sep p h)

split_first :
    (sep : Char) (p s : String)
    → Lacks (code sep) p
    → split (code sep) (p ++ String.◌∷◌ sep s) ≡ p ∷ split (code sep) s
unfolding split
split_first sep String.[] s h = rw nil-append (ground arith)
split_first sep (String.◌∷◌ c p) s (other, h) = rw (cons-append, other, split_first sep p s h)

abbrev pub AllLack : ℕ → List String → Type 0
AllLack sep [] = Unit
AllLack sep (p ∷ ps) = Lacks sep p × AllLack sep ps

-- Splitting what was joined gives the parts back, if there is one and none holds the separator.
pub split-join :
    (sep : Char) (p : String) (ps : List String)
    → AllLack (code sep) (p ∷ ps)
    → split (code sep) (join (String.◌∷◌ sep String.[]) (p ∷ ps)) ≡ p ∷ ps
unfolding join
split-join sep p [] (h, _) = split_last (code sep) p h
split-join sep p (q ∷ ps) (h, hs) =
    rw (cons-append, nil-append, split_first sep p _ h, split-join sep q ps hs)

pub Lacks-append : (sep : ℕ) (p q : String) → Lacks sep p → Lacks sep q → Lacks sep (p ++ q)
Lacks-append sep String.[] q h k = rw nil-append k
Lacks-append sep (String.◌∷◌ c p) q (other, h) k = rw cons-append (other, Lacks-append sep p q h k)
