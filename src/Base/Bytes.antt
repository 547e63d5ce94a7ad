-- ===== src/Base/Bytes.antt =====
-- Texts as lists of bytes: splitting, joining, and the check of `String::from_utf8`.
use Prim.Native.Nat.{ℕ, zero, suc, ◌<◌}
use mathlib.Core.Path.{◌≡◌, ◌∙◌, refl, ap}
use mathlib.Core.Logic.{◌≢◌}
use mathlib.Core.Bool.{Bool, true, false, ◌&&◌}
use mathlib.Core.List.{List, [], ◌∷◌, ◌++◌}
use mathlib.Core.Option.{Option, none, some}
use native.Mathlib.Omega.{arith}
use verdant.Base.Lists.{All}
use verdant.Base.Tests.{leb, ltb, nat_eq, if◌then◌else◌}

abbrev pub Bytes : Type 0
Bytes = List ℕ

-- How many continuation bytes follow a first byte, and the range of the next one.
abbrev lead : ℕ → Option (ℕ × ℕ × ℕ)
lead b =
    if ltb b 0x80
    then some (0, 0x80, 0xbf)
    else if ltb b 0xc2
    then none
    else if ltb b 0xe0
    then some (1, 0x80, 0xbf)
    else if nat_eq b 0xe0
    then some (2, 0xa0, 0xbf)
    else if nat_eq b 0xed
    then some (2, 0x80, 0x9f)
    else if ltb b 0xf0
    then some (2, 0x80, 0xbf)
    else if nat_eq b 0xf0
    then some (3, 0x90, 0xbf)
    else if ltb b 0xf4
    then some (3, 0x80, 0xbf)
    else if nat_eq b 0xf4
    then some (3, 0x80, 0x8f)
    else none

utf8_from : ℕ → ℕ → ℕ → Bytes → Bool
utf8_from zero low high [] = true
utf8_from (suc k) low high [] = false
utf8_from (suc k) low high (b ∷ s) =
    let rest = utf8_from k 0x80 0xbf s in leb low b && leb b high && rest
utf8_from zero low high (b ∷ s) = elim (lead b) [
  | none ↦ false
  | some (k, l, h) ↦ utf8_from k l h s
]

-- `String::from_utf8(bytes).is_ok()`.
unfoldable pub is_utf8 : Bytes → Bool
unfolding utf8_from
is_utf8 s = utf8_from 0 0x80 0xbf s

lead_bounded : (b k l h : ℕ) → lead b ≡ some (k, l, h) → (b < 256) × (h < 256)
lead_bounded b k l h e = (ground arith, ground arith)

lead-bytes :
    (b : ℕ) (s : Bytes) (o : Option (ℕ × ℕ × ℕ))
    → lead b ≡ o
    → ((k l h : ℕ) → h < 256 → utf8_from k l h s ≡ true → All (λ x. x < 256) s)
    → elim o [ none ↦ false | some (k, l, h) ↦ utf8_from k l h s ] ≡ true
    → All (λ x. x < 256) (b ∷ s)
lead-bytes b s none e behind h = absurd (cc)
lead-bytes b s (some (k, l, g)) e behind h =
    let (small, high) = lead_bounded b k l g e in (small, behind k l g high h)

-- Every byte of UTF-8 fits in a byte.
utf8_from-bytes :
    (k low high : ℕ) (s : Bytes) → high < 256 → utf8_from k low high s ≡ true → All (λ b. b < 256) s
unfolding utf8_from
utf8_from-bytes zero low high [] f h = tt
utf8_from-bytes (suc k) low high [] f h = tt
utf8_from-bytes (suc k) low high (b ∷ s) f h =
    (ground arith, utf8_from-bytes k 0x80 0xbf s (omega arith) (ground arith))
utf8_from-bytes zero low high (b ∷ s) f h =
    lead-bytes b s (lead b) refl (λ k l g. utf8_from-bytes k l g s) h

pub is_utf8-bytes : (s : Bytes) → is_utf8 s ≡ true → All (λ b. b < 256) s
unfolding is_utf8
is_utf8-bytes s h = utf8_from-bytes 0 0x80 0xbf s (omega arith) h

-- `split`: one piece more than there are separators.
abbrev first_piece : ℕ → List Bytes → List Bytes
first_piece c [] = (c ∷ []) ∷ []
first_piece c (p ∷ ps) = (c ∷ p) ∷ ps

unfoldable pub split : ℕ → Bytes → List Bytes
split sep [] = [] ∷ []
split sep (c ∷ s) = let rest = split sep s in if nat_eq c sep then [] ∷ rest else first_piece c rest

-- `join` of the pieces.
unfoldable pub join : ℕ → List Bytes → Bytes
join sep [] = []
join sep (p ∷ []) = p
join sep (p ∷ q ∷ ps) = p ++ sep ∷ join sep (q ∷ ps)

pub split-piece : (sep : ℕ) (p : Bytes) → All (λ c. c ≢ sep) p → split sep p ≡ p ∷ []
unfolding split
split-piece sep [] h = refl
split-piece sep (c ∷ p) h = ground (arith, h.0, split-piece sep p h.1)

split-append :
    (sep : ℕ) (p rest : Bytes)
    → All (λ c. c ≢ sep) p
    → split sep (p ++ sep ∷ rest) ≡ p ∷ split sep rest
unfolding split
split-append sep [] rest h = ground arith
split-append sep (c ∷ p) rest h = ground (arith, h.0, split-append sep p rest h.1)

pub split-join :
    (sep : ℕ) (p : Bytes) (ps : List Bytes)
    → All (All (λ c. c ≢ sep)) (p ∷ ps)
    → split sep (join sep (p ∷ ps)) ≡ p ∷ ps
unfolding join
split-join sep p [] h = split-piece sep p h.0
split-join sep p (q ∷ ps) h =
    split-append sep p (join sep (q ∷ ps)) h.0 ∙ ap (λ l. p ∷ l) (split-join sep q ps h.1)
