-- ===== src/JsonDoc/Spaced.antt =====
-- The scanner passes over the whitespace before a token.
use guardy.Base.{ℕ, zero, suc, ◌≡◌, refl, ap, arith, [], ◌∷◌, ◌++◌}
use guardy.Ext.Bytes.{Bytes}
use guardy.JsonDoc.Strings.{quote}
use guardy.JsonDoc.Scanner.{
  space, take_first, take_byte, after_quote, string_token, value_at, closed_or, scan_value,
  scan_members, scan_elements,
}
use guardy.JsonDoc.Printing.{IsGap}
use guardy.JsonDoc.Parts.{Stops}

space-gap : (gap text : Bytes) → IsGap gap → space (gap ++ text) ≡ space text
unfolding space
space-gap [] text h = refl
space-gap (c ∷ gap) text h = rw (h.0) (space-gap gap text h.1)

pub space-all : (gap : Bytes) → IsGap gap → space gap ≡ []
unfolding space
space-all [] h = refl
space-all (c ∷ gap) h = rw (h.0) (space-all gap h.1)

pub take_byte-gap :
    (want : ℕ) (gap text : Bytes) → IsGap gap → take_byte want (gap ++ text) ≡ take_byte want text
unfolding take_byte
take_byte-gap want gap text h = ap (take_first want) (space-gap gap text h)

pub string_token-gap :
    (gap text : Bytes) → IsGap gap → string_token (gap ++ text) ≡ string_token text
unfolding string_token
string_token-gap gap text h = ap after_quote (take_byte-gap quote gap text h)

pub scan_value-gap :
    (fuel d : ℕ) (gap text : Bytes)
    → IsGap gap
    → scan_value fuel d (gap ++ text) ≡ scan_value fuel d text
unfolding scan_value
scan_value-gap zero d gap text h = refl
scan_value-gap (suc fuel) d gap text h =
    ap
      (value_at d (closed_or b'}' (λ rest. scan_members fuel (suc d) [] rest))
        (closed_or b']' (λ rest. scan_elements fuel (suc d) rest)))
      (space-gap gap text h)

-- Nothing that a number may go on with is whitespace.
pub Stops-gap : (gap text : Bytes) → IsGap gap → Stops text → Stops (gap ++ text)
Stops-gap [] text h s = s
Stops-gap (c ∷ gap) text h s = ground (arith, h.0)

pub IsGap-Stops : (gap : Bytes) → IsGap gap → Stops gap
IsGap-Stops [] h = tt
IsGap-Stops (c ∷ gap) h = ground (arith, h.0)
