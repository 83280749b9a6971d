-- ===== src/JsonDoc/Scanned.antt =====
-- The scanner over the text of a document, with whitespace wherever it is allowed: it takes the text or finds a duplicate key.
use guardy.Base.{
  ℕ, zero, suc, ◌+◌, ◌≤◌, true, false, ◌&&◌, ◌≡◌, refl, ap, ◌∙◌, arith, List, [], ◌∷◌, ◌++◌, max,
}
use guardy.Ext.Bytes.{Bytes}
use guardy.JsonDoc.Scanner.{
  space, take_byte, string_token, start_of, max_depth, behind_string, value_at, next_entry,
  scan_value, scan_members, scan_elements,
}
use guardy.JsonDoc.Printing.{
  print_string, Json, null, boolean, numeral, string, empty_object, empty_array, object, array,
  Members, sole, also, Elements, sole_element, also_element, print, print_members, print_elements,
  print_number, IsJson, AreMembers, AreElements, depth, depth_members, depth_elements, unique,
  unique_members, unique_elements, member_key,
}
use guardy.JsonDoc.Parts.{number_lem, number-Opens, Stops}
use guardy.JsonDoc.Spaced.{take_byte-gap, scan_value-gap, Stops-gap}
use guardy.JsonDoc.Entries.{
  verdict, string_token_lem, Opens-space, members-take, elements-take, number-scans,
  closed_or-entries, closed_or-closes, comma-next, close-next, nested, member-verdict,
}

-- The depth of calls that a document takes.
unfoldable mutual
  pub cost : Json → ℕ
  cost null = 1
  cost (boolean b) = 1
  cost (numeral n) = 1
  cost (string ps) = 1
  cost (empty_object gap) = 1
  cost (empty_array gap) = 1
  cost (object ms) = suc (cost_members ms)
  cost (array es) = suc (cost_elements es)

  pub cost_members : Members → ℕ
  cost_members (sole g ps v) = suc (cost v)
  cost_members (also g ps v ms) = suc (max (cost v) (cost_members ms))

  pub cost_elements : Elements → ℕ
  cost_elements (sole_element g v) = suc (cost v)
  cost_elements (also_element g v es) = suc (max (cost v) (cost_elements es))

pub cost-pos : (v : Json) → 1 ≤ cost v
unfolding cost
cost-pos null = omega arith
cost-pos (boolean b) = omega arith
cost-pos (numeral n) = omega arith
cost-pos (string ps) = omega arith
cost-pos (empty_object gap) = omega arith
cost-pos (empty_array gap) = omega arith
cost-pos (object ms) = omega arith
cost-pos (array es) = omega arith

mutual
  unfolding scan_value print_string unique cost depth print IsJson start_of string_token take_byte
      space

  pub scan_value_lem :
      (v : Json) (fuel d : ℕ) (rest : Bytes)
      → cost v ≤ fuel
      → depth v + d ≤ max_depth
      → IsJson v
      → Stops rest
      → scan_value fuel d (print v rest) ≡ verdict (unique v) rest
  scan_value_lem v zero d rest c l h s = absurd (omega (arith, cost-pos v))
  scan_value_lem null (suc f) d rest c l h s = refl
  scan_value_lem (boolean true) (suc f) d rest c l h s = refl
  scan_value_lem (boolean false) (suc f) d rest c l h s = refl
  scan_value_lem (numeral n) (suc f) d rest c l h s =
      ap (value_at d _ _) (Opens-space (print_number n rest) (number-Opens n rest h).0)
      ∙ number-scans d _ _ (print_number n rest) rest (number-Opens n rest h).1
          (number_lem n rest h s)
  scan_value_lem (string ps) (suc f) d rest c l h s = ap behind_string (string_token_lem ps rest h)
  scan_value_lem (empty_object gap) (suc f) d rest c l h s =
      nested d _ (omega arith)
      ∙ closed_or-closes b'}' (λ r. scan_members f (suc d) [] r) (gap ++ b'}' ∷ rest) rest
          (take_byte-gap b'}' gap (b'}' ∷ rest) h)
  scan_value_lem (empty_array gap) (suc f) d rest c l h s =
      nested d _ (omega arith)
      ∙ closed_or-closes b']' (λ r. scan_elements f (suc d) r) (gap ++ b']' ∷ rest) rest
          (take_byte-gap b']' gap (b']' ∷ rest) h)
  scan_value_lem (object ms) (suc f) d rest c l h s =
      nested d _ (omega arith)
      ∙ closed_or-entries b'}' (λ r. scan_members f (suc d) [] r) (print_members ms (b'}' ∷ rest))
          (members-take ms (b'}' ∷ rest) h)
      ∙ scan_members_lem ms f (suc d) [] rest (omega arith) (omega arith) h
  scan_value_lem (array es) (suc f) d rest c l h s =
      nested d _ (omega arith)
      ∙ closed_or-entries b']' (λ r. scan_elements f (suc d) r) (print_elements es (b']' ∷ rest))
          (elements-take es (b']' ∷ rest) h)
      ∙ scan_elements_lem es f (suc d) rest (omega arith) (omega arith) h

  scan_members_lem :
      (ms : Members) (fuel d : ℕ) (keys : List Bytes) (rest : Bytes)
      → cost_members ms ≤ fuel
      → depth_members ms + d ≤ max_depth
      → AreMembers ms
      → scan_members fuel d keys (print_members ms (b'}' ∷ rest))
        ≡ verdict (unique_members keys ms) rest
  scan_members_lem (sole g ps v) zero d keys rest c l h = absurd (omega arith)
  scan_members_lem (also g ps v ms) zero d keys rest c l h = absurd (omega arith)
  scan_members_lem (sole g ps v) (suc f) d keys rest c l h =
      let behind = g.behind ++ b'}' ∷ rest in
      member-verdict keys (λ r. scan_value f d r)
        (λ more v. next_entry b'}' (λ r. scan_members f d more r) v) g ps (print v behind) rest
        (unique v) h.0 h.1
        (close-next b'}' (λ r. scan_members f d (member_key ps ∷ keys) r) (unique v) g.behind rest _
          refl h.0.3
          (scan_value-gap f d g.before_value (print v behind) h.0.2
            ∙ scan_value_lem v f d behind (omega arith) (omega arith) h.2
                (Stops-gap g.behind (b'}' ∷ rest) h.0.3 refl)))
  scan_members_lem (also g ps v ms) (suc f) d keys rest c l h =
      let others = print_members ms (b'}' ∷ rest) in
      let behind = g.behind ++ b',' ∷ others in
      member-verdict keys (λ r. scan_value f d r)
        (λ more v. next_entry b'}' (λ r. scan_members f d more r) v) g ps (print v behind) rest
        (unique v && unique_members (member_key ps ∷ keys) ms) h.0 h.1
        (comma-next b'}' (λ r. scan_members f d (member_key ps ∷ keys) r) (unique v) g.behind others
          rest _ (unique_members (member_key ps ∷ keys) ms) refl h.0.3
          (scan_value-gap f d g.before_value (print v behind) h.0.2
            ∙ scan_value_lem v f d behind (omega arith) (omega arith) h.2
                (Stops-gap g.behind (b',' ∷ others) h.0.3 refl))
          (scan_members_lem ms f d (member_key ps ∷ keys) rest (omega arith) (omega arith) h.3))

  scan_elements_lem :
      (es : Elements) (fuel d : ℕ) (rest : Bytes)
      → cost_elements es ≤ fuel
      → depth_elements es + d ≤ max_depth
      → AreElements es
      → scan_elements fuel d (print_elements es (b']' ∷ rest)) ≡ verdict (unique_elements es) rest
  scan_elements_lem (sole_element g v) zero d rest c l h = absurd (omega arith)
  scan_elements_lem (also_element g v es) zero d rest c l h = absurd (omega arith)
  scan_elements_lem (sole_element g v) (suc f) d rest c l h =
      let behind = g.behind ++ b']' ∷ rest in
      close-next b']' (λ r. scan_elements f d r) (unique v) g.behind rest _ refl h.0.1
        (scan_value-gap f d g.before (print v behind) h.0.0
          ∙ scan_value_lem v f d behind (omega arith) (omega arith) h.1
              (Stops-gap g.behind (b']' ∷ rest) h.0.1 refl))
  scan_elements_lem (also_element g v es) (suc f) d rest c l h =
      let others = print_elements es (b']' ∷ rest) in
      let behind = g.behind ++ b',' ∷ others in
      comma-next b']' (λ r. scan_elements f d r) (unique v) g.behind others rest _
        (unique_elements es) refl h.0.1
        (scan_value-gap f d g.before (print v behind) h.0.0
          ∙ scan_value_lem v f d behind (omega arith) (omega arith) h.1
              (Stops-gap g.behind (b',' ∷ others) h.0.1 refl))
        (scan_elements_lem es f d rest (omega arith) (omega arith) h.2)
