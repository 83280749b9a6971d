-- ===== src/Boundary/Profile.antt =====
-- When a boundary profile is compiled, and what it covers.
use guardy.Base.{
  true, false, ◌||◌, ◌≡◌, ◌↔◌, refl, sym, ◌∙◌, String, List, [], ◌∷◌, arith, is_empty, All,
  Bool-cases, inl, inr,
}
use text.Mathlib.Text.{◌==◌ as str_eq}
use guardy.Boundary.{
  known_boundary, member, Compiled, compiled, rejected, require, support, compile_boundary_profile,
}

-- The boundaries covered in front of others, the last one first.
abbrev reverse_onto : List String → List String → List String
reverse_onto [] cs = cs
reverse_onto (b ∷ bs) cs = reverse_onto bs (b ∷ cs)

-- A profile is compiled.
abbrev pub IsCompiled : Compiled → Type 0
IsCompiled (compiled p) = Unit
IsCompiled (rejected b code) = ⊥

abbrev pub AllKnown : List String → Type 0
AllKnown = All (λ b. known_boundary b ≡ true)

abbrev pub AllIn : List String → List String → Type 0
AllIn bs cs = All (λ b. member b cs ≡ true) bs

require-IsCompiled :
    (identity : String) (covered mandatory : List String)
    → IsCompiled (require identity covered mandatory) ↔ AllIn mandatory covered
require-IsCompiled identity covered [] = (λ h. tt, λ h. tt)
require-IsCompiled identity covered (b ∷ bs) = elim (Bool-cases (member b covered)) [
  | inl e ↦
      let ih = require-IsCompiled identity covered bs in rw e (λ h. (refl, ih.0 h), λ h. ih.1 h.1)
  | inr e ↦ rw e (λ h. absurd h, λ h. cc)
]

member-cons : (b c : String) (cs : List String) → member b (c ∷ cs) ≡ (str_eq c b || member b cs)
member-cons b c cs = refl

support-IsCompiled :
    (identity : String) (mandatory covered supported : List String)
    → IsCompiled (support identity mandatory covered supported) ↔ (
        AllKnown supported
        × IsCompiled (require identity (reverse_onto supported covered) mandatory))
support-IsCompiled identity mandatory covered [] = (λ h. (tt, h), λ h. h.1)
support-IsCompiled identity mandatory covered (b ∷ bs) = elim (Bool-cases (known_boundary b)) [
  | inl e ↦
      let ih = support-IsCompiled identity mandatory (b ∷ covered) bs in
      rw e (λ h. ((refl, (ih.0 h).0), (ih.0 h).1), λ h. ih.1 (h.0.1, h.1))
  | inr e ↦ rw e (λ h. absurd h, λ h. cc)
]

reverse_onto-member :
    (b : String) (bs cs : List String)
    → member b (reverse_onto bs cs) ≡ (member b bs || member b cs)
reverse_onto-member b [] cs = refl
reverse_onto-member b (x ∷ bs) cs = ground (arith, reverse_onto-member b bs (x ∷ cs))

AllIn-map :
    (bs xs ys : List String)
    → ((b : String) → member b xs ≡ member b ys)
    → AllIn bs xs
    → AllIn bs ys
AllIn-map [] xs ys e h = tt
AllIn-map (b ∷ bs) xs ys e h = (sym (e b) ∙ h.0, AllIn-map bs xs ys e h.1)

same-members : (b : String) (bs : List String) → member b (reverse_onto bs []) ≡ member b bs
same-members b bs = ground (arith, reverse_onto-member b bs [])

-- A profile is compiled exactly when it has an identity, every supported boundary is a known one, and
-- every mandatory one is supported.
pub compile-IsCompiled :
    (identity : String) (supported mandatory : List String)
    → IsCompiled (compile_boundary_profile identity supported mandatory)
      ↔ ((is_empty identity ≡ false) × AllKnown supported × AllIn mandatory supported)
unfolding compile_boundary_profile
compile-IsCompiled identity supported mandatory = elim (Bool-cases (is_empty identity)) [
  | inl e ↦ rw e (λ h. absurd h, λ h. cc)
  | inr e ↦
      let s = support-IsCompiled identity mandatory [] supported in
      let r = require-IsCompiled identity (reverse_onto supported []) mandatory in
      rw e (
        λ h. (
          refl,
          (s.0 h).0,
          AllIn-map mandatory _ _ (λ b. same-members b supported) (r.0 (s.0 h).1),
        ),
        λ h. s.1 (h.1, r.1 (AllIn-map mandatory _ _ (λ b. sym (same-members b supported)) h.2)),
      )
]
