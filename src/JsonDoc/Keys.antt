-- ===== src/JsonDoc/Keys.antt =====
-- The key of an object is what `json.Unmarshal` makes of its string.
use guardy.Base.{
  ℕ, zero, suc, ltb, leb, ◌==◌, true, false, not, ◌&&◌, ◌≡◌, ◌≢◌, refl, sym, subst, ap, ◌∙◌, [],
  ◌∷◌, ◌++◌, Option, none, some, length, take, drop, arith, Bool-cases, Option-cases, inl, inr,
}
use guardy.Release.Utf8.{rune_size, valid_from, valid_utf8}
use guardy.Ext.Bytes.{Bytes, Lacks}
use guardy.JsonDoc.Strings.{
  StringToken, quote, backslash, string_from, add_byte, add_escape, escape, unquote_from, unquote,
  key,
}

-- A string that was scanned without an escape has no backslash.
abbrev Unescaped : Option StringToken → Type 0
Unescaped none = Unit
Unescaped (some t) = t.escaped ≡ false → Lacks backslash t.body

add_byte-Unescaped :
    (c : ℕ) (o : Option StringToken) → c ≢ backslash → Unescaped o → Unescaped (add_byte c o)
add_byte-Unescaped c none ne h = tt
add_byte-Unescaped c (some t) ne h = λ e. (ne, h e)

add_escape-Unescaped : (c : ℕ) (o : Option StringToken) → Unescaped (add_escape c o)
add_escape-Unescaped c none = tt
add_escape-Unescaped c (some t) = λ e. cc

string-Unescaped : (text : Bytes) → Unescaped (string_from zero text)
unfolding string_from
string-Unescaped [] = tt
string-Unescaped (c ∷ cs) = elim (Bool-cases (c == quote)) [
  | inl q ↦ rw q (λ e. tt)
  | inr q ↦ elim (Bool-cases (ltb c 32)) [
    | inl l ↦ rw (q, l) tt
    | inr l ↦ elim (Bool-cases (c == backslash)) [
      | inl b ↦
          rw (q, l, b)
            (elim (Option-cases (escape cs)) [
              | inl n ↦ rw n tt
              | inr (n, e) ↦ rw e (add_escape-Unescaped c (string_from n cs))
            ])
      | inr b ↦
          rw (q, l, b)
            (add_byte-Unescaped c (string_from zero cs) (ground arith) (string-Unescaped cs))
    ]
  ]
]

drop-Lacks : (c n : ℕ) (xs : Bytes) → Lacks c xs → Lacks c (drop n xs)
drop-Lacks c zero xs h = h
drop-Lacks c (suc n) [] h = h
drop-Lacks c (suc n) (x ∷ xs) h = drop-Lacks c n xs h.1

take-drop : (n : ℕ) (xs : Bytes) → take n xs ++ drop n xs ≡ xs
take-drop zero xs = refl
take-drop (suc n) [] = refl
take-drop (suc n) (x ∷ xs) = ap (x ∷◌) (take-drop n xs)

unquote_from-plain :
    (fuel : ℕ) (text : Bytes)
    → Lacks backslash text
    → valid_from fuel text ≡ true
    → unquote_from fuel text ≡ text
unfolding unquote_from valid_from
unquote_from-plain zero [] h v = refl
unquote_from-plain (suc fuel) [] h v = refl
unquote_from-plain zero (c ∷ cs) h v = cc
unquote_from-plain (suc fuel) (c ∷ cs) h v =
    let size = rune_size (c ∷ cs) in
    let plain : (c == backslash) ≡ false = ground (arith, h.0) in
    elim (Bool-cases (size == 1 && leb 128 c)) [
      | inl e ↦ cc (rw e at v)
      | inr e ↦
          rw (plain, e)
            (ap (take size (c ∷ cs) ++◌) (
                unquote_from-plain fuel (drop size (c ∷ cs)) (drop-Lacks backslash size (c ∷ cs) h)
                  (rw e at v))
              ∙ take-drop size (c ∷ cs))
    ]

-- The key of a scanned string is what unquoting its body gives: the code leaves the body as it is only
-- where that makes no difference, surrogates, invalid UTF-8 and escapes included.
pub key-unquote :
    (text : Bytes) (t : StringToken) → string_from zero text ≡ some t → key t ≡ unquote t.body
unfolding key unquote valid_utf8
key-unquote text t e = elim (Bool-cases (not t.escaped && valid_utf8 t.body)) [
  | inl k ↦
      let plain : Lacks backslash t.body =
        subst Unescaped e (string-Unescaped text) (ground (arith, k)) in
      rw k (sym (unquote_from-plain (length t.body) t.body plain (ground (arith, k))))
  | inr k ↦ rw k refl
]
