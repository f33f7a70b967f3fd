-- ===== src/ControlPlaneApi/Mux/Escapes.antt =====
-- The decoded path is the decoded segments of the escaped path.
use cloud_native_service_con.Base.{
  Bool-cases, List, [], ap, arith, false, inl, inr, refl, some, sym, ℕ, ◌*◌, ◌+◌, ◌==◌, ◌∙◌, ◌∷◌,
  ◌≡◌, ◌≢◌, ==_iff, Option, map, none,
}
use cloud_native_service_con.Text.{Str}
use cloud_native_service_con.Text.Hex.{hex_value}
use cloud_native_service_con.ControlPlaneApi.Mux.{
  split_slash, cons_byte, escape_byte, join_slash, path_unescape, push_byte, segment,
}

-- Decoding the segments one by one and joining them.
abbrev pub decoded : List Str → Str
decoded segs = join_slash (map segment segs)

-- Each text decodes to its partner.
abbrev Unescapes : List Str → List Str → Type 0
Unescapes [] [] = Unit
Unescapes (s ∷ ss) (q ∷ qs) = (path_unescape s ≡ some q) × Unescapes ss qs
Unescapes _ _ = ⊥

-- The segments of `s` decode, and joined they are `p`.
record Parts (s p : Str) : Type 0 where
  first : Str
  rest : List Str
  unescapes : Unescapes (split_slash s) (first ∷ rest)
  joined : p ≡ join_slash (first ∷ rest)

plain_step :
    (c : ℕ) (s q : Str) → c ≢ b'%' → path_unescape s ≡ some q → path_unescape (c ∷ s) ≡ some (c ∷ q)
unfolding path_unescape
plain_step c [] q plain h = ground arith
plain_step c (a ∷ []) q plain h = ground arith
plain_step c (a ∷ b ∷ s) q plain h = rw (h, cons_byte) (ground arith)

escape_step :
    (a b v w : ℕ) (s q : Str)
    → hex_value a ≡ some v
    → hex_value b ≡ some w
    → path_unescape s ≡ some q
    → path_unescape (b'%' ∷ a ∷ b ∷ s) ≡ some ((v * 16 + w) ∷ q)
unfolding path_unescape
escape_step a b v w s q ha hb h = rw (ha, hb, h, escape_byte) refl

push_byte-Unescapes :
    (c : ℕ) (segs : List Str) (first : Str) (rest : List Str) (c' : ℕ)
    → ((seg q : Str) → path_unescape seg ≡ some q → path_unescape (c ∷ seg) ≡ some (c' ∷ q))
    → Unescapes segs (first ∷ rest)
    → Unescapes (push_byte c segs) ((c' ∷ first) ∷ rest)
unfolding push_byte
push_byte-Unescapes c [] first rest c' step h = elim h [ ]
push_byte-Unescapes c (seg ∷ segs) first rest c' step (u, us) = (step seg first u, us)

join_slash-cons :
    (c : ℕ) (first : Str) (rest : List Str)
    → join_slash ((c ∷ first) ∷ rest) ≡ c ∷ join_slash (first ∷ rest)
unfolding join_slash
join_slash-cons c first [] = refl
join_slash-cons c first (r ∷ rs) = refl

plain-Parts : (c : ℕ) (s q : Str) → c ≢ b'%' → Parts s q → Parts (c ∷ s) (c ∷ q)
unfolding split_slash
plain-Parts c s q plain parts = elim (Bool-cases (c == b'/')) [
  | inl slash ↦ record {
    first = [];
    rest = parts.first ∷ parts.rest;
    unescapes = rw slash (unfold path_unescape in refl, parts.unescapes);
    joined = unfold join_slash in ground (arith, parts.joined);
  }
  | inr other ↦ record {
    first = c ∷ parts.first;
    rest = parts.rest;
    unescapes = rw other (
        push_byte-Unescapes c (split_slash s) parts.first parts.rest c
          (λ seg q' h. plain_step c seg q' plain h) parts.unescapes);
    joined = ap (λ (t : Str). c ∷ t) parts.joined ∙ sym (join_slash-cons c parts.first parts.rest);
  }
]

hex_value-slash : (c v : ℕ) → hex_value c ≡ some v → (c == b'/') ≡ false
unfolding hex_value
hex_value-slash c v h = ground arith

escape-Unescapes :
    (a b v w : ℕ) (segs : List Str) (first : Str) (rest : List Str)
    → hex_value a ≡ some v
    → hex_value b ≡ some w
    → Unescapes segs (first ∷ rest)
    → Unescapes (push_byte b'%' (push_byte a (push_byte b segs))) (((v * 16 + w) ∷ first) ∷ rest)
unfolding push_byte
escape-Unescapes a b v w [] first rest ha hb h = elim h [ ]
escape-Unescapes a b v w (seg ∷ segs) first rest ha hb (u, us) =
    (escape_step a b v w seg first ha hb u, us)

escape-Parts :
    (a b v w : ℕ) (s q : Str)
    → hex_value a ≡ some v
    → hex_value b ≡ some w
    → Parts s q
    → Parts (b'%' ∷ a ∷ b ∷ s) ((v * 16 + w) ∷ q)
unfolding split_slash
escape-Parts a b v w s q ha hb parts = record {
  first = (v * 16 + w) ∷ parts.first;
  rest = parts.rest;
  unescapes = rw (hex_value-slash a v ha) (
      rw (hex_value-slash b w hb)
        (escape-Unescapes a b v w (split_slash s) parts.first parts.rest ha hb parts.unescapes));
  joined =
      ap (λ (t : Str). (v * 16 + w) ∷ t) parts.joined
      ∙ sym (join_slash-cons (v * 16 + w) parts.first parts.rest);
}

unescape_plain :
    (c : ℕ) (s : Str) → (c == b'%') ≡ false → path_unescape (c ∷ s) ≡ cons_byte c (path_unescape s)
unfolding path_unescape
unescape_plain c [] h = rw h refl
unescape_plain c (a ∷ []) h = rw h refl
unescape_plain c (a ∷ b ∷ s) h = rw h refl

cons_byte_inv :
    (c : ℕ) (o : Option Str) (p : Str)
    → cons_byte c o ≡ some p
    → (q : Str) × (o ≡ some q) × (p ≡ c ∷ q)
unfolding cons_byte
cons_byte_inv c none p h = cc
cons_byte_inv c (some q) p h = (q, refl, cc)

escape_byte_inv :
    (x y : Option ℕ) (o : Option Str) (p : Str)
    → escape_byte x y o ≡ some p
    → (v : ℕ) × (w : ℕ) × (q : Str) × (x ≡ some v)
      × (y ≡ some w)
      × (o ≡ some q)
      × (p ≡ (v * 16 + w) ∷ q)
unfolding escape_byte
escape_byte_inv none y o p h = cc
escape_byte_inv (some v) none o p h = cc
escape_byte_inv (some v) (some w) none p h = cc
escape_byte_inv (some v) (some w) (some q) p h = (v, w, q, refl, refl, refl, cc)

plain_case :
    (c : ℕ) (s p : Str)
    → (c == b'%') ≡ false
    → ((q : Str) → path_unescape s ≡ some q → Parts s q)
    → path_unescape (c ∷ s) ≡ some p
    → Parts (c ∷ s) p
plain_case c s p plain ih h =
    let (q, rest, same) =
      cons_byte_inv c (path_unescape s) p (sym (unescape_plain c s plain) ∙ h) in
    rw same (plain-Parts c s q (λ e. cc ((==_iff c b'%').1 e)) (ih q rest))

unescape-Parts : (s p : Str) → path_unescape s ≡ some p → Parts s p
unfolding path_unescape split_slash join_slash
unescape-Parts [] p h = record { first = []; rest = []; unescapes = (refl, tt); joined = cc }
unescape-Parts (c ∷ []) p h = elim (Bool-cases (c == b'%')) [
  | inl escaped ↦ cc (rw (escaped, path_unescape) at h)
  | inr plain ↦ plain_case c [] p plain (λ q e. unescape-Parts [] q e) h
]
unescape-Parts (c ∷ a ∷ []) p h = elim (Bool-cases (c == b'%')) [
  | inl escaped ↦ cc (rw (escaped, path_unescape) at h)
  | inr plain ↦ plain_case c (a ∷ []) p plain (λ q e. unescape-Parts (a ∷ []) q e) h
]
unescape-Parts (c ∷ a ∷ b ∷ s) p h = elim (Bool-cases (c == b'%')) [
  | inl escaped ↦
      let (v, w, q, ha, hb, rest, same) =
        escape_byte_inv (hex_value a) (hex_value b) (path_unescape s) p
          (rw (escaped, path_unescape) at h) in
      rw (same, (==_iff c b'%').0 escaped)
        (escape-Parts a b v w s q ha hb (unescape-Parts s q rest))
  | inr plain ↦ plain_case c (a ∷ b ∷ s) p plain (λ q e. unescape-Parts (a ∷ b ∷ s) q e) h
]

Unescapes-segments : (ss qs : List Str) → Unescapes ss qs → map segment ss ≡ qs
unfolding segment
Unescapes-segments [] [] h = refl
Unescapes-segments [] (q ∷ qs) h = elim h [ ]
Unescapes-segments (s ∷ ss) [] h = elim h [ ]
Unescapes-segments (s ∷ ss) (q ∷ qs) (u, us) =
    rw (u, segment) (ap (λ (l : List Str). q ∷ l) (Unescapes-segments ss qs us))

-- If a whole text can be decoded, decoding it segment by segment gives the same.
pub path_unescape-segments : (s p : Str) → path_unescape s ≡ some p → p ≡ decoded (split_slash s)
path_unescape-segments s p h =
    let parts = unescape-Parts s p h in
    parts.joined
    ∙ ap join_slash
        (sym (Unescapes-segments (split_slash s) (parts.first ∷ parts.rest) parts.unescapes))
