-- ===== src/SignatureName/Make.antt =====
-- cert/signature-name.c: what `make_signature_name_length` writes.
use afb_app_manager.Base.{
  ℕ, zero, suc, ◌+◌, ◌-◌, ◌≤◌, [], ◌∷◌, ◌++◌, Bytes, length, length-append, take, take_all,
  take-append_le, leb, ltb, if◌then◌else◌, ◌≡◌, refl, ap, sym, arith, Bool-cases, inl, inr,
}
use native.Mathlib.Numerals.{unary_clauses}
use afb_app_manager.SignatureName.{
  signature_prefix, signature_extension, copy, make_signature_name, Buffer,
}

-- The whole name.
abbrev pub signature_name : Bytes → Bytes
signature_name name = signature_prefix ++ (name ++ signature_extension)

-- The buffer holds the start of the text, as far as it has room.
record Holds (size : ℕ) (t : Bytes) (r : ℕ × Buffer) : Type 0 where
  pub position : r.0 ≡ length t
  pub start : r.1 ≡ take size t

take-append_ge :
    (size : ℕ) (t u : Bytes) → length t ≤ size → take size (t ++ u) ≡ t ++ take (size - length t) u
take-append_ge size [] u h = simp unary_clauses
take-append_ge zero (c ∷ cs) u h = absurd (omega arith)
take-append_ge (suc size) (c ∷ cs) u h =
    let e : suc size - suc (length cs) ≡ size - length cs = omega arith in
    rw e (ap (◌∷◌ c) (take-append_ge size cs u (omega arith)))

copy-Holds :
    (size : ℕ) (t value : Bytes) (r : ℕ × Buffer)
    → Holds size t r
    → Holds size (t ++ value) (copy r.1 r.0 size value)
unfolding copy
copy-Holds size t value (pos, buffer) h = record {
  position = omega (arith, h.position, length-append t value);
  start = elim (Bool-cases (ltb pos size)) [
    | inl room ↦ elim (Bool-cases (leb (pos + length value) size)) [
      | inl fits ↦
          rw (room, fits, h.start, take_all size t (ground (arith, h.position)))
            (sym (take_all size (t ++ value) (ground (arith, h.position, length-append t value))))
      | inr cut ↦
          rw (room, cut, h.start, take_all size t (ground (arith, h.position)), h.position)
            (sym (take-append_ge size t value (ground (arith, h.position))))
    ]
    | inr full ↦ rw (full, h.start) (sym (take-append_le size t value (ground (arith, h.position))))
  ];
}

-- The 0 behind the text.
end-Holds :
    (size : ℕ) (t : Bytes) (r : ℕ × Buffer)
    → Holds size t r
    → (if ltb r.0 size then r.1 ++ 0 ∷ [] else r.1) ≡ take size (t ++ 0 ∷ [])
end-Holds size t (pos, buffer) h = elim (Bool-cases (ltb pos size)) [
  | inl room ↦
      rw (room, h.start, take_all size t (ground (arith, h.position)))
        (sym (take_all size (t ++ 0 ∷ []) (ground (arith, h.position, length-append t (0 ∷ [])))))
  | inr full ↦
      rw (full, h.start) (sym (take-append_le size t (0 ∷ []) (ground (arith, h.position))))
]

-- The number returned is the length of the whole name, and the buffer holds the name and the 0
-- behind it as far as they fit: no byte is written outside it.
pub make_signature_name_lem :
    (name : Bytes) (size : ℕ)
    → ((make_signature_name name size).0 ≡ length (signature_name name))
      × ((make_signature_name name size).1 ≡ take size (signature_name name ++ 0 ∷ []))
unfolding make_signature_name
make_signature_name_lem name size =
    let empty : Holds size [] (0, []) = record {
      position = refl;
      start = sym (take_all size [] (omega arith));
    } in
    let first = copy-Holds size [] signature_prefix (0, []) empty in
    let second = copy-Holds size signature_prefix name _ first in
    let whole = copy-Holds size (signature_prefix ++ name) signature_extension _ second in
    (whole.position, end-Holds size _ _ whole)
