-- ===== src/Request/Number/Printed.antt =====
-- A printed number is read back.
use afb_app_manager.Base.{
  ℕ, zero, suc, ◌+◌, ◌-◌, ◌*◌, ◌/◌, ◌%◌, ◌≤◌, ◌<◌, true, false, some, [], ◌∷◌, Bytes, digits_onto,
  ◌≡◌, refl, ◌∙◌, arith, ◌==◌, if◌then◌else◌, Bool-cases, inl, inr,
}
use afb_app_manager.Request.Number.{
  uint_max, is_digit, is_space, skip_space, digits, signed, clamp, strtol, number_of,
}

-- The power of 10.
abbrev pub tens : ℕ → ℕ
tens zero = 1
tens (suc k) = 10 * tens k

digits_onto_step :
    (fuel n : ℕ) (out : Bytes)
    → digits_onto (suc fuel) n out ≡ (
        if n / 10 == 0
        then (b'0' + n % 10) ∷ out
        else digits_onto fuel (n / 10) ((b'0' + n % 10) ∷ out))
unfolding digits_onto
digits_onto_step fuel n out = refl

digits_one :
    (a d : ℕ) (out : Bytes) → d < 10 → digits a ((b'0' + d) ∷ out) ≡ digits (a * 10 + d) out
unfolding digits
digits_one a d out h =
    let e : b'0' + d - b'0' ≡ d = omega arith in
    let t : is_digit (b'0' + d) ≡ true = ground arith in rw (t, e) refl

digits-digits_onto :
    (fuel n : ℕ) (out : Bytes)
    → n < tens (suc fuel)
    → digits 0 (digits_onto (suc fuel) n out) ≡ digits n out
digits-digits_onto zero n out h =
    let z : (n / 10 == 0) ≡ true = ground arith in
    let e : 0 * 10 + n % 10 ≡ n = ground arith in
    rw (digits_onto_step zero n out) (rw z (digits_one 0 (n % 10) out (omega arith) ∙ rw e refl))
digits-digits_onto (suc fuel) n out h =
    rw (digits_onto_step (suc fuel) n out) (elim (Bool-cases (n / 10 == 0)) [
      | inl z ↦
          let e : 0 * 10 + n % 10 ≡ n = ground (arith, z) in
          rw z (digits_one 0 (n % 10) out (omega arith) ∙ rw e refl)
      | inr z ↦
          let e : n / 10 * 10 + n % 10 ≡ n = omega arith in
          rw z (
            digits-digits_onto fuel (n / 10) ((b'0' + n % 10) ∷ out) (omega (arith, h))
            ∙ digits_one (n / 10) (n % 10) out (omega arith)
            ∙ rw e refl)
    ])

first_digit :
    (fuel n : ℕ) (out : Bytes)
    → (c : ℕ) × (cs : Bytes) × (digits_onto (suc fuel) n out ≡ c ∷ cs) × (is_digit c ≡ true)
first_digit zero n out = (
  b'0' + n % 10,
  out,
  digits_onto_step zero n out ∙ unfold digits_onto in ground arith,
  ground arith,
)
first_digit (suc fuel) n out = elim (Bool-cases (n / 10 == 0)) [
  | inl z ↦ (b'0' + n % 10, out, digits_onto_step (suc fuel) n out ∙ rw z refl, ground arith)
  | inr z ↦
      let (c, cs, e, d) = first_digit fuel (n / 10) ((b'0' + n % 10) ∷ out) in
      (c, cs, digits_onto_step (suc fuel) n out ∙ rw z e, d)
]

strtol_digit :
    (c : ℕ) (cs : Bytes)
    → is_digit c ≡ true
    → strtol (c ∷ cs) ≡ (clamp false (digits 0 (c ∷ cs)).0, (digits 0 (c ∷ cs)).1)
unfolding strtol skip_space signed
strtol_digit c cs h =
    let sp : is_space c ≡ false = ground arith in
    let mi : (c == b'-') ≡ false = ground arith in
    let pl : (c == b'+') ≡ false = ground arith in rw sp (rw (mi, pl) (rw h refl))

pub number_of-digits_onto :
    (fuel n : ℕ)
    → n < tens (suc fuel)
    → 1 ≤ n
    → n ≤ uint_max
    → (number_of (strtol (digits_onto (suc fuel) n [])).0 ≡ some n)
      × ((strtol (digits_onto (suc fuel) n [])).1 ≡ [])
unfolding number_of clamp digits
number_of-digits_onto fuel n h l u =
    let (c, cs, e, d) = first_digit fuel n [] in
    let back : digits 0 (c ∷ cs) ≡ (n, []) = rw e at (digits-digits_onto fuel n [] h) in
    rw (e, strtol_digit c cs d, back) (ground arith)
