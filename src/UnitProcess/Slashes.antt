-- ===== src/UnitProcess/Slashes.antt =====
-- units/unit-process.c: `dedup_slashes` writes over the text that it reads.
use afb_app_manager.Base.{
  ℕ, ◌+◌, ◌≤◌, true, false, Option, none, some, [], ◌∷◌, Bytes, length, ltb, leb, ◌==◌, ◌≡◌, refl,
  ◌∙◌, ap, sym, arith, Bool-cases, inl, inr, ◌⊎◌,
}
use afb_app_manager.UnitProcess.{
  dedup_step, dedup_from, dedup_slashes, allowed_slashes, slashes_left,
}

dedup_from_emits :
    (n : ℕ) (row : Option ℕ) (w : Bytes) (c : ℕ) (cs : Bytes)
    → (dedup_step n row w c).0 ≡ true
    → dedup_from n row w (c ∷ cs)
      ≡ c ∷ dedup_from (dedup_step n row w c).1 (dedup_step n row w c).2 (c ∷ w) cs
unfolding dedup_from
dedup_from_emits n row w c cs e = rw e refl

dedup_from_skips :
    (n : ℕ) (row : Option ℕ) (w : Bytes) (c : ℕ) (cs : Bytes)
    → (dedup_step n row w c).0 ≡ false
    → dedup_from n row w (c ∷ cs)
      ≡ dedup_from (dedup_step n row w c).1 (dedup_step n row w c).2 w cs
unfolding dedup_from
dedup_from_skips n row w c cs e = rw e refl

length-dedup_from :
    (nrnl : ℕ) (row : Option ℕ) (written t : Bytes)
    → length (dedup_from nrnl row written t) ≤ length t
unfolding dedup_from
length-dedup_from nrnl row written [] = omega arith
length-dedup_from nrnl row written (c ∷ cs) =
    let (emits, nrnl', row') = dedup_step nrnl row written c in
    elim (Bool-cases ((dedup_step nrnl row written c).0)) [
      | inl e ↦ rw (dedup_from, e) (omega (arith, length-dedup_from nrnl' row' (c ∷ written) cs))
      | inr e ↦ rw (dedup_from, e) (omega (arith, length-dedup_from nrnl' row' written cs))
    ]

-- The text that is written never overtakes the one that is read: it is no longer.
pub length-dedup_slashes : (t : Bytes) → length (dedup_slashes t) ≤ length t
length-dedup_slashes t = length-dedup_from 1 none [] t

-- Counts of newlines that `dedup_from` treats alike, and no row of slashes behind a newline.
abbrev Alike : ℕ → ℕ → Option ℕ → Type 0
Alike a b row = ((a ≡ b) ⊎ ((1 ≤ a) × (1 ≤ b))) × (1 ≤ a → row ≡ none)

emits-Alike :
    (a b : ℕ) (row : Option ℕ) (w : Bytes) (c : ℕ)
    → Alike a b row
    → (dedup_step a row w c).0 ≡ true
    → (b' : ℕ) × (dedup_step b row w c ≡ (true, b', (dedup_step a row w c).2))
      × Alike (dedup_step a row w c).1 b' (dedup_step a row w c).2
emits-Alike a b row w c h e = elim (Bool-cases (c == b'\n')) [
  | inl nl ↦
      let a0 : a ≡ 0 = ground (arith, rw nl at e) in
      let b0 : b ≡ 0 = elim (h.0) [
        | inl x ↦ omega (arith, x, a0)
        | inr (x, y) ↦ absurd (omega (arith, x, a0))
      ] in
      let t : leb (b + 1) 1 ≡ true = ground (arith, b0) in
      (b + 1, rw (nl, t) refl, rw nl (inr (omega arith, omega arith), λ x. refl))
  | inr plain ↦ elim (Bool-cases (c == b'/')) [
    | inr other ↦
        (0, rw (plain, other) refl, rw (plain, other) (inl refl, λ x. absurd (omega (arith, x))))
    | inl slash ↦
        let l : ltb 0 (slashes_left row w) ≡ true = rw (plain, slash) at e in
        (0, rw (plain, slash, l) refl, rw (plain, slash) (inl refl, λ x. absurd (omega (arith, x))))
  ]
]

allowed_slashes_pos : (w : Bytes) → ltb 0 (allowed_slashes w) ≡ true
allowed_slashes_pos w = ground arith

-- A row of slashes that is written no further has its count, 0.
ended : (row : Option ℕ) (w : Bytes) → ltb 0 (slashes_left row w) ≡ false → row ≡ some 0
ended none w e = absurd (ground (arith, allowed_slashes_pos w, e))
ended (some n) w e = ap some (ground (arith, e))

skips-Alike :
    (a b : ℕ) (row : Option ℕ) (w : Bytes) (c : ℕ)
    → Alike a b row
    → (dedup_step a row w c).0 ≡ false
    → ((dedup_step a row w c).2 ≡ row) × Alike (dedup_step a row w c).1 b row
skips-Alike a b row w c h e = elim (Bool-cases (c == b'\n')) [
  | inl nl ↦
      let one : 1 ≤ a = ground (arith, rw nl at e) in
      let both : (1 ≤ a + 1) × (1 ≤ b) = elim (h.0) [
        | inl x ↦ (omega arith, omega (arith, x, one))
        | inr (x, y) ↦ (omega arith, y)
      ] in
      rw nl (sym (h.1 one), (inr both, λ x. h.1 one))
  | inr plain ↦ elim (Bool-cases (c == b'/')) [
    | inr other ↦ absurd (ground (arith, rw (plain, other) at e))
    | inl slash ↦
        let l : ltb 0 (slashes_left row w) ≡ false = rw (plain, slash) at e in
        let r = ended row w l in
        let a0 : a ≡ 0 = ground (arith, h.1, r) in
        let b0 : b ≡ 0 = elim (h.0) [
          | inl x ↦ omega (arith, x, a0)
          | inr (x, y) ↦ absurd (omega (arith, x, a0))
        ] in
        rw (plain, slash) (rw r refl, (inl (sym b0), λ x. absurd (omega (arith, x))))
  ]
]

dedup_from_again :
    (a b : ℕ) (row : Option ℕ) (written t : Bytes)
    → Alike a b row
    → dedup_from b row written (dedup_from a row written t) ≡ dedup_from a row written t
dedup_from_again a b row written [] h = unfold dedup_from in refl
dedup_from_again a b row written (c ∷ cs) h =
    let (emits, a', row') = dedup_step a row written c in
    elim (Bool-cases ((dedup_step a row written c).0)) [
      | inl e ↦
          let (b', s, h') = emits-Alike a b row written c h e in
          let again =
            rw s at (
              dedup_from_emits b row written c (dedup_from a' row' (c ∷ written) cs) (rw s refl)) in
          rw (dedup_from_emits a row written c cs e)
            (again ∙ ap (◌∷◌ c) (dedup_from_again a' b' row' (c ∷ written) cs h'))
      | inr e ↦
          let (r, h') = skips-Alike a b row written c h e in
          rw (dedup_from_skips a row written c cs e, r) (dedup_from_again a' b row written cs h')
    ]

-- A second time changes nothing.
dedup_slashes_again : (t : Bytes) → dedup_slashes (dedup_slashes t) ≡ dedup_slashes t
dedup_slashes_again t = dedup_from_again 1 1 none [] t (inl refl, λ _. refl)
