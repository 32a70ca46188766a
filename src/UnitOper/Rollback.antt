-- ===== src/UnitOper/Rollback.antt =====
-- afmpkg/afmpkg-std.c: an installation of units that fails leaves no file of theirs.
use afb_app_manager.Base.{
  Bool, true, false, Option, none, some, List, [], ◌∷◌, Bytes, ℤ, pos, is_neg, All, if◌then◌else◌,
  ◌≡◌, refl, arith, Bool-cases, inl, inr, ◌⊎◌,
}
use afb_app_manager.UnitProcess.Corpus.{UnitDesc}
use afb_app_manager.UnitPath.{
  Printed, unit_desc_check, unit_desc_get_path, unit_desc_get_wants_path, unit_desc_get_service,
  is_user,
}
use afb_app_manager.UnitOper.{
  System, path_max, is_zero, on_path, unit_oper_stop, uninstall_wanted, unit_oper_uninstall,
  unit_oper_check_files, do_uninstall_units, check_units, put_units, install_units,
}

-- An unlink that returns 0 leaves no file at its path; no unlink, failing or not, and no stop makes one.
pub record IsTidy {ℓ} {S : Type ℓ} (system : System S) : Type ℓ where
  pub removed :
      (s : S) (p : Bytes)
      → is_zero (system.unlink s p).0 ≡ true
      → system.access (system.unlink s p).1 p ≡ false
  pub kept :
      (s : S) (p q : Bytes)
      → system.access s q ≡ false
      → system.access (system.unlink s p).1 q ≡ false
  pub stopped :
      (s : S) (b : Bool) (t q : Bytes)
      → system.access s q ≡ false
      → system.access (system.stop s b t).1 q ≡ false

refused : (u : UnitDesc) → is_zero (unit_desc_check u) ≡ false → is_neg (unit_desc_check u) ≡ true
unfolding unit_desc_check
refused u e = ground (arith, e)

module _ {ℓ} {S : Type ℓ} (system : System S) (root : Bytes) (tidy : IsTidy system) where
  on_path-kept :
      (o : Printed) (s : S) (next : Bytes → ℤ × S) (q : Bytes)
      → system.access s q ≡ false
      → ((p : Bytes) → system.access (next p).1 q ≡ false)
      → system.access (on_path o s next).1 q ≡ false
  on_path-kept none s next q h k = h
  on_path-kept (some p) s next q h k = k p

  wanted-kept :
      (u : UnitDesc) (w : Option Bytes) (rc : ℤ) (s : S) (q : Bytes)
      → system.access s q ≡ false
      → system.access (uninstall_wanted system root u w (rc, s)).1 q ≡ false
  wanted-kept u none rc s q h = h
  wanted-kept u (some w) rc s q h =
      on_path-kept (unit_desc_get_wants_path root u path_max) s (λ p. system.unlink s p) q h
        (λ p. tidy.kept s p q h)

  stop-kept :
      (s : S) (u : UnitDesc) (q : Bytes)
      → system.access s q ≡ false
      → system.access (unit_oper_stop system root s u).1 q ≡ false
  unfolding unit_oper_stop
  stop-kept s u q h =
      on_path-kept (unit_desc_get_service u 4097) s (λ t. system.stop s (is_user u.scope) t) q h
        (λ t. tidy.stopped s (is_user u.scope) t q h)

  uninstall-kept :
      (s : S) (u : UnitDesc) (q : Bytes)
      → system.access s q ≡ false
      → system.access (unit_oper_uninstall system root s u).1 q ≡ false
  unfolding unit_oper_uninstall
  uninstall-kept s u q h =
      let s1 = (unit_oper_stop system root s u).1 in
      let k = stop-kept s u q h in
      let removed = on_path (unit_desc_get_path root u path_max) s1 (λ p. system.unlink s1 p) in
      let g =
        on_path-kept (unit_desc_get_path root u path_max) s1 (λ p. system.unlink s1 p) q k
          (λ p. tidy.kept s1 p q k) in
      elim (Bool-cases (is_zero (unit_desc_check u))) [
        | inl e ↦ rw e (wanted-kept u u.wanted_by removed.0 removed.1 q g)
        | inr e ↦ rw e h
      ]

  -- The state in which a removal of the unit unlinks its file.
  abbrev pub stopped_state : S → UnitDesc → S
  stopped_state s u = (unit_oper_stop system root s u).1

  uninstall-gone :
      (s : S) (u : UnitDesc) (q : Bytes)
      → is_zero (unit_desc_check u) ≡ true
      → unit_desc_get_path root u path_max ≡ some q
      → is_zero (system.unlink (stopped_state s u) q).0 ≡ true
      → system.access (unit_oper_uninstall system root s u).1 q ≡ false
  unfolding unit_oper_uninstall
  uninstall-gone s u q v e z =
      let s1 = stopped_state s u in
      rw (v, e)
        (wanted-kept u u.wanted_by (system.unlink s1 q).0 (system.unlink s1 q).1 q
          (tidy.removed s1 q z))

  -- No file of the unit is left in `final`, or the unlink of it failed, in the removal that began in `s`.
  abbrev pub IsUndone : S → S → UnitDesc → Type 0
  IsUndone s final u =
      (q : Bytes)
      → unit_desc_get_path root u path_max ≡ some q
      → (system.access final q ≡ false) ⊎ (is_zero (system.unlink (stopped_state s u) q).0 ≡ false)

  -- That of each unit, in the removals that begin in `s`, one after the other.
  abbrev pub AreUndone : S → S → List UnitDesc → Type 0
  AreUndone s final [] = Unit
  AreUndone s final (u ∷ us) =
      IsUndone s final u × AreUndone (unit_oper_uninstall system root s u).1 final us

  units-kept :
      (us : List UnitDesc) (rc : ℤ) (s : S) (q : Bytes)
      → system.access s q ≡ false
      → system.access (do_uninstall_units system root rc s us).1 q ≡ false
  unfolding do_uninstall_units
  units-kept [] rc s q h = h
  units-kept (u ∷ us) rc s q h =
      let (rc2, s2) = unit_oper_uninstall system root s u in
      units-kept us (if is_neg rc2 then rc2 else rc) s2 q (uninstall-kept s u q h)

  abbrev Accepted : List UnitDesc → Type 0
  Accepted = All (λ u. is_zero (unit_desc_check u) ≡ true)

  -- The states in turn; a unit that is gone stays gone.
  units-AreUndone :
      (us : List UnitDesc) (rc : ℤ) (s : S)
      → Accepted us
      → AreUndone s (do_uninstall_units system root rc s us).1 us
  unfolding do_uninstall_units
  units-AreUndone [] rc s v = tt
  units-AreUndone (u ∷ us) rc s v =
      let (rc2, s2) = unit_oper_uninstall system root s u in
      let rc' = if is_neg rc2 then rc2 else rc in
      (
        (λ q e. elim (Bool-cases (is_zero (system.unlink (stopped_state s u) q).0)) [
          | inl z ↦ inl (units-kept us rc' s2 q (uninstall-gone s u q v.0 e z))
          | inr z ↦ inr z
        ]),
        units-AreUndone us rc' s2 v.1,
      )

  check_units-Accepted :
      (us : List UnitDesc) (s : S) → is_neg (check_units system root s us) ≡ false → Accepted us
  unfolding check_units unit_oper_check_files
  check_units-Accepted [] s h = tt
  check_units-Accepted (u ∷ us) s h =
      let rest : is_neg (check_units system root s us) ≡ false = ground (arith, h) in
      elim (Bool-cases (is_zero (unit_desc_check u))) [
        | inl e ↦ (e, check_units-Accepted us s rest)
        | inr e ↦
            let n = refused u e in
            absurd (ground (arith, rw (check_units, unit_oper_check_files, e) at h, n))
      ]

  -- Where an unlink that returns 0 leaves no file at its path, and neither an unlink, failing or not, nor a
  -- stop makes one, an installation of units that fails either has changed nothing, or, of each unit, leaves
  -- no file, unless the unlink that the rollback called on that file failed.
  pub install_units-AreUndone :
      (us : List UnitDesc) (s : S)
      → is_neg (install_units system root s us).0 ≡ true
      → ((install_units system root s us).1 ≡ s)
        ⊎ AreUndone (put_units system root s us).1 (install_units system root s us).1 us
  unfolding install_units
  install_units-AreUndone us s h = elim (Bool-cases (is_neg (check_units system root s us))) [
    | inl e ↦ inl (rw e refl)
    | inr e ↦ elim (Bool-cases (is_neg (put_units system root s us).0)) [
      | inl f ↦ inr (
          rw (e, f)
            (units-AreUndone us (pos 0) (put_units system root s us).1
              (check_units-Accepted us s e)))
      | inr f ↦ absurd (ground (arith, rw (e, f) at h))
    ]
  ]
