-- ===== src/UnitOper.antt =====
-- utils/unit-oper.c: the files of a unit are installed and removed; afmpkg/afmpkg-std.c: those of all the
-- units of a package.
pub mod Rollback
use afb_app_manager.Base.{
  ℕ, suc, Bool, true, false, not, ◌&&◌, Option, none, some, List, [], ◌∷◌, Bytes, ℤ, pos, neg,
  is_neg, ◌==◌, if◌then◌else◌,
}
use afb_app_manager.UnitProcess.Corpus.{UnitDesc, Scope}
use afb_app_manager.UnitPath.{
  Printed, unit_desc_check, unit_desc_get_path, unit_desc_get_wants_path,
  unit_desc_get_wants_target, unit_desc_get_service, is_user,
}

abbrev pub path_max : ℕ
path_max = 4096

-- What the code calls on the files and on systemd: `put` is rp_file_put, `access` tells whether the call
-- returns 0, and `stop` is systemd_list_unit_pattern with `stop_that_unit_cb`.
pub record System {ℓ} (S : Type ℓ) : Type ℓ where
  pub put : S → Bytes → Bytes → ℤ × S
  pub unlink : S → Bytes → ℤ × S
  pub symlink : S → Bytes → Bytes → ℤ × S
  pub access : S → Bytes → Bool
  pub stop : S → Bool → Bytes → ℤ × S

abbrev pub is_zero : ℤ → Bool
is_zero (pos n) = n == 0
is_zero _ = false

-- A failure of the code on a path.
abbrev pub on_path {ℓ} : {S : Type ℓ} → Printed → S → (Bytes → ℤ × S) → ℤ × S
on_path none s next = (neg 1, s)
on_path (some path) s next = next path

module _ {ℓ} {S : Type ℓ} (system : System S) (root : Bytes) where
  unfoldable pub unit_oper_stop : S → UnitDesc → ℤ × S
  unit_oper_stop s unit =
      on_path (unit_desc_get_service unit (suc path_max)) s
        (λ serv. system.stop s (is_user unit.scope) serv)

  -- The end of `unit_oper_uninstall`, behind the code of the unit's own file.
  abbrev pub uninstall_wanted : UnitDesc → Option Bytes → ℤ × S → ℤ × S
  uninstall_wanted unit none (rc, s) = (rc, s)
  uninstall_wanted unit (some wanted_by) (rc, s) =
      let (rc2, s2) =
        on_path (unit_desc_get_wants_path root unit path_max) s (λ path. system.unlink s path) in
      ((if is_neg rc2 && is_zero rc then rc2 else rc), s2)

  unfoldable pub unit_oper_uninstall : S → UnitDesc → ℤ × S
  unit_oper_uninstall s unit =
      let (rc1, s1) = unit_oper_stop s unit in
      let removed =
        on_path (unit_desc_get_path root unit path_max) s1 (λ path. system.unlink s1 path) in
      if is_zero (unit_desc_check unit)
      then uninstall_wanted unit unit.wanted_by removed
      else (unit_desc_check unit, s)

  -- The link of a unit that is wanted by another one; what stands in its place is removed.
  abbrev pub install_wanted : UnitDesc → S → ℤ × S
  install_wanted unit s = on_path (unit_desc_get_wants_path root unit (suc path_max)) s (λ path.
      on_path (unit_desc_get_wants_target unit (suc path_max)) s
        (λ target. let (rc, s1) = system.unlink s path in system.symlink s1 target path))

  abbrev pub when_wanted : UnitDesc → Option Bytes → ℤ × S → ℤ × S
  when_wanted unit none (rc, s) = (rc, s)
  when_wanted unit (some wanted_by) (rc, s) = if is_neg rc then (rc, s) else install_wanted unit s

  unfoldable pub unit_oper_install : S → UnitDesc → ℤ × S
  unit_oper_install s unit =
      if is_zero (unit_desc_check unit)
      then on_path (unit_desc_get_path root unit (suc path_max)) s
          (λ path. when_wanted unit unit.wanted_by (system.put s path unit.content))
      else (unit_desc_check unit, s)

  -- `check_file`
  abbrev pub check_file : S → Bool → Bytes → ℤ
  check_file s should_exist path =
      let here = system.access s path in
      if should_exist then (if here then pos 0 else neg 1) else if here then neg 1 else pos 0

  abbrev pub check_path : S → Bool → Printed → ℤ
  check_path s should_exist none = neg 1
  check_path s should_exist (some path) = check_file s should_exist path

  abbrev pub check_wanted : S → Bool → UnitDesc → Option Bytes → ℤ → ℤ
  check_wanted s should_exist unit none rc = rc
  check_wanted s should_exist unit (some wanted_by) rc =
      let rc2 = check_path s should_exist (unit_desc_get_wants_path root unit path_max) in
      if is_neg rc2 then rc2 else rc

  unfoldable pub unit_oper_check_files : S → UnitDesc → Bool → ℤ
  unit_oper_check_files s unit should_exist =
      let rc = check_path s should_exist (unit_desc_get_path root unit path_max) in
      if is_zero (unit_desc_check unit)
      then check_wanted s should_exist unit unit.wanted_by rc
      else unit_desc_check unit

  -- The loop of `do_uninstall_units`: the last error is the one that is kept.
  unfoldable pub do_uninstall_units : ℤ → S → List UnitDesc → ℤ × S
  do_uninstall_units rc s [] = (rc, s)
  do_uninstall_units rc s (u ∷ us) =
      let (rc2, s2) = unit_oper_uninstall s u in
      do_uninstall_units (if is_neg rc2 then rc2 else rc) s2 us

  -- The first code that is negative, or 0.
  unfoldable pub check_units : S → List UnitDesc → ℤ
  check_units s [] = pos 0
  check_units s (u ∷ us) =
      let rc = unit_oper_check_files s u false in
      let rest = check_units s us in if is_neg rc then rc else rest

  unfoldable pub put_units : S → List UnitDesc → ℤ × S
  put_units s [] = (pos 0, s)
  put_units s (u ∷ us) =
      let (rc, s1) = unit_oper_install s u in
      let rest = put_units s1 us in if is_neg rc then (rc, s1) else rest

  unfoldable pub install_units : S → List UnitDesc → ℤ × S
  install_units s us =
      let (rc, s1) = put_units s us in
      let (rc2, s2) = do_uninstall_units (pos 0) s1 us in
      if is_neg (check_units s us)
      then (check_units s us, s)
      else if is_neg rc
      then (rc, s2)
      else (pos 0, s1)
