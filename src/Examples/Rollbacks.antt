-- ===== src/Examples/Rollbacks.antt =====
-- A unit whose link cannot be made.
use afb_app_manager.Base.{
  Bool, true, false, ◌||◌, some, [], ◌∷◌, Bytes, codes, equal, equal_refl, pos, neg, is_neg,
  if◌then◌else◌, ◌≡◌, refl, ◌⊎◌, arith,
}
use afb_app_manager.UnitProcess.Corpus.{UnitDesc, scope_user, type_service}
use afb_app_manager.UnitPath.{
  unit_desc_check, units_fs_get_afm_unit_path, units_fs_get_afm_wants_unit_path,
  units_fs_get_wants_target,
}
use afb_app_manager.UnitOper.{
  System, install_units, check_units, put_units, unit_oper_check_files, unit_oper_install,
}
use afb_app_manager.UnitOper.Rollback.{IsTidy, AreUndone, install_units-AreUndone}

-- The paths at which there is a file.
abbrev Files : Type 0
Files = Bytes → Bool

abbrev system : System Files
system = record {
  put = λ s p content. (pos 0, λ q. equal p q || s q);
  unlink = λ s p. ((if s p then pos 0 else neg 1), λ q. if equal p q then false else s q);
  symlink = λ s target p. (neg 1, s);
  access = λ s p. s p;
  stop = λ s b t. (pos 0, s);
}

system-IsTidy : IsTidy system
system-IsTidy = record {
  removed = λ s p z. rw (equal_refl p) refl;
  kept = λ s p q h. ground (arith, h);
  stopped = λ s b t q h. h;
}

abbrev no_files : Files
no_files q = false

abbrev wanted : UnitDesc
wanted = record {
  scope = scope_user;
  type = type_service;
  name = some (codes "a");
  name_length = 1;
  content = codes "[Unit]";
  content_length = 6;
  wanted_by = some (codes "b");
  wanted_by_length = 1;
}

fails : is_neg (install_units system (codes "/u") no_files (wanted ∷ [])).0 ≡ true
unfolding install_units check_units put_units unit_oper_check_files unit_oper_install
    unit_desc_check units_fs_get_afm_unit_path units_fs_get_afm_wants_unit_path
    units_fs_get_wants_target
fails = refl

install_units-AreUndone_example :
    ((install_units system (codes "/u") no_files (wanted ∷ [])).1 ≡ no_files)
    ⊎ AreUndone system
        (codes "/u")
        system-IsTidy
        (put_units system (codes "/u") no_files (wanted ∷ [])).1
        (install_units system (codes "/u") no_files (wanted ∷ [])).1
        (wanted ∷ [])
install_units-AreUndone_example =
    install_units-AreUndone system (codes "/u") system-IsTidy (wanted ∷ []) no_files fails
