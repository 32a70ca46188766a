-- ===== src/Examples/Paths.antt =====
-- Two descriptions of one unit.
use afb_app_manager.Base.{none, some, [], Bytes, codes, ◌≡◌, refl}
use afb_app_manager.UnitProcess.Corpus.{UnitDesc, scope_user, type_service}
use afb_app_manager.UnitPath.{unit_desc_check, units_fs_get_afm_unit_path}
use afb_app_manager.UnitPath.Distinct.{unit_desc_get_path_lem}

abbrev described : Bytes → UnitDesc
described content = record {
  scope = scope_user;
  type = type_service;
  name = some (codes "a");
  name_length = 1;
  content = content;
  content_length = 0;
  wanted_by = none;
  wanted_by_length = 0;
}

unit_desc_get_path_lem_example :
    (scope_user ≡ scope_user) × (codes "a" ≡ codes "a") × (type_service ≡ type_service)
unfolding unit_desc_check units_fs_get_afm_unit_path
unit_desc_get_path_lem_example =
    unit_desc_get_path_lem (codes "/units") (described []) (described (codes "x")) 4096 100
      (codes "/units/user/a.service") refl refl refl refl
