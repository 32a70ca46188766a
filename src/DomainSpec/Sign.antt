-- ===== src/DomainSpec/Sign.antt =====
-- utils/domain-spec.c: `is_domain_spec_able_to_sign`.
use afb_app_manager.Base.{◌<◌, true, [], ◌∷◌, ◌≡◌, refl, ◌↔◌, ◌⊎◌, arith, All, take-length}
use afb_app_manager.DomainSpec.{Domain, Spec, is_able_to_sign, permission_root}
use afb_app_manager.DomainSpec.Find.{permission_of}

-- What `auth` says of the domain is more than what is asked for, or is the root permission.
abbrev pub IsCovered : Spec → Domain → Type 0
IsCovered auth d =
    (d.permission < permission_of auth d.name) ⊎ (permission_of auth d.name ≡ permission_root)

-- `is_domain_spec_able_to_sign` says yes exactly where every domain of the target is covered: its
-- permission is strictly below the one that the authority has for it, or that one is root.
pub is_able_to_sign_iff :
    (auth target : Spec) → (is_able_to_sign auth target ≡ true) ↔ All (IsCovered auth) target
unfolding is_able_to_sign
is_able_to_sign_iff auth target = (sound target, complete target)
  where
    sound : (ds : Spec) → is_able_to_sign auth ds ≡ true → All (IsCovered auth) ds
    sound [] h = tt
    sound (d ∷ ds) h = (ground (arith, take-length d.name), sound ds (ground arith))

    complete : (ds : Spec) → All (IsCovered auth) ds → is_able_to_sign auth ds ≡ true
    complete [] h = refl
    complete (d ∷ ds) h = ground (arith, take-length d.name, complete ds h.1)
