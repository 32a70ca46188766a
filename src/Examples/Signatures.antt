-- ===== src/Examples/Signatures.antt =====
-- The names of cert/signature-name.c on small inputs.
use afb_app_manager.Base.{[], codes, Bytes, ◌≡◌, refl, equal}
use afb_app_manager.SignatureName.{signature_name_type, signature_distributor}
use afb_app_manager.SignatureName.Recognise.{signature_name_type-signature_name, has_slash}

abbrev acme : Bytes
acme = codes "acme"

signature_name_type-signature_name_example :
    signature_name_type (codes "/signature-acme.p7") ≡ signature_distributor
unfolding has_slash equal
signature_name_type-signature_name_example = signature_name_type-signature_name [] acme refl
