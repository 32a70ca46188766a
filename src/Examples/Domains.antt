-- ===== src/Examples/Domains.antt =====
-- The domain specifications of utils/domain-spec.c on small inputs.
use afb_app_manager.Base.{
  ◌+◌, true, false, some, [], ◌∷◌, Bytes, codes, ◌≡◌, refl, pos, enokey, ◌↔◌, length, All, equal,
}
use afb_app_manager.DomainSpec.{
  Spec, domain_spec_set, domain_spec_set_len, add_domain_len, find, add_granting, add_grantings,
  string_of, string_size, get_domain_spec_of_string, is_able_to_sign, read_domains, read_domain,
  write_domains,
}
use afb_app_manager.DomainSpec.Find.{permission_of, Distinct}
use afb_app_manager.DomainSpec.Set.{permission_of-domain_spec_set, permission_of-add_grantings}
use afb_app_manager.DomainSpec.Text.{string_of_fits, writes_any}
use afb_app_manager.DomainSpec.Parse.{IsWellFormed, has_comma, get_domain_spec_of_string-string_of}
use afb_app_manager.DomainSpec.Sign.{is_able_to_sign_iff, IsCovered}

abbrev acme : Bytes
acme = codes "acme"

abbrev beta : Bytes
beta = codes "beta"

-- "@acme,+beta"
abbrev two : Spec
two = record { name = acme; permission = 3 } ∷ record { name = beta; permission = 1 } ∷ []

two-Distinct : Distinct two
unfolding find equal
two-Distinct = (refl, (refl, tt))

two-IsWellFormed : IsWellFormed two
unfolding has_comma
two-IsWellFormed = record {
  distinct = two-Distinct;
  plain = (
    record { permitted = refl; named = λ e. cc; unbroken = refl },
    (record { permitted = refl; named = λ e. cc; unbroken = refl }, tt),
  );
}

permission_of-domain_spec_set_example :
    (permission_of (domain_spec_set [] two 2 beta).1 acme ≡ 3)
    × Distinct (domain_spec_set [] two 2 beta).1
unfolding domain_spec_set_len equal find
permission_of-domain_spec_set_example =
    permission_of-domain_spec_set [] two 2 beta acme two-Distinct refl

-- The first 3 bytes of "acme".
permission_of-add_grantings_example : permission_of (add_grantings [] [] two).1 beta ≡ 1
unfolding add_grantings add_granting add_domain_len find equal
permission_of-add_grantings_example = permission_of-add_grantings [] [] two beta two-Distinct refl

string_of_fits_example :
    (writes_any two ≡ true → length (string_of two) + 1 ≡ string_size two)
    × (writes_any two ≡ false → (string_of two ≡ []) × (string_size two ≡ 0))
string_of_fits_example = string_of_fits two

string_of-two : string_of two ≡ codes "@acme,+beta"
unfolding write_domains
string_of-two = refl

get_domain_spec_of_string-string_of_example :
    (back : Spec) × (get_domain_spec_of_string [] (string_of two) [] ≡ some (pos 0, back, []))
    × ((j : Bytes) → permission_of back j ≡ permission_of two j)
get_domain_spec_of_string-string_of_example =
    get_domain_spec_of_string-string_of two two-IsWellFormed

untagged : get_domain_spec_of_string [] (codes "acme") [] ≡ some (enokey, [], [])
unfolding get_domain_spec_of_string read_domains read_domain
untagged = refl

abbrev asking : Spec
asking = record { name = acme; permission = 3 } ∷ []

is_able_to_sign_iff_example : (is_able_to_sign two asking ≡ true) ↔ All (IsCovered two) asking
is_able_to_sign_iff_example = is_able_to_sign_iff two asking
