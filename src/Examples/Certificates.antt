-- ===== src/Examples/Certificates.antt =====
-- The chains of cert/common-cert.c on small sets of certificates.
use afb_app_manager.Base.{
  ℕ, zero, suc, ◌+◌, ◌-◌, ◌<◌, true, none, some, [], ◌∷◌, codes, ◌≡◌, refl, arith, pos, equal,
  get_elem?, ◌==◌, c_str,
}
use afb_app_manager.DomainSpec.{
  Spec, find, get_domain_spec_of_string, read_domains, read_domain, before_comma, after_comma,
  add_domain_len, is_able_to_sign,
}
use afb_app_manager.CertChain.{
  Tls, Extension, Outcome, check_crt_chain, is_issuer, find_issuer, find_trusted,
  get_domain_spec_of_cert,
}
use afb_app_manager.CertChain.Bounded.{IsGranted, check_crt_chain_bounded}
use afb_app_manager.CertChain.Ends.{
  IsRanked, IsCyclic, check_crt_chain_ends, check_crt_chain_never_ends,
}

abbrev extension_of : ℕ → Extension
extension_of zero = Extension.bytes (codes "+acme")
extension_of (suc zero) = Extension.bytes (codes "#acme")
extension_of _ = Extension.bytes (codes "@acme")

-- Certificate `n` was issued by certificate `n + 1`.
abbrev ladder : Tls
ladder = record {
  Cert = ℕ;
  check_issuer = λ c d. d == c + 1;
  verifies = λ c d. true;
  extension = extension_of;
}

abbrev acme_granted : Spec
acme_granted = record { name = codes "acme"; permission = 1 } ∷ []

-- The leaf 0, its issuer 1, and the trusted root 2 of it.
leaf_accepted :
    check_crt_chain ladder 3 (0 ∷ 1 ∷ []) (2 ∷ []) true [] 0 0 [] ≡ some (pos 0, acme_granted, [])
unfolding check_crt_chain is_issuer find_issuer find_trusted get_domain_spec_of_cert c_str
    get_domain_spec_of_string read_domains read_domain before_comma after_comma add_domain_len
    is_able_to_sign find equal
leaf_accepted = refl

check_crt_chain_bounded_example : IsGranted ladder (0 ∷ 1 ∷ []) (2 ∷ []) 0 acme_granted
check_crt_chain_bounded_example =
    check_crt_chain_bounded ladder 3 (0 ∷ 1 ∷ []) (2 ∷ []) [] 0 0 (pos 0, acme_granted, [])
      leaf_accepted refl

abbrev height : ℕ → ℕ
height i = 2 - i

get_elem_two : (i c : ℕ) → get_elem? (0 ∷ 1 ∷ []) i ≡ some c → (c ≡ i) × (i < 2)
get_elem_two zero c h = ground (arith, h)
get_elem_two (suc zero) c h = ground (arith, h)
get_elem_two (suc (suc i)) c h = cc

ladder-IsRanked : IsRanked ladder (0 ∷ 1 ∷ []) height
unfolding is_issuer
ladder-IsRanked i j c d g h n s = ground (arith, get_elem_two i c g, get_elem_two j d h)

check_crt_chain_ends_example :
    (r : Outcome) × (check_crt_chain ladder 3 (0 ∷ 1 ∷ []) (2 ∷ []) true [] 0 0 [] ≡ some r)
check_crt_chain_ends_example =
    check_crt_chain_ends ladder (0 ∷ 1 ∷ []) (2 ∷ []) true [] height ladder-IsRanked 3 0 0 refl
      (omega arith)

-- The certificates 0 and 1 issued each other.
abbrev loop : Tls
loop = record {
  Cert = ℕ;
  check_issuer = λ c d. c + d == 1;
  verifies = λ c d. true;
  extension = extension_of;
}

loop-IsCyclic : IsCyclic loop (0 ∷ 1 ∷ [])
unfolding is_issuer
loop-IsCyclic zero c h = (1, 1, refl, omega arith, ground (arith, get_elem_two 0 c h))
loop-IsCyclic (suc zero) c h = (0, 0, refl, omega arith, ground (arith, get_elem_two 1 c h))
loop-IsCyclic (suc (suc i)) c h = cc

check_crt_chain_never_ends_example :
    check_crt_chain loop 1000 (0 ∷ 1 ∷ []) (2 ∷ []) true [] 0 0 [] ≡ none
check_crt_chain_never_ends_example =
    check_crt_chain_never_ends loop (0 ∷ 1 ∷ []) (2 ∷ []) true [] loop-IsCyclic 1000 0 0 refl
