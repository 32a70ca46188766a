-- ===== src/CertChain.antt =====
-- cert/common-cert.c: the trust in a certificate, and the domain specification that it may use.
-- The certificates are those of GnuTLS, which enter as a parameter.
pub mod Ends
pub mod Bounded
use afb_app_manager.Base.{
  ℕ, zero, suc, ◌+◌, Bool, true, false, not, ◌&&◌, Option, none, some, List, [], ◌∷◌, Bytes, c_str,
  ℤ, pos, negsuc, is_neg, enoent, einval, Memory, ◌==◌, if◌then◌else◌,
}
use afb_app_manager.DomainSpec.{Spec, get_domain_spec_of_string, is_able_to_sign, is_zero}

-- What `gnutls_x509_crt_get_extension_by_oid` gives for the domain specification: there is none,
-- another error, or its bytes, which fit the buffer.
pub data Extension : Type 0 where
  missing : Extension
  unreadable : Extension
  bytes : Bytes → Extension

-- `gnutls_x509_crt_check_issuer` and `gnutls_x509_crt_verify` on a certificate and its issuer.
pub record Tls : Type 1 where
  pub Cert : Type 0
  pub check_issuer : Cert → Cert → Bool
  pub verifies : Cert → Cert → Bool
  pub extension : Cert → Extension

abbrev pub Outcome : Type 0
Outcome = ℤ × Spec × Memory

-- `rc == -ENOENT`
abbrev pub is_enoent : ℤ → Bool
is_enoent (pos n) = false
is_enoent (negsuc n) = n == 1

-- `if (rc < 0) domain_spec_reset(spec);`
abbrev pub reset_if_negative : Option Outcome → Option Outcome
reset_if_negative none = none
reset_if_negative (some (rc, spec, m)) = some (rc, (if is_neg rc then [] else spec), m)

-- The tests behind `get_domain_spec_of_cert(certs[targetidx], spec)`, under the specification of
-- the issuer.
abbrev pub bound_by : Spec → Option Outcome → Option Outcome
bound_by super none = none
bound_by super (some (rc, spec, m)) =
    if is_enoent rc
    then some (pos 0, spec, m)
    else if is_zero rc && not (is_able_to_sign super spec)
    then some (einval, [], m)
    else some (rc, spec, m)

module _ (tls : Tls) where
  open tls use {Cert, check_issuer, verifies, extension}

  unfoldable pub is_issuer : Cert → Cert → Bool → Bool
  is_issuer cert issuer verify =
      if not (check_issuer cert issuer)
      then false
      else if not verify
      then true
      else verifies cert issuer

  abbrev pub spec_of_extension : Memory → Spec → Extension → Option Outcome
  spec_of_extension m spec missing = some (enoent, spec, m)
  spec_of_extension m spec unreadable = some (einval, spec, m)
  spec_of_extension m spec (bytes b) = get_domain_spec_of_string m (c_str b) spec

  unfoldable pub get_domain_spec_of_cert : Memory → Cert → Spec → Option Outcome
  get_domain_spec_of_cert m cert spec =
      reset_if_negative (spec_of_extension m spec (extension cert))

  -- The first loop: the first certificate, at another index than the target, that issued it. `idx` is
  -- the index of the head of the list.
  unfoldable pub find_issuer : Cert → ℕ → ℕ → List Cert → Option (ℕ × Cert)
  find_issuer target targetidx idx [] = none
  find_issuer target targetidx idx (c ∷ cs) =
      if not (idx == targetidx) && is_issuer target c true
      then some (idx, c)
      else find_issuer target targetidx (idx + 1) cs

  -- The second loop.
  unfoldable pub find_trusted : Cert → List Cert → Option Cert
  find_trusted target [] = none
  find_trusted target (t ∷ ts) = if is_issuer target t true then some t else find_trusted target ts

  -- What `check_crt_chain` does with the result for the issuer; `wanted` tells that `spec` is not
  -- NULL.
  abbrev pub after_issuer : Bool → Cert → Spec → Option Outcome → Option Outcome
  after_issuer wanted target spec none = none
  after_issuer wanted target spec (some (rc, super, m)) =
      if is_neg rc
      then some (rc, spec, m)
      else if not wanted
      then some (pos 0, spec, m)
      else bound_by super (get_domain_spec_of_cert m target spec)

  abbrev pub from_trusted : Bool → Memory → Spec → Option Cert → Option Outcome
  from_trusted wanted m spec none = some (enoent, spec, m)
  from_trusted wanted m spec (some t) =
      if wanted then get_domain_spec_of_cert m t spec else some (pos 0, spec, m)

  -- `check_crt_chain`, on fuel for the depth of its calls: `none` is out of fuel. `targetidx` and
  -- `target` are the index and the certificate.
  unfoldable pub check_crt_chain :
      ℕ → List Cert → List Cert → Bool → Memory → ℕ → Cert → Spec → Option Outcome
  check_crt_chain zero certs trusteds wanted m targetidx target spec = none
  check_crt_chain (suc fuel) certs trusteds wanted m targetidx target spec =
      elim (find_issuer target targetidx 0 certs) [
        | some (idx, issuer) ↦
            after_issuer wanted target spec
              (check_crt_chain fuel certs trusteds wanted m idx issuer [])
        | none ↦ from_trusted wanted m spec (find_trusted target trusteds)
      ]
