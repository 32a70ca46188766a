-- ===== src/CertChain/Bounded.antt =====
-- cert/common-cert.c: a certificate that is trusted stands in a chain of issuers up to a trusted
-- certificate, and may use no more than that one.
use mathlib.Core.List.{Memᴰ}
use afb_app_manager.Base.{
  ℕ, zero, suc, ◌+◌, ◌≤◌, true, false, not, ◌&&◌, Option, none, some, List, [], ◌∷◌, Bytes, c_str,
  is_neg, enoent, einval, Memory, All, equal_iff, ◌==◌, if◌then◌else◌, ◌≡◌, refl, arith,
  Option-cases, Bool-cases, inl, inr,
}
use afb_app_manager.DomainSpec.{Spec, find, is_able_to_sign, is_zero}
use afb_app_manager.DomainSpec.Find.{permission_of}
use afb_app_manager.DomainSpec.Parse.{IsPlain, IsWellFormed}
use afb_app_manager.DomainSpec.Accept.{get_domain_spec_of_string-IsWellFormed}
use afb_app_manager.DomainSpec.Sign.{IsCovered, is_able_to_sign_iff}
use afb_app_manager.CertChain.{
  Tls, Extension, missing, unreadable, bytes, Outcome, bound_by, reset_if_negative,
  spec_of_extension, after_issuer, is_issuer, get_domain_spec_of_cert, find_issuer, find_trusted,
  check_crt_chain,
}

permission_of-le_root : (s : Spec) (j : Bytes) → All IsPlain s → permission_of s j ≤ 3
unfolding find
permission_of-le_root [] j p = omega arith
permission_of-le_root (d ∷ ds) j p = ground (arith, permission_of-le_root ds j p.1, p.0.permitted)

-- What is covered is not above what covers it.
permission_of-le_covering :
    (auth s : Spec) (j : Bytes)
    → All (IsCovered auth) s
    → All IsPlain s
    → permission_of s j ≤ permission_of auth j
unfolding find
permission_of-le_covering auth [] j c p = omega arith
permission_of-le_covering auth (d ∷ ds) j c p =
    ground
      (arith, permission_of-le_covering auth ds j c.1 p.1, c.0, p.0.permitted, equal_iff d.name j)

-- The domains have texts, and an error leaves none.
abbrev pub IsSettled : Outcome → Type 0
IsSettled r = All IsPlain r.1 × (is_zero r.0 ≡ false → r.1 ≡ [])

result-IsSettled :
    (r : Outcome)
    → (is_zero r.0 ≡ true → IsWellFormed r.1)
    → (is_zero r.0 ≡ false → r.1 ≡ [])
    → IsSettled (r.0, (if is_neg r.0 then [] else r.1), r.2)
result-IsSettled (rc, spec, m) good bad = elim (Bool-cases (is_neg rc)) [
  | inl n ↦ rw n (tt, λ _. refl)
  | inr n ↦ rw n (elim (Bool-cases (is_zero rc)) [
    | inl e ↦ ((good e).plain, bad)
    | inr e ↦ rw (bad e) (tt, λ _. refl)
  ])
]

permission_of-le_signing :
    (auth s : Spec) (j : Bytes)
    → is_able_to_sign auth s ≡ true
    → All IsPlain s
    → permission_of s j ≤ permission_of auth j
permission_of-le_signing auth s j h =
    permission_of-le_covering auth s j ((is_able_to_sign_iff auth s).0 h)

-- The tests on the certificate's own specification leave what the issuer's one covers.
bound_by-le :
    (super : Spec) (q r : Outcome) (j : Bytes)
    → IsSettled q
    → bound_by super (some q) ≡ some r
    → is_neg r.0 ≡ false
    → permission_of r.1 j ≤ permission_of super j
bound_by-le super (rc, spec, m) r j (plain, empty) h n = elim (Bool-cases (is_zero rc)) [
  | inl z ↦ ground (arith, permission_of-le_signing super spec j, plain, z)
  | inr z ↦ let same : r.1 ≡ [] = ground (arith, empty z, z) in rw same (unfold find in omega arith)
]

module _ (tls : Tls) where
  open tls use {Cert, extension}

  extension-plain :
      (m : Memory) (e : Extension)
      → (r : Outcome) × (reset_if_negative (spec_of_extension tls m [] e) ≡ some r) × IsSettled r
  extension-plain m missing = ((enoent, [], m), refl, (tt, λ _. refl))
  extension-plain m unreadable = ((einval, [], m), refl, (tt, λ _. refl))
  extension-plain m (bytes b) =
      let (r, reads, good, bad) = get_domain_spec_of_string-IsWellFormed m (c_str b) in
      ((r.0, (if is_neg r.0 then [] else r.1), r.2), rw reads, result-IsSettled r good bad)

  pub get_domain_spec_of_cert_total :
      (m : Memory) (c : Cert)
      → (r : Outcome) × (get_domain_spec_of_cert tls m c [] ≡ some r) × IsSettled r
  unfolding get_domain_spec_of_cert
  get_domain_spec_of_cert_total m c = extension-plain m (extension c)

  -- Certificates that each are issued by the next, the last of them by a trusted one.
  pub data Anchored (certs trusteds : List Cert) (anchor : Cert) : Cert → Type 0 where
    direct :
        {target : Cert}
        → is_issuer tls target anchor true ≡ true
        → Memᴰ anchor trusteds
        → Anchored certs trusteds anchor target
    via :
        {target : Cert} (issuer : Cert)
        → is_issuer tls target issuer true ≡ true
        → Memᴰ issuer certs
        → Anchored certs trusteds anchor issuer
        → Anchored certs trusteds anchor target

  -- The specification is bounded by the one of a trusted certificate that the target descends from.
  pub record IsGranted (certs trusteds : List Cert) (target : Cert) (spec : Spec) : Type 0 where
    pub anchor : Cert
    pub chain : Anchored certs trusteds anchor target
    pub before : Memory
    pub outcome : Outcome
    pub read : get_domain_spec_of_cert tls before anchor [] ≡ some outcome
    pub readable : is_neg outcome.0 ≡ false
    pub bounded : (j : Bytes) → permission_of spec j ≤ permission_of outcome.1 j

  find_issuer_lem :
      (target : Cert) (targetidx i : ℕ) (certs : List Cert) (idx : ℕ) (c : Cert)
      → find_issuer tls target targetidx i certs ≡ some (idx, c)
      → (is_issuer tls target c true ≡ true) × Memᴰ c certs
  unfolding find_issuer
  find_issuer_lem target targetidx i [] idx c h = cc
  find_issuer_lem target targetidx i (x ∷ xs) idx c h =
      elim (Bool-cases (not (i == targetidx) && is_issuer tls target x true)) [
        | inl e ↦
            let same : x ≡ c = cc (rw e at h) in rw (← same) (ground (arith, e), Memᴰ.head refl)
        | inr e ↦
            let (signs, at) = find_issuer_lem target targetidx (i + 1) xs idx c (rw e at h) in
            (signs, Memᴰ.tail at)
      ]

  find_trusted_lem :
      (target : Cert) (trusteds : List Cert) (t : Cert)
      → find_trusted tls target trusteds ≡ some t
      → (is_issuer tls target t true ≡ true) × Memᴰ t trusteds
  unfolding find_trusted
  find_trusted_lem target [] t h = cc
  find_trusted_lem target (x ∷ xs) t h = elim (Bool-cases (is_issuer tls target x true)) [
    | inl e ↦ let same : x ≡ t = cc (rw e at h) in rw (← same) (e, Memᴰ.head refl)
    | inr e ↦ let (signs, at) = find_trusted_lem target xs t (rw e at h) in (signs, Memᴰ.tail at)
  ]

  -- The two ways in which `check_crt_chain` ends.
  direct-IsGranted :
      (certs trusteds : List Cert) (m : Memory) (target t : Cert) (r : Outcome)
      → find_trusted tls target trusteds ≡ some t
      → get_domain_spec_of_cert tls m t [] ≡ some r
      → is_neg r.0 ≡ false
      → IsGranted certs trusteds target r.1
  direct-IsGranted certs trusteds m target t r f g n =
      let (signs, at) = find_trusted_lem target trusteds t f in
      record {
        anchor = t;
        chain = direct signs at;
        before = m;
        outcome = r;
        read = g;
        readable = n;
        bounded = λ j. omega arith;
      }

  via-IsGranted :
      (certs trusteds : List Cert) (target issuer : Cert) (super spec : Spec)
      → is_issuer tls target issuer true ≡ true
      → Memᴰ issuer certs
      → IsGranted certs trusteds issuer super
      → ((j : Bytes) → permission_of spec j ≤ permission_of super j)
      → IsGranted certs trusteds target spec
  via-IsGranted certs trusteds target issuer super spec signs at g below = record {
    anchor = g.anchor;
    chain = via issuer signs at g.chain;
    before = g.before;
    outcome = g.outcome;
    read = g.read;
    readable = g.readable;
    bounded = λ j. omega (arith, below j, g.bounded j);
  }

  after_issuer-IsGranted :
      (certs trusteds : List Cert) (target issuer : Cert) (outcome : Option Outcome) (r : Outcome)
      → is_issuer tls target issuer true ≡ true
      → Memᴰ issuer certs
      → ((q : Outcome)
          → outcome ≡ some q
          → is_neg q.0 ≡ false
          → IsGranted certs trusteds issuer q.1)
      → after_issuer tls true target [] outcome ≡ some r
      → is_neg r.0 ≡ false
      → IsGranted certs trusteds target r.1
  after_issuer-IsGranted certs trusteds target issuer none r signs at ih h n = cc
  after_issuer-IsGranted certs trusteds target issuer (some (rc, super, m)) r signs at ih h n =
      elim (Bool-cases (is_neg rc)) [
        | inl e ↦ ground (arith, e)
        | inr e ↦
            let (q, reads, settled) = get_domain_spec_of_cert_total m target in
            via-IsGranted certs trusteds target issuer super r.1 signs at (ih (rc, super, m) refl e)
              λ j. bound_by-le super q r j settled (rw (e, reads) at h) n
      ]

  check_crt_chain-IsGranted :
      (fuel : ℕ) (certs trusteds : List Cert) (m : Memory) (targetidx : ℕ) (target : Cert)
      (r : Outcome)
      → check_crt_chain tls fuel certs trusteds true m targetidx target [] ≡ some r
      → is_neg r.0 ≡ false
      → IsGranted certs trusteds target r.1
  unfolding check_crt_chain
  check_crt_chain-IsGranted zero certs trusteds m targetidx target r h n = cc
  check_crt_chain-IsGranted (suc fuel) certs trusteds m targetidx target r h n =
      elim (Option-cases (find_issuer tls target targetidx 0 certs)) [
        | inl e ↦ elim (Option-cases (find_trusted tls target trusteds)) [
          | inl f ↦ ground (arith, e, f)
          | inr (t, f) ↦
              direct-IsGranted certs trusteds m target t r f (rw (e, f, check_crt_chain) at h) n
        ]
        | inr ((idx, issuer), e) ↦
            let (signs, at) = find_issuer_lem target targetidx 0 certs idx issuer e in
            after_issuer-IsGranted certs trusteds target issuer
              (check_crt_chain tls fuel certs trusteds true m idx issuer []) r signs at
              (λ q. check_crt_chain-IsGranted fuel certs trusteds m idx issuer q)
              (rw (e, check_crt_chain) at h) n
      ]

-- Where `check_crt_chain` accepts a certificate and gives its specification, a chain of issuers leads
-- from it to a trusted certificate, whose own specification could be read and bounds the given one,
-- name by name.
pub check_crt_chain_bounded :
    (tls : Tls) (fuel : ℕ) (certs trusteds : List tls.Cert) (m : Memory) (targetidx : ℕ)
    (target : tls.Cert) (r : Outcome)
    → check_crt_chain tls fuel certs trusteds true m targetidx target [] ≡ some r
    → is_neg r.0 ≡ false
    → IsGranted tls certs trusteds target r.1
check_crt_chain_bounded = check_crt_chain-IsGranted
