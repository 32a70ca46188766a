-- ===== src/CertChain/Ends.antt =====
-- cert/common-cert.c: when the recursion of `check_crt_chain` ends.
use afb_app_manager.Base.{
  ℕ, zero, suc, ◌+◌, ◌<◌, Bool, true, false, not, ◌&&◌, Option, none, some, List, [], ◌∷◌, pos,
  einval, is_neg, Memory, ◌==◌, if◌then◌else◌, ◌≡◌, ◌≢◌, refl, arith, Option-cases, Bool-cases, inl,
  inr, get_elem?,
}
use native.Mathlib.Nat.{zero-add}
use afb_app_manager.DomainSpec.{Spec, is_zero, is_able_to_sign}
use afb_app_manager.CertChain.{
  Tls, Outcome, is_enoent, bound_by, is_issuer, get_domain_spec_of_cert, find_issuer, find_trusted,
  after_issuer, from_trusted, check_crt_chain,
}
use afb_app_manager.CertChain.Bounded.{get_domain_spec_of_cert_total}

-- Some result is there.
abbrev IsDone : Option Outcome → Type 0
IsDone o = (r : Outcome) × (o ≡ some r)

if-IsDone : (b : Bool) (x y : Option Outcome) → IsDone x → IsDone y → IsDone (if b then x else y)
if-IsDone true x y dx dy = dx
if-IsDone false x y dx dy = dy

bound_by-IsDone : (super : Spec) (q : Outcome) → IsDone (bound_by super (some q))
bound_by-IsDone super (rc, spec, m) =
    let refused : Option Outcome = some (einval, [], m) in
    let kept : Option Outcome = some (rc, spec, m) in
    let failing = is_zero rc && not (is_able_to_sign super spec) in
    if-IsDone (is_enoent rc) (some (pos 0, spec, m)) (if failing then refused else kept)
      ((pos 0, spec, m), refl)
      (if-IsDone failing refused kept ((einval, [], m), refl) ((rc, spec, m), refl))

module _ (tls : Tls) where
  open tls use {Cert}

  -- The issuer that is found stands in the list at the index that is given, which is another one
  -- than the target's.
  find_issuer_at :
      (target : Cert) (targetidx i : ℕ) (certs : List Cert) (idx : ℕ) (c : Cert)
      → find_issuer tls target targetidx i certs ≡ some (idx, c)
      → (k : ℕ) × (idx ≡ i + k)
        × (get_elem? certs k ≡ some c)
        × (targetidx ≢ idx)
        × (is_issuer tls target c true ≡ true)
  unfolding find_issuer
  find_issuer_at target targetidx i [] idx c h = cc
  find_issuer_at target targetidx i (x ∷ xs) idx c h =
      elim (Bool-cases (not (i == targetidx) && is_issuer tls target x true)) [
        | inl e ↦
            let same : some (i, x) ≡ some (idx, c) = rw e at h in
            (
              0,
              ground (arith, same),
              ground (arith, same),
              ground (arith, same, e),
              ground (arith, same, e),
            )
        | inr e ↦
            let (k, a, b, c', d) = find_issuer_at target targetidx (i + 1) xs idx c (rw e at h) in
            (suc k, omega arith, b, c', d)
      ]

  -- An issuer at another index is not missed.
  find_issuer-some :
      (target : Cert) (targetidx i : ℕ) (certs : List Cert) (k : ℕ) (d : Cert)
      → get_elem? certs k ≡ some d
      → targetidx ≢ i + k
      → is_issuer tls target d true ≡ true
      → find_issuer tls target targetidx i certs ≢ none
  unfolding find_issuer
  find_issuer-some target targetidx i [] k d g n s h = cc
  find_issuer-some target targetidx i (x ∷ xs) zero d g n s h = ground arith
  find_issuer-some target targetidx i (x ∷ xs) (suc k) d g n s h =
      ground (arith, find_issuer-some target targetidx (i + 1) xs k d g)

  -- `rank` goes down from every certificate of the list to the others that issued it.
  abbrev pub IsRanked : List Cert → (ℕ → ℕ) → Type 0
  IsRanked certs rank =
      (i j : ℕ) (c d : Cert)
      → get_elem? certs i ≡ some c
      → get_elem? certs j ≡ some d
      → i ≢ j
      → is_issuer tls c d true ≡ true
      → rank j < rank i

  -- Every certificate of the list was issued by another one of it.
  abbrev pub IsCyclic : List Cert → Type 0
  IsCyclic certs =
      (i : ℕ) (c : Cert)
      → get_elem? certs i ≡ some c
      → (j : ℕ) × (d : Cert) × (get_elem? certs j ≡ some d)
        × (i ≢ j)
        × (is_issuer tls c d true ≡ true)

  from_trusted-IsDone :
      (wanted : Bool) (m : Memory) (o : Option Cert) → IsDone (from_trusted tls wanted m [] o)
  from_trusted-IsDone wanted m none = (_, refl)
  from_trusted-IsDone true m (some t) =
      let (r, e, settled) = get_domain_spec_of_cert_total tls m t in (r, e)
  from_trusted-IsDone false m (some t) = (_, refl)

  after_issuer-IsDone :
      (wanted : Bool) (target : Cert) (q : Outcome)
      → IsDone (after_issuer tls wanted target [] (some q))
  after_issuer-IsDone wanted target (rc, super, m) =
      let (r, e, settled) = get_domain_spec_of_cert_total tls m target in
      let bound = bound_by super (get_domain_spec_of_cert tls m target []) in
      let unwanted : Option Outcome = some (pos 0, [], m) in
      if-IsDone (is_neg rc) (some (rc, [], m)) (if not wanted then unwanted else bound)
        ((rc, [], m), refl)
        (if-IsDone (not wanted) unwanted bound ((pos 0, [], m), refl)
          (rw e (bound_by-IsDone super r)))

  module _ (certs trusteds : List Cert) (wanted : Bool) (m : Memory) where
    ends_ranked :
        (rank : ℕ → ℕ)
        → IsRanked certs rank
        → (fuel targetidx : ℕ) (target : Cert) → get_elem? certs targetidx ≡ some target
        → rank targetidx < fuel
        → IsDone (check_crt_chain tls fuel certs trusteds wanted m targetidx target [])
    unfolding check_crt_chain
    ends_ranked rank ranked zero targetidx target at h = absurd (omega arith)
    ends_ranked rank ranked (suc fuel) targetidx target at h =
        elim (Option-cases (find_issuer tls target targetidx 0 certs)) [
          | inl e ↦
              rw (e, check_crt_chain)
                (from_trusted-IsDone wanted m (find_trusted tls target trusteds))
          | inr ((idx, issuer), e) ↦
              let (k, same, there, other, signs) =
                find_issuer_at target targetidx 0 certs idx issuer e in
              let there' : get_elem? certs idx ≡ some issuer = rw (same, zero-add) there in
              let lower = ranked targetidx idx target issuer at there' other signs in
              let (q, ends) = ends_ranked rank ranked fuel idx issuer there' (omega arith) in
              rw (e, check_crt_chain, ends) (after_issuer-IsDone wanted target q)
        ]

    never_ends_cyclic :
        IsCyclic certs
        → (fuel targetidx : ℕ) (target : Cert) → get_elem? certs targetidx ≡ some target
        → check_crt_chain tls fuel certs trusteds wanted m targetidx target [] ≡ none
    unfolding check_crt_chain
    never_ends_cyclic cyclic zero targetidx target at = refl
    never_ends_cyclic cyclic (suc fuel) targetidx target at =
        elim (Option-cases (find_issuer tls target targetidx 0 certs)) [
          | inl e ↦
              let (j, d, there, other, signs) = cyclic targetidx target at in
              absurd
                (find_issuer-some target targetidx 0 certs j d there (rw zero-add other) signs e)
          | inr ((idx, issuer), e) ↦
              let (k, same, there, other, signs) =
                find_issuer_at target targetidx 0 certs idx issuer e in
              let there' : get_elem? certs idx ≡ some issuer = rw (same, zero-add) there in
              rw (e, check_crt_chain, never_ends_cyclic cyclic fuel idx issuer there')
        ]

-- Where some rank goes down from every certificate of the list to the others that issued it, a depth
-- of calls above the rank of the target is enough: `check_crt_chain` has a result.
pub check_crt_chain_ends :
    (tls : Tls) (certs trusteds : List tls.Cert) (wanted : Bool) (m : Memory) (rank : ℕ → ℕ)
    → IsRanked tls certs rank
    → (fuel targetidx : ℕ) (target : tls.Cert) → get_elem? certs targetidx ≡ some target
    → rank targetidx < fuel
    → (r : Outcome) × (check_crt_chain tls fuel certs trusteds wanted m targetidx target []
        ≡ some r)
check_crt_chain_ends tls certs trusteds wanted m rank ranked fuel targetidx target at h =
    ends_ranked tls certs trusteds wanted m rank ranked fuel targetidx target at h

-- Where every certificate of the list was issued by another one of it, as two certificates that
-- issued each other, no depth of calls is enough: the recursion of `check_crt_chain` never ends.
pub check_crt_chain_never_ends :
    (tls : Tls) (certs trusteds : List tls.Cert) (wanted : Bool) (m : Memory)
    → IsCyclic tls certs
    → (fuel targetidx : ℕ) (target : tls.Cert) → get_elem? certs targetidx ≡ some target
    → check_crt_chain tls fuel certs trusteds wanted m targetidx target [] ≡ none
check_crt_chain_never_ends = never_ends_cyclic
