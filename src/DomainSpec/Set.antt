-- ===== src/DomainSpec/Set.antt =====
-- utils/domain-spec.c: `domain_spec_set` is a write of a map, `domain_spec_set_len` is not, and
-- `domain_spec_add_grantings`.
use afb_app_manager.Base.{
  ℕ, ◌<◌, true, false, none, [], ◌∷◌, Bytes, equal, equal_iff, ◌≡◌, ◌≢◌, ◌⊎◌, zero, suc, refl,
  arith, if◌then◌else◌, take-length, Memory, length, take, pos, einval, enomem, ◌==◌, ◌&&◌,
}
use afb_app_manager.DomainSpec.{
  Domain, Spec, find, domain_spec_set, domain_spec_set_len, add_domain_len, is_zero,
  is_permission_valid, get_domain_len, add_granting, add_grantings, is_granting, permission_grants,
}
use afb_app_manager.DomainSpec.Find.{
  permission_of, Distinct, find-assign, find-unlink, Distinct-assign, Distinct-unlink,
}

-- From distinct names, a `domain_spec_set` that returns 0 gives the name the permission that was
-- asked for, changes what is said of no other name, and keeps the names distinct.
pub permission_of-domain_spec_set :
    (m : Memory) (s : Spec) (perm : ℕ) (name j : Bytes)
    → Distinct s
    → is_zero (domain_spec_set m s perm name).0 ≡ true
    → (permission_of (domain_spec_set m s perm name).1 j
        ≡ (if equal name j then perm else permission_of s j))
      × Distinct (domain_spec_set m s perm name).1
unfolding domain_spec_set_len add_domain_len find
permission_of-domain_spec_set m s perm name j d h = ground (
  arith,
  take-length name,
  find-assign name j perm s,
  find-unlink name j s d,
  Distinct-assign name perm s d,
  Distinct-unlink name s d,
  equal_iff name j,
)

-- `domain_spec_set` fails with -EINVAL for a permission out of range and with -ENOMEM where the
-- memory of a new entry is refused, and in no other case; a failure changes nothing.
pub domain_spec_set_failed :
    (m : Memory) (s : Spec) (perm : ℕ) (name : Bytes)
    → is_zero (domain_spec_set m s perm name).0 ≡ false
    → ((domain_spec_set m s perm name).1 ≡ s)
      × (((domain_spec_set m s perm name).0 ≡ einval) × (is_permission_valid perm ≡ false)
          ⊎ ((domain_spec_set m s perm name).0 ≡ enomem) × (find name s ≡ none))
unfolding domain_spec_set_len add_domain_len
domain_spec_set_failed m s perm name h = ground (arith, take-length name)

equal-take : (xs : Bytes) (n : ℕ) → n < length xs → equal xs (take n xs) ≡ false
unfolding equal
equal-take [] n h = absurd (omega arith)
equal-take (x ∷ xs) zero h = refl
equal-take (x ∷ xs) (suc n) h = ground (arith, equal-take xs n)

-- Where `len` is less than the length of the text, `domain_spec_set_len` of a valid permission
-- other than none, for a name that has no entry yet, returns 0 with memory at hand, and leaves the
-- name without an entry.
domain_spec_set_len_misses :
    (s : Spec) (perm : ℕ) (domain : Bytes) (len : ℕ)
    → is_permission_valid perm ≡ true
    → perm ≢ 0
    → len < length domain
    → get_domain_len s domain len ≡ none
    → ((domain_spec_set_len [] s perm domain len).0 ≡ pos 0)
      × (get_domain_len (domain_spec_set_len [] s perm domain len).1 domain len ≡ none)
unfolding domain_spec_set_len add_domain_len find
domain_spec_set_len_misses s perm domain len v n h e =
    ground (arith, take-length domain, equal-take domain len h)

permission_of-add_granting :
    (m : Memory) (to : Spec) (d : Domain) (j : Bytes)
    → is_zero (add_granting m to d).0 ≡ true
    → permission_of (add_granting m to d).1 j ≡ (
        if d.permission == permission_grants && equal d.name j
        then permission_grants
        else permission_of to j)
unfolding add_granting add_domain_len find
permission_of-add_granting m to d j h =
    ground
      (arith, take-length d.name, find-assign d.name j permission_grants to, equal_iff d.name j)

-- Where the names of `from` are distinct and `domain_spec_add_grantings` returns 0, every domain that `from`
-- grants is granted by the result, also where it was given another permission before, and all else is as it
-- was.
pub permission_of-add_grantings :
    (m : Memory) (to from : Spec) (j : Bytes)
    → Distinct from
    → is_zero (add_grantings m to from).0 ≡ true
    → permission_of (add_grantings m to from).1 j
      ≡ (if is_granting from j then permission_grants else permission_of to j)
unfolding add_grantings find
permission_of-add_grantings m to [] j d h = refl
permission_of-add_grantings m to (x ∷ xs) j d h =
    let (rc, to', m') = add_granting m to x in
    ground (
      arith,
      permission_of-add_granting m to x j,
      permission_of-add_grantings m' to' xs j d.1,
      take-length j,
      equal_iff x.name j,
    )
