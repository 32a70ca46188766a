-- ===== src/DomainSpec/Text.antt =====
-- utils/domain-spec.c: the text of `get_string_of_domain_spec` and the block allocated for it.
use afb_app_manager.Base.{
  ℕ, ◌+◌, Bool, true, false, ◌||◌, [], ◌∷◌, ◌++◌, Bytes, ◌≡◌, refl, arith, length, length-append,
}
use afb_app_manager.DomainSpec.{Spec, is_written, string_size, string_of, write_domains, tag}

-- Some domain of the list goes to the text.
pub writes_any : Spec → Bool
writes_any [] = false
writes_any (d ∷ ds) = is_written d || writes_any ds

length-write_domains :
    (c : ℕ) (cs : Bytes) (ds : Spec)
    → length (write_domains (c ∷ cs) ds) ≡ length (c ∷ cs) + string_size ds
unfolding write_domains string_size
length-write_domains c cs [] = omega arith
length-write_domains c cs (d ∷ ds) = ground (
  arith,
  length-write_domains c cs ds,
  length-write_domains c (cs ++ (b',' ∷ tag d.permission ∷ d.name)) ds,
  length-append cs (b',' ∷ tag d.permission ∷ d.name),
)

-- Where some domain is written, the text and the 0 behind it fill the allocated block exactly.
-- Where none is, the text is empty and the block has no byte at all: the 0 falls outside it.
pub string_of_fits :
    (spec : Spec)
    → (writes_any spec ≡ true → length (string_of spec) + 1 ≡ string_size spec)
      × (writes_any spec ≡ false → (string_of spec ≡ []) × (string_size spec ≡ 0))
unfolding write_domains string_size writes_any
string_of_fits [] = (λ h. ground arith, λ h. (refl, refl))
string_of_fits (d ∷ ds) =
    ground (arith, string_of_fits ds, length-write_domains (tag d.permission) d.name ds)
