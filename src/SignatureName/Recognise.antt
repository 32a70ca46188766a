-- ===== src/SignatureName/Recognise.antt =====
-- cert/signature-name.c: `signature_name_type` recognises the names that are made.
use afb_app_manager.Base.{
  ℕ, zero, suc, ◌+◌, ◌-◌, ◌≤◌, ◌<◌, Bool, true, false, ◌||◌, [], ◌∷◌, ◌++◌, Bytes, length,
  length-append, take-length, take-append_le, drop, get_or, equal, equal_iff, ==_iff, ◌&&◌,
  equal_refl, leb, ◌==◌, if◌then◌else◌, ◌≡◌, refl, ◌∙◌, sym, arith, Bool-cases, inl, inr,
}
use mathlib.Core.List.{append_assoc}
use native.Mathlib.Nat.{zero-add}
use afb_app_manager.SignatureName.{
  signature_prefix, signature_extension, author_name, signature_name_type, signature_author,
  signature_distributor, file_start, is_at,
}
use afb_app_manager.SignatureName.Make.{signature_name}

unfoldable pub has_slash : Bytes → Bool
has_slash [] = false
has_slash (c ∷ cs) = c == b'/' || has_slash cs

get_or-append : (a b : Bytes) (n : ℕ) → get_or (a ++ b) (length a + n) 0 ≡ get_or b n 0
get_or-append [] b n = rw (zero-add n) refl
get_or-append (c ∷ cs) b n =
    let e : suc (length cs) + n ≡ suc (length cs + n) = omega arith in rw e (get_or-append cs b n)

drop-append : (a b : Bytes) → drop (length a) (a ++ b) ≡ b
drop-append [] b = refl
drop-append (c ∷ cs) b = drop-append cs b

get_or-slash :
    (b c : Bytes) (n : ℕ)
    → has_slash b ≡ false
    → n < length b
    → (get_or (b ++ c) n 0 == b'/') ≡ false
unfolding has_slash
get_or-slash [] c n h k = absurd (omega arith)
get_or-slash (x ∷ xs) c zero h k = ground arith
get_or-slash (x ∷ xs) c (suc n) h k = get_or-slash xs c n (ground arith) (omega arith)

-- From inside a file name the search stops behind the slash before it.
file_start-append :
    (a b c : Bytes) (n : ℕ)
    → has_slash b ≡ false
    → n ≤ length b
    → file_start (a ++ (b'/' ∷ (b ++ c))) (length a + 1 + n) ≡ length a + 1
unfolding file_start
file_start-append a b c zero h k =
    let e : length a + 1 + 0 ≡ suc (length a + 0) = omega arith in
    let f : suc (length a + 0) ≡ length a + 1 = omega arith in
    rw e (rw (get_or-append a (b'/' ∷ (b ++ c)) 0) f)
file_start-append a b c (suc n) h k =
    let e : length a + 1 + suc n ≡ suc (length a + suc n) = omega arith in
    let f : length a + suc n ≡ length a + 1 + n = omega arith in
    rw e (
      rw (get_or-append a (b'/' ∷ (b ++ c)) (suc n), get_or-slash b c n h (omega arith))
        (rw f (file_start-append a b c n h (omega arith))))

is_at-append :
    (path a y z : Bytes) (k : ℕ) → path ≡ a ++ (y ++ z) → k ≡ length a → is_at path k y ≡ true
is_at-append path a y z k e l =
    rw (e, l, drop-append a (y ++ z), take-append_le (length y) y z (omega arith), take-length y)
      (equal_refl y)

-- The test of the author's name.
is_author :
    (path a name z : Bytes) (k : ℕ)
    → path ≡ a ++ (name ++ z)
    → k ≡ length a
    → (length name == length author_name && is_at path k author_name) ≡ equal name author_name
is_author path a name z k e l = elim (Bool-cases (length name == 6)) [
  | inl t ↦
      let six : length name ≡ 6 = (==_iff (length name) 6).0 t in
      rw
        (
          t,
          e,
          l,
          drop-append a (name ++ z),
          ← six,
          take-append_le (length name) name z (omega arith),
          take-length name,
        )
        refl
  | inr f ↦ ground (arith, f, equal_iff name author_name)
]

-- In a directory, the name that is made for a signer is recognised: as the signature of the author for the
-- signer "author", and as that of a distributor for every other signer, where the signer has no slash.
pub signature_name_type-signature_name :
    (directory name : Bytes)
    → has_slash name ≡ false
    → signature_name_type (directory ++ (b'/' ∷ signature_name name))
      ≡ (if equal name author_name then signature_author else signature_distributor)
unfolding signature_name_type has_slash
signature_name_type-signature_name directory name h =
    let whole : Bytes = directory ++ (b'/' ∷ signature_name name) in
    let base : Bytes = signature_prefix ++ name in
    let here : Bytes = directory ++ b'/' ∷ [] in
    let size : length whole ≡ length directory + 14 + length name = omega (
      arith,
      length-append directory (b'/' ∷ signature_name name),
      length-append name signature_extension,
    ) in
    let posext : length whole - 3 ≡ length directory + 1 + (10 + length name) =
      omega (arith, size) in
    let e : whole ≡ here ++ (base ++ signature_extension) =
      sym (append_assoc directory (b'/' ∷ []) (base ++ signature_extension)) in
    let there : length directory + 1 ≡ length here =
      omega (arith, length-append directory (b'/' ∷ [])) in
    let start : file_start whole (length directory + 1 + (10 + length name))
        ≡ length directory + 1 =
      file_start-append directory base signature_extension (10 + length name) h (omega arith) in
    let extension : is_at whole (length directory + 1 + (10 + length name)) signature_extension
        ≡ true =
      is_at-append whole (here ++ base) signature_extension [] _
        (e ∙ sym (append_assoc here base signature_extension))
        (omega (arith, length-append here base, there)) in
    let prefix : is_at whole (length directory + 1) signature_prefix ≡ true =
      is_at-append whole here signature_prefix (name ++ signature_extension) _ e there in
    let author =
      is_author whole (here ++ signature_prefix) name signature_extension
        (length directory + 1 + 10)
        (e ∙ sym (append_assoc here signature_prefix (name ++ signature_extension)))
        (omega (arith, length-append here signature_prefix, there)) in
    let long : leb 3 (length whole) ≡ true = ground (arith, size) in
    let len : length directory + 1 + (10 + length name) - (length directory + 1)
        ≡ 10 + length name =
      omega arith in
    let rest : 10 + length name - 10 ≡ length name = omega arith in
    let enough : leb 10 (10 + length name) ≡ true = ground arith in
    rw (posext, start, extension, long, len, enough, prefix, rest, author) refl
