-- ===== src/SignatureName.antt =====
-- cert/signature-name.c: the names of the files that hold signatures.
pub mod Make
pub mod Recognise
use afb_app_manager.Base.{
  ℕ, zero, suc, ◌+◌, ◌-◌, ◌/◌, ◌%◌, Bool, true, false, ◌&&◌, Option, none, some, List, [], ◌∷◌,
  ◌++◌, Bytes, codes, equal, length, take, drop, get_or, leb, ltb, ◌==◌, if◌then◌else◌, digits_onto,
}

pub data SignatureType : Type 0 where
  signature_none signature_author signature_distributor : SignatureType

abbrev pub signature_prefix : Bytes
signature_prefix = codes "signature-"

abbrev pub signature_extension : Bytes
signature_extension = codes ".p7"

abbrev pub author_name : Bytes
author_name = codes "author"

-- `ISEQ(&path[pos], y)`
abbrev pub is_at : Bytes → ℕ → Bytes → Bool
is_at path pos y = equal (take (length y) (drop pos path)) y

-- `while (posbeg > 0 && path[posbeg - 1] != '/') posbeg--;`
unfoldable pub file_start : Bytes → ℕ → ℕ
file_start path zero = zero
file_start path (suc n) = if get_or path n 0 == b'/' then suc n else file_start path n

-- `signature_name_type_length`; the path has that length.
unfoldable pub signature_name_type : Bytes → SignatureType
unfolding file_start
signature_name_type path =
    let posext = length path - length signature_extension in
    let posbeg = file_start path posext in
    let len = posext - posbeg in
    let posname = posbeg + length signature_prefix in
    if leb (length signature_extension) (length path) && is_at path posext signature_extension
    then (if leb (length signature_prefix) len && is_at path posbeg signature_prefix
        then (if len - length signature_prefix == length author_name
              && is_at path posname author_name
            then signature_author
            else signature_distributor)
        else signature_none)
    else signature_none

-- The bytes written to the buffer, from its start on.
abbrev pub Buffer : Type 0
Buffer = Bytes

-- `copy`: the position after it, and the bytes; up to `pos` they are written where there is room.
unfoldable pub copy : Buffer → ℕ → ℕ → Bytes → ℕ × Buffer
copy buffer pos size value = (
  pos + length value,
  (if ltb pos size
      then (if leb (pos + length value) size
          then buffer ++ value
          else buffer ++ take (size - pos) value)
      else buffer),
)

-- `make_signature_name_length`
unfoldable pub make_signature_name : Bytes → ℕ → ℕ × Buffer
unfolding copy
make_signature_name name size =
    let (pos, buffer) = copy [] 0 size signature_prefix in
    let (pos2, buffer2) = copy buffer pos size name in
    let (pos3, buffer3) = copy buffer2 pos2 size signature_extension in
    (pos3, (if ltb pos3 size then buffer3 ++ 0 ∷ [] else buffer3))

-- The digits of `number` at the end of `scratch`, which has 22 bytes.
unfoldable pub make_signature_name_number : ℕ → ℕ → ℕ × Buffer
make_signature_name_number number size = make_signature_name (digits_onto 22 number []) size

abbrev pub make_signature_name_author : ℕ → ℕ × Buffer
make_signature_name_author size = make_signature_name author_name size
