-- ===== src/Client/Composed.antt =====
-- afmpkg/afmpkg-client.c: a program that composes a request, and the request that it means.
use afb_app_manager.Base.{ℕ, false, some, List, [], ◌∷◌, Bytes, pos, Memory, c_str, ◌≡◌}
use afb_app_manager.PathEntry.{path_entry_add}
use afb_app_manager.Request.{
  Request, Kind, add_package, remove_package, check_add, check_remove, initial,
}
use afb_app_manager.Request.Receive.Lines.{has_newline}
use afb_app_manager.Client.{
  Client, Operation, op_add, op_remove, op_check_add, op_check_remove, Put, or_else,
  afmpkg_client_begin, afmpkg_client_end, afmpkg_client_put_file, afmpkg_client_put_rootdir,
  afmpkg_client_put_transid, afmpkg_client_put_redpakid,
}

-- What a program puts between the beginning and the end.
pub data Setting : Type 0 where
  file : Bytes → Setting
  rootdir : Bytes → Setting
  transid : Bytes → Setting
  redpakid : Bytes → Setting

unfoldable pub put_setting : Memory → Client → Setting → Put
put_setting m c (file v) = afmpkg_client_put_file m c v
put_setting m c (rootdir v) = afmpkg_client_put_rootdir m c v
put_setting m c (transid v) = afmpkg_client_put_transid m c v
put_setting m c (redpakid v) = afmpkg_client_put_redpakid m c v

unfoldable pub put_settings : Memory → Client → List Setting → Put
put_settings m c [] = (pos 0, c, m)
put_settings m c (s ∷ ss) = or_else (put_setting m c s) (λ m1 c1. put_settings m1 c1 ss)

-- A program that composes a request, up to the first call that fails.
unfoldable pub compose : Client → Operation → Bytes → ℕ → ℕ → List Setting → Put
compose c operation name index count ss =
    or_else (afmpkg_client_begin [] c operation name index count)
      (λ m1 c1. or_else (put_settings m1 c1 ss) afmpkg_client_end)

-- The request that is meant.
abbrev pub kind_of : Operation → Kind
kind_of op_add = add_package
kind_of op_remove = remove_package
kind_of op_check_add = check_add
kind_of op_check_remove = check_remove

abbrev pub with_setting : Request → Setting → Request
with_setting r (file v) = record r { files = (path_entry_add [] r.files v).1 }
with_setting r (rootdir v) = record r { root_dir = some v }
with_setting r (transid v) = record r { transid = some v }
with_setting r (redpakid v) = record r { redpakid = some v }

unfoldable pub with_settings : Request → List Setting → Request
with_settings r [] = r
with_settings r (s ∷ ss) = with_settings (with_setting r s) ss

abbrev pub begun : Operation → Bytes → ℕ → ℕ → Request
begun operation name index count = record initial {
  kind = kind_of operation;
  package_name = some name;
  index = index;
  count = count;
}

-- A value of a line: it has no newline and no 0.
pub record IsValue (v : Bytes) : Type 0 where
  pub unbroken : has_newline v ≡ false
  pub whole : c_str v ≡ v

abbrev pub value_of : Setting → Bytes
value_of (file v) = v
value_of (rootdir v) = v
value_of (transid v) = v
value_of (redpakid v) = v
