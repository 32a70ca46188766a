-- ===== src/Request/Wording.antt =====
-- afmpkg/afmpkg-request.c: the text of a message; that of a status is `"%d %d %d"`.
use afb_app_manager.Base.{◌∷◌, ◌++◌, Bytes, codes, decimal_int}
use afb_app_manager.Request.{Message, text, status}

unfoldable pub message_bytes : Message → Bytes
unfolding decimal_int
message_bytes (text s) = codes s
message_bytes (status count success fail) =
    decimal_int count ++ (b' ' ∷ (decimal_int success ++ (b' ' ∷ decimal_int fail)))
