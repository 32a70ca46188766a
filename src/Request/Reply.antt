-- ===== src/Request/Reply.antt =====
-- The reply line: `afmpkg_request_make_reply_line` of afmpkg/afmpkg-request.c, and `reply` of
-- afmpkg/afmpkg-server.c.
use mathlib.Core.List.{append-nil, append_assoc}
use afb_app_manager.Base.{
  ℕ, zero, suc, ◌+◌, ◌-◌, ◌≤◌, ◌<◌, Option, none, some, [], ◌∷◌, ◌++◌, Bytes, codes, is_neg, length,
  length-append, take, take-length, take_all, take-append_le, take-take, ltb, leb, if◌then◌else◌,
  ◌≡◌, refl, ◌∙◌, arith,
}
use afb_app_manager.Request.{Request, Message}
use afb_app_manager.Request.Wording.{message_bytes}

-- `idx` and the bytes written to `line`, which holds `size` bytes.
pub record Line : Type 0 where
  pub idx : ℕ
  pub written : Bytes

-- `if (idx < length) line[idx] = c; idx++;`
unfoldable pub write_byte : ℕ → ℕ → Line → Line
write_byte size c l = record {
  idx = l.idx + 1;
  written = if ltb l.idx size then l.written ++ c ∷ [] else l.written;
}

unfoldable pub write_bytes : ℕ → Bytes → Line → Line
write_bytes size [] l = l
write_bytes size (c ∷ cs) l = write_bytes size cs (write_byte size c l)

abbrev pub message_of : Option Message → Bytes
message_of none = []
message_of (some m) = message_bytes m

abbrev pub reply_tag : Request → Bytes
reply_tag req = if is_neg req.scode then codes "ERROR" else codes "OK"

-- A message that is not empty, behind a space.
unfoldable pub write_message : ℕ → Bytes → Line → Line
write_message size [] l = l
write_message size (c ∷ cs) l = write_bytes size (c ∷ cs) (write_byte size b' ' l)

-- The length of the line, and the bytes written; the final 0 does not count.
unfoldable pub afmpkg_request_make_reply_line : Request → ℕ → Line
afmpkg_request_make_reply_line req size =
    let l1 = write_bytes size (reply_tag req) (record { idx = 0; written = [] }) in
    let l2 = write_message size (message_of req.msg) l1 in
    let l3 = write_byte size b'\n' l2 in
    record l3 { written = if ltb l3.idx size then l3.written ++ 0 ∷ [] else l3.written }

abbrev pub reply_size : ℕ
reply_size = 512

-- The bytes that `reply` sends.
unfoldable pub reply : Request → Bytes
reply req =
    let l = afmpkg_request_make_reply_line req reply_size in
    if leb reply_size l.idx
    then take (reply_size - 1) l.written ++ b'\n' ∷ []
    else take l.idx l.written

-- The whole line.
abbrev spaced : Bytes → Bytes
spaced [] = []
spaced (c ∷ cs) = b' ' ∷ c ∷ cs

pub reply_text : Request → Bytes
reply_text req = reply_tag req ++ (spaced (message_of req.msg) ++ b'\n' ∷ [])

-- What was written is the start of the text so far.
record Holds (size : ℕ) (t : Bytes) (l : Line) : Type 0 where
  pub position : l.idx ≡ length t
  pub start : l.written ≡ take size t

write_byte-Holds :
    (size c : ℕ) (t : Bytes) (l : Line)
    → Holds size t l
    → Holds size (t ++ c ∷ []) (write_byte size c l)
unfolding write_byte
write_byte-Holds size c t l h = ground (
  arith,
  length-append t (c ∷ []),
  take_all size t,
  take_all size (t ++ c ∷ []),
  take-append_le size t (c ∷ []),
)

write_bytes-Holds :
    (size : ℕ) (cs t : Bytes) (l : Line)
    → Holds size t l
    → Holds size (t ++ cs) (write_bytes size cs l)
unfolding write_bytes
write_bytes-Holds size [] t l h = rw append-nil h
write_bytes-Holds size (c ∷ cs) t l h =
    rw (append_assoc t (c ∷ []) cs) at (
      write_bytes-Holds size cs (t ++ c ∷ []) (write_byte size c l) (write_byte-Holds size c t l h))

write_message-Holds :
    (size : ℕ) (cs t : Bytes) (l : Line)
    → Holds size t l
    → Holds size (t ++ spaced cs) (write_message size cs l)
unfolding write_message
write_message-Holds size [] t l h = rw append-nil h
write_message-Holds size (c ∷ cs) t l h = rw (append_assoc t (b' ' ∷ []) (c ∷ cs)) at (
    write_bytes-Holds size (c ∷ cs) (t ++ b' ' ∷ []) (write_byte size b' ' l)
      (write_byte-Holds size b' ' t l h))

empty-Holds : (size : ℕ) → Holds size [] (record { idx = 0; written = [] })
empty-Holds zero = record { position = refl; start = refl }
empty-Holds (suc size) = record { position = refl; start = refl }

-- Up to the end of the line.
line_of : Request → ℕ → Line
line_of req size = write_byte size b'\n' (
    write_message size (message_of req.msg)
      (write_bytes size (reply_tag req) (record { idx = 0; written = [] })))

line_of-Holds : (req : Request) (size : ℕ) → Holds size (reply_text req) (line_of req size)
unfolding line_of reply_text
line_of-Holds req size =
    rw (append_assoc (reply_tag req) (spaced (message_of req.msg)) (b'\n' ∷ [])) at (
      write_byte-Holds size b'\n' _ _ (
        write_message-Holds size (message_of req.msg) _ _
          (write_bytes-Holds size (reply_tag req) [] _ (empty-Holds size))))

-- The length returned is that of the whole line, and the buffer holds the line and a 0 behind it, as
-- far as they fit: no byte is written outside it.
pub make_reply_line_lem :
    (req : Request) (size : ℕ)
    → ((afmpkg_request_make_reply_line req size).idx ≡ length (reply_text req))
      × ((afmpkg_request_make_reply_line req size).written ≡ take size (reply_text req ++ 0 ∷ []))
unfolding afmpkg_request_make_reply_line
make_reply_line_lem req size =
    let h = line_of-Holds req size in
    let ended = write_byte-Holds size 0 _ _ h in
    unfold line_of write_byte in (h.position, ended.start)

take_short :
    (size : ℕ) (t : Bytes) → length t < size → take (length t) (take size (t ++ 0 ∷ [])) ≡ t
take_short size t h =
    take-take (length t) size (t ++ 0 ∷ []) (omega arith)
    ∙ take-append_le (length t) t (0 ∷ []) (omega arith)
    ∙ take-length t

take_long :
    (size : ℕ) (t : Bytes)
    → size ≤ length t
    → take size (take (suc size) (t ++ 0 ∷ [])) ≡ take size t
take_long size t h =
    take-take size (suc size) (t ++ 0 ∷ []) (omega arith) ∙ take-append_le size t (0 ∷ []) h

cut_line :
    (size : ℕ) (t : Bytes)
    → (if leb (suc size) (length t)
        then take size (take (suc size) (t ++ 0 ∷ [])) ++ b'\n' ∷ []
        else take (length t) (take (suc size) (t ++ 0 ∷ [])))
      ≡ (if ltb (length t) (suc size) then t else take size t ++ b'\n' ∷ [])
cut_line size t = ground (arith, take_short (suc size) t, take_long size t)

-- What is sent is the whole line where it is shorter than the buffer of 512 bytes; where it is not,
-- it is the first 511 bytes of the line, and a newline.
pub reply_lem :
    (req : Request)
    → reply req ≡ (
        if ltb (length (reply_text req)) reply_size
        then reply_text req
        else take (reply_size - 1) (reply_text req) ++ b'\n' ∷ [])
unfolding reply
reply_lem req =
    let (position, start) = make_reply_line_lem req reply_size in
    rw (position, start) (cut_line 511 (reply_text req))
