-- ===== src/Client.antt =====
-- afmpkg/afmpkg-client.c: the client of the installer composes a request in a buffer that grows.
-- `buffer` is the text of the C buffer up to `length`, and `moved` tells that the buffer is no longer
-- `buffer0`; `heap` is what the block of the next `malloc` holds. The connection is not modelled.
pub mod Composed
mod Moves
mod Heard
mod Synced
pub mod Growth
pub mod Served
use afb_app_manager.Base.{
  c_str, ℕ, zero, suc, ◌+◌, ◌*◌, ◌%◌, ◌^◌, Bool, true, false, not, ◌&&◌, ◌||◌, Option, none, some,
  List, [], ◌∷◌, ◌++◌, Bytes, codes, ℤ, pos, neg, einval, enomem, Memory, alloc, length, ltb, leb,
  ◌==◌, if◌then◌else◌, digits_onto, equal, is_neg, drop, take, String,
}

pub data Operation : Type 0 where
  op_add op_remove op_check_add op_check_remove : Operation

pub data State : Type 0 where
  unstarted started ready : State

-- The three flags are the bits of `memo`.
pub record Client : Type 0 where
  pub buffer : Bytes
  pub moved : Bool
  pub heap : ℕ → ℕ
  pub size : ℕ
  pub operation : Operation
  pub state : State
  pub rootdir_put : Bool
  pub transid_put : Bool
  pub redpakid_put : Bool

-- `operations`
abbrev pub operation_text : Operation → Bytes
operation_text op_add = codes "ADD"
operation_text op_remove = codes "REMOVE"
operation_text op_check_add = codes "CHECK-ADD"
operation_text op_check_remove = codes "CHECK-REMOVE"

-- `AFMPKG_CLIENT_BUFFER0_SIZE`
abbrev pub buffer0_size : ℕ
buffer0_size = 4050

-- `afmpkg_client_init`, which sets neither the operation nor the memo; `before` holds them.
abbrev pub afmpkg_client_init : Client → Client
afmpkg_client_init before = record before {
  buffer = [];
  moved = false;
  size = buffer0_size;
  state = unstarted;
}

-- `while (fpos >= size)`: the size is a `size_t`, and `none` is the overflow. A unit of fuel is a round.
unfoldable pub grow_size : ℕ → ℕ → ℕ → Option ℕ
grow_size zero fpos size = none
grow_size (suc fuel) fpos size =
    let next = size * 2 % 2 ^ 64 in
    let more = grow_size fuel fpos next in
    if ltb fpos size then some size else if ltb next size then none else more

abbrev pub is_started : State → Bool
is_started started = true
is_started _ = false

abbrev pub Put : Type 0
Put = ℤ × Client × Memory

-- The first bytes of a block that nobody has written.
abbrev pub stale : (ℕ → ℕ) → ℕ → Bytes
stale heap zero = []
stale heap (suc n) = heap 0 ∷ stale (λ i. heap (suc i)) n

-- The text that `put_key_val_nl` writes.
abbrev pub line_of : Bytes → Bytes → Bytes
line_of key val = key ++ (b' ' ∷ val)

-- A buffer that leaves `buffer0` gets its block from `malloc`, and the text is not copied to it.
unfoldable pub put_key_val_nl : Memory → Client → Bytes → Bytes → Put
put_key_val_nl m c key val =
    let fpos = length c.buffer + 2 + length val + length key in
    let (room, m') = alloc m in
    let kept = if c.moved then c.buffer else stale c.heap (length c.buffer) in
    let line = line_of key val ++ b'\n' ∷ [] in
    if not (is_started c.state)
    then (einval, c, m)
    else if ltb fpos c.size
    then (pos 0, record c { buffer = c.buffer ++ line }, m)
    else elim (grow_size 65 fpos c.size) [
      | none ↦ (einval, c, m)
      | some size ↦
          if room
          then (pos 0, record c { buffer = kept ++ line; size = size; moved = true }, m')
          else (enomem, c, m')
    ]

abbrev pub is_zero : ℤ → Bool
is_zero (pos n) = n == 0
is_zero _ = false

-- `a ?: b`
abbrev pub or_else : Put → (Memory → Client → Put) → Put
or_else (rc, c, m) next = if is_zero rc then next m c else (rc, c, m)

-- `itoa`, on a value that is not negative.
abbrev pub itoa : ℕ → Bytes
itoa value = digits_onto 24 value []

unfoldable pub afmpkg_client_begin : Memory → Client → Operation → Bytes → ℕ → ℕ → Put
afmpkg_client_begin m c operation package_name index count =
    let c0 : Client = record {
      buffer = [];
      moved = c.moved;
      heap = c.heap;
      size = c.size;
      operation = operation;
      state = started;
      rootdir_put = false;
      transid_put = false;
      redpakid_put = false;
    } in
    or_else (put_key_val_nl m c0 (codes "BEGIN") (operation_text operation)) (λ m1 c1.
      or_else (put_key_val_nl m1 c1 (codes "PACKAGE") package_name) (λ m2 c2.
        or_else (put_key_val_nl m2 c2 (codes "INDEX") (itoa index))
          (λ m3 c3. put_key_val_nl m3 c3 (codes "COUNT") (itoa count))))

unfoldable pub afmpkg_client_end : Memory → Client → Put
afmpkg_client_end m c =
    let (rc, c', m') = put_key_val_nl m c (codes "END") (operation_text c.operation) in
    (rc, record c' { state = ready }, m')

unfoldable pub afmpkg_client_put_file : Memory → Client → Bytes → Put
afmpkg_client_put_file m c value = put_key_val_nl m c (codes "FILE") value

-- `put_key_val_nl_memo`, on the bit `already` and the setting of it.
unfoldable pub put_key_val_nl_memo :
    Memory → Client → Bytes → Bytes → Bool → (Client → Client) → Put
put_key_val_nl_memo m c key val already mark =
    let (rc, c', m') = put_key_val_nl m c key val in
    if already then (einval, c, m) else (rc, (if is_zero rc then mark c' else c'), m')

abbrev pub mark_rootdir : Client → Client
mark_rootdir c = record c { rootdir_put = true }

abbrev pub mark_transid : Client → Client
mark_transid c = record c { transid_put = true }

abbrev pub mark_redpakid : Client → Client
mark_redpakid c = record c { redpakid_put = true }

unfoldable pub afmpkg_client_put_rootdir : Memory → Client → Bytes → Put
afmpkg_client_put_rootdir m c value =
    put_key_val_nl_memo m c (codes "ROOT") value c.rootdir_put mark_rootdir

unfoldable pub afmpkg_client_put_transid : Memory → Client → Bytes → Put
afmpkg_client_put_transid m c value =
    put_key_val_nl_memo m c (codes "TRANSID") value c.transid_put mark_transid

unfoldable pub afmpkg_client_put_redpakid : Memory → Client → Bytes → Put
afmpkg_client_put_redpakid m c value =
    put_key_val_nl_memo m c (codes "REDPAKID") value c.redpakid_put mark_redpakid

-- `recv_framework`, on the bytes of one `recv`: the trailing newlines go, and the text ends at a 0.
abbrev pub ebadmsg : ℤ
ebadmsg = neg 74

unfoldable pub drop_newlines : Bytes → Bytes
drop_newlines [] = []
drop_newlines (c ∷ cs) = elim (drop_newlines cs) [
  | [] ↦ if c == b'\n' then [] else c ∷ []
  | d ∷ ds ↦ c ∷ d ∷ ds
]

unfoldable pub drop_spaces : Bytes → Bytes
drop_spaces [] = []
drop_spaces (c ∷ cs) = if c == b' ' then drop_spaces cs else c ∷ cs

-- The code, and the argument if there is one.
abbrev pub reply_info : ℤ → Bytes → ℤ × Option Bytes
reply_info rc [] = (rc, none)
reply_info rc (c ∷ cs) =
    if not (c == b' ')
    then (ebadmsg, none)
    else elim (drop_spaces cs) [ [] ↦ (rc, none) | d ∷ ds ↦ (rc, some (d ∷ ds)) ]

unfoldable pub recv_framework : Bytes → ℤ × Option Bytes
unfolding drop_newlines drop_spaces
recv_framework input =
    let text = c_str (drop_newlines input) in
    if equal (take 2 text) (codes "OK")
    then reply_info (pos 1) (drop 2 text)
    else if equal (take 5 text) (codes "ERROR")
    then reply_info (pos 0) (drop 5 text)
    else (ebadmsg, none)
