-- ===== src/Request.antt =====
-- afmpkg/afmpkg-request.c: a request is composed line by line.
-- The processing of a request is in Request/Process, its reply in Request/Reply, and the loop that
-- receives the lines (afmpkg/afmpkg-server.c) in Request/Receive.
pub mod Number
pub mod Sound
pub mod Wording
pub mod Process
pub mod Reply
pub mod Receive
unfoldable pub use Number.{strtol, number_of}
use afb_app_manager.Base.{
  c_str, ℕ, suc, Bool, true, false, not, ◌&&◌, ◌||◌, Option, none, some, List, [], ◌∷◌, Bytes,
  codes, equal, ℤ, pos, neg, is_neg, Memory, alloc, ltb, ◌==◌, if◌then◌else◌, is_some, String,
}
use afb_app_manager.PathEntry.{Entry, root, path_entry_add, path_entry_create_root}

pub data State : Type 0 where
  pending ready done failed : State

pub data Kind : Type 0 where
  unset add_package remove_package check_add check_remove get_status : Kind

-- A reply message: a text of the program, or the three numbers of a transaction's status.
pub data Message : Type 0 where
  text : String → Message
  status : ℕ → ℕ → ℕ → Message

-- `package_name`, `root_dir`, `redpakid` and `files` are the fields of `apkg`.
pub record Request : Type 0 where
  pub state : State
  pub kind : Kind
  pub scode : ℤ
  pub index : ℕ
  pub count : ℕ
  pub transid : Option Bytes
  pub msg : Option Message
  pub package_name : Option Bytes
  pub root_dir : Option Bytes
  pub redpakid : Option Bytes
  pub files : Entry

abbrev pub initial : Request
initial = record {
  state = pending;
  kind = unset;
  scode = pos 0;
  index = 0;
  count = 0;
  transid = none;
  msg = none;
  package_name = none;
  root_dir = none;
  redpakid = none;
  files = root;
}

abbrev with_files : ℤ × Option Entry × Memory → ℤ × Option Request × Memory
with_files (rc, none, m) = (rc, none, m)
with_files (rc, some e, m) = (rc, some (record initial { files = e }), m)

-- `afmpkg_request_init`; with no root entry the request has no list of files.
unfoldable pub afmpkg_request_init : Memory → ℤ × Option Request × Memory
afmpkg_request_init m = with_files (path_entry_create_root m)

abbrev pub is_ok_code : ℤ → Bool
is_ok_code (pos n) = n == 0
is_ok_code _ = false

-- `afmpkg_request_error`: the first error is the one that is kept.
abbrev pub fail_with : Request → ℤ → String → Request
fail_with req scode msg =
    if is_ok_code req.scode
    then record req { state = failed; scode = scode; msg = some (text msg) }
    else req

abbrev pub Reaction : Type 0
Reaction = ℤ × Request × Memory

abbrev error : Memory → Request → ℤ → String → Reaction
error m req scode msg = (scode, fail_with req scode msg, m)

abbrev accept : Memory → Request → Reaction
accept m req = (pos 0, req, m)

abbrev pub is_unset : Kind → Bool
is_unset unset = true
is_unset _ = false

unfoldable pub get_operation_kind : Bytes → Kind
get_operation_kind s =
    if equal s (codes "ADD")
    then add_package
    else if equal s (codes "REMOVE")
    then remove_package
    else if equal s (codes "CHECK-ADD")
    then check_add
    else if equal s (codes "CHECK-REMOVE")
    then check_remove
    else unset

-- `req->kind == kind`
abbrev pub same_kind : Kind → Kind → Bool
same_kind unset unset = true
same_kind add_package add_package = true
same_kind remove_package remove_package = true
same_kind check_add check_add = true
same_kind check_remove check_remove = true
same_kind get_status get_status = true
same_kind _ _ = false

-- BEGIN
unfoldable pub on_begin : Memory → Request → Bytes → Reaction
on_begin m req line =
    let kind = get_operation_kind (c_str line) in
    let req' = record req { kind = kind } in
    if not (is_unset req.kind)
    then error m req (neg 1001) "unexpected BEGIN"
    else if is_unset kind
    then error m req' (neg 1002) "invalid BEGIN"
    else accept m req'

-- COUNT
unfoldable pub on_count : Memory → Request → Bytes → Reaction
on_count m req line =
    let (value, rest) = strtol (c_str line) in
    if not (req.count == 0) || is_unset req.kind
    then error m req (neg 1003) "unexpected COUNT"
    else elim rest [
      | c ∷ cs ↦ error m req (neg 1004) "invalid COUNT"
      | [] ↦ elim (number_of value) [
        | none ↦ error m req (neg 1005) "COUNT out of range"
        | some n ↦
            if not (req.index == 0) && ltb n req.index
            then error m req (neg 1006) "COUNT out of INDEX"
            else accept m (record req { count = n })
      ]
    ]

-- END
unfoldable pub on_end : Memory → Request → Bytes → Reaction
on_end m req line =
    if not (same_kind req.kind (get_operation_kind (c_str line)))
    then error m req (neg 1008) "invalid END"
    else accept m (record req { state = ready })

-- FILE; the path has the length of the line.
unfoldable pub on_file : Memory → Request → Bytes → Reaction
on_file m req line =
    let (rc, files, m') = path_entry_add m req.files line in
    if is_unset req.kind
    then error m req (neg 1009) "unexpected FILE"
    else if is_neg rc
    then error m' (record req { files = files }) (neg 1010) "can't add FILE"
    else accept m' (record req { files = files })

-- INDEX
unfoldable pub on_index : Memory → Request → Bytes → Reaction
on_index m req line =
    let (value, rest) = strtol (c_str line) in
    if not (req.index == 0) || is_unset req.kind
    then error m req (neg 1011) "unexpected INDEX"
    else elim rest [
      | c ∷ cs ↦ error m req (neg 1012) "invalid INDEX"
      | [] ↦ elim (number_of value) [
        | none ↦ error m req (neg 1013) "INDEX out of range"
        | some n ↦
            if not (req.count == 0) && ltb req.count n
            then error m req (neg 1014) "INDEX out of COUNT"
            else accept m (record req { index = n })
      ]
    ]

-- PACKAGE
unfoldable pub on_package : Memory → Request → Bytes → Reaction
on_package m req line =
    let (room, m') = alloc m in
    if is_some req.package_name || is_unset req.kind
    then error m req (neg 1015) "unexpected PACKAGE"
    else if not room
    then error m' req (neg 1016) "out of memory"
    else accept m' (record req { package_name = some (c_str line) })

-- REDPAKID
unfoldable pub on_redpakid : Memory → Request → Bytes → Reaction
on_redpakid m req line =
    let (room, m') = alloc m in
    if is_some req.redpakid || is_unset req.kind
    then error m req (neg 1017) "unexpected REDPAKID"
    else if not room
    then error m' req (neg 1016) "out of memory"
    else accept m' (record req { redpakid = some (c_str line) })

-- ROOT
unfoldable pub on_root : Memory → Request → Bytes → Reaction
on_root m req line =
    let (room, m') = alloc m in
    if is_some req.root_dir || is_unset req.kind
    then error m req (neg 1018) "unexpected ROOT"
    else if not room
    then error m' req (neg 1016) "out of memory"
    else accept m' (record req { root_dir = some (c_str line) })

-- TRANSID
unfoldable pub on_transid : Memory → Request → Bytes → Reaction
on_transid m req line =
    let (room, m') = alloc m in
    if is_some req.transid || is_unset req.kind
    then error m req (neg 1019) "unexpected TRANSID"
    else if not room
    then error m' req (neg 1016) "out of memory"
    else accept m' (record req { transid = some (c_str line) })

-- STATUS
unfoldable pub on_status : Memory → Request → Bytes → Reaction
on_status m req line =
    let (room, m') = alloc m in
    if not (is_unset req.kind) || is_some req.transid
    then error m req (neg 1020) "unexpected STATUS"
    else if not room
    then error m' req (neg 1016) "out of memory"
    else accept m' (record req { transid = some (c_str line); kind = get_status; state = ready })

-- The keys of afmpkg-proto.h that a line of a request begins with.
pub data Key : Type 0 where
  k_begin k_count k_end k_file k_index k_package k_redpakid k_root k_transid k_status : Key

-- What the macro `IF(key)` tests, and the line behind the key and its space.
unfoldable pub strip : Bytes → Bytes → Option Bytes
strip [] [] = none
strip [] (c ∷ cs) = if c == b' ' then some cs else none
strip (k ∷ ks) [] = none
strip (k ∷ ks) (c ∷ cs) = if k == c then strip ks cs else none

abbrev or_else : Option Bytes → Key → Option (Key × Bytes) → Option (Key × Bytes)
or_else none key other = other
or_else (some rest) key other = some (key, rest)

unfoldable pub key_of : Bytes → Option (Key × Bytes)
unfolding strip
key_of line = or_else (strip (codes "BEGIN") line) k_begin (
    or_else (strip (codes "COUNT") line) k_count (
      or_else (strip (codes "END") line) k_end (
        or_else (strip (codes "FILE") line) k_file (
          or_else (strip (codes "INDEX") line) k_index (
            or_else (strip (codes "PACKAGE") line) k_package (
              or_else (strip (codes "REDPAKID") line) k_redpakid (
                or_else (strip (codes "ROOT") line) k_root (
                  or_else (strip (codes "TRANSID") line) k_transid
                    (or_else (strip (codes "STATUS") line) k_status none)))))))))

unfoldable pub obey : Key → Memory → Request → Bytes → Reaction
obey k_begin m req line = on_begin m req line
obey k_count m req line = on_count m req line
obey k_end m req line = on_end m req line
obey k_file m req line = on_file m req line
obey k_index m req line = on_index m req line
obey k_package m req line = on_package m req line
obey k_redpakid m req line = on_redpakid m req line
obey k_root m req line = on_root m req line
obey k_transid m req line = on_transid m req line
obey k_status m req line = on_status m req line

abbrev pub is_pending : State → Bool
is_pending pending = true
is_pending _ = false

abbrev obey_keyed : Memory → Request → Option (Key × Bytes) → Reaction
obey_keyed m req none = error m req (neg 1021) "bad line"
obey_keyed m req (some (key, line)) = obey key m req line

unfoldable pub afmpkg_request_add_line : Memory → Request → Bytes → Reaction
afmpkg_request_add_line m req line =
    if not (is_pending req.state)
    then error m req (neg 1000) "line after end"
    else obey_keyed m req (key_of line)
