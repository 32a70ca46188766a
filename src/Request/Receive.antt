-- ===== src/Request/Receive.antt =====
-- afmpkg/afmpkg-server.c: `receive` reads the request from a socket and cuts it in lines, and
-- `afmpkg_serve` serves one client.
pub mod Lines
use afb_app_manager.Base.{
  ℕ, ◌+◌, Bool, true, false, Option, none, some, List, [], ◌∷◌, ◌++◌, Bytes, ℤ, pos, neg, is_neg,
  Memory, length, take, ◌==◌, if◌then◌else◌,
}
use afb_app_manager.Request.{
  Request, Kind, add_package, remove_package, initial, fail_with, afmpkg_request_init,
  afmpkg_request_add_line,
}
use afb_app_manager.Request.Process.{World, Transactions, afmpkg_request_process}
use afb_app_manager.Request.Reply.{reply}

-- What a call of `recv` gave: bytes, as many as there was room for at most, none of them at the end
-- of the input; or an error other than EINTR, which is tried again.
pub data Recv : Type 0 where
  got : Bytes → Recv
  broken : Recv

-- `rc`, the request, the first `length` bytes of the buffer, and the memory. Behind a line that is refused
-- the buffer is not read again.
pub record Scan : Type 0 where
  pub rc : ℤ
  pub request : Request
  pub kept : Bytes
  pub memory : Memory

-- What the buffer keeps behind its last newline: the bytes of an unfinished line, which are moved to its
-- start and whose number is the new `length`; where there is none, all bytes of the round, since `length`
-- is still their number.
abbrev pub keep : Bytes → Bytes → Bytes
keep passed [] = passed
keep passed (c ∷ cs) = c ∷ cs

-- The loop over the bytes `it` to `length` of the buffer. `line` is what it has looked at since the last
-- newline, and `passed` what is before `line`: a newline is a 0 once its line has been read.
unfoldable pub scan : Memory → Request → Bytes → Bytes → Bytes → Scan
scan m req passed line [] = record {
  rc = pos 0;
  request = req;
  kept = keep passed line;
  memory = m;
}
scan m req passed line (c ∷ cs) =
    let (rc, req', m') = afmpkg_request_add_line m req line in
    let refused : Scan = record { rc = rc; request = req'; kept = []; memory = m' } in
    let after_line = scan m' req' (passed ++ (line ++ 0 ∷ [])) [] cs in
    let after_empty = scan m req (passed ++ b'\n' ∷ []) [] cs in
    let longer = scan m req passed (line ++ c ∷ []) cs in
    if c == b'\n'
    then (elim line [ [] ↦ after_empty | _ ∷ _ ↦ if is_neg rc then refused else after_line ])
    else longer

-- One round: `recv` puts the chunk behind the kept bytes, and `length = (size_t) sz`, so as many bytes are
-- looked at as were received, from the start of the buffer: kept ones first, and those of the chunk only
-- where there are too few of them.
unfoldable pub take_chunk : Memory → Request → Bytes → Bytes → Scan
take_chunk m req kept chunk = scan m req [] [] (take (length chunk) (kept ++ chunk))

-- `receive`, on what the calls of `recv` give; behind the last there is the end of the input. The buffer
-- ends with the call.
unfoldable pub receive : Memory → Request → Bytes → List Recv → Scan
receive m req kept [] = record { rc = pos 0; request = req; kept = []; memory = m }
receive m req kept (broken ∷ rest) = record {
  rc = neg 2000;
  request = fail_with req (neg 2000) "receive error";
  kept = [];
  memory = m;
}
receive m req kept (got [] ∷ rest) = record { rc = pos 0; request = req; kept = []; memory = m }
receive m req kept (got (c ∷ cs) ∷ rest) =
    let s = take_chunk m req kept (c ∷ cs) in
    let more = receive s.memory s.request s.kept rest in if is_neg s.rc then s else more

-- What serving a client leaves: the code, the bytes sent, the transactions, and whether the
-- framework is told to reload (`sighup_all`).
pub record Served : Type 0 where
  pub rc : ℤ
  pub sent : Bytes
  pub transactions : Transactions
  pub reloads : Bool

abbrev is_operation : Kind → Bool
is_operation add_package = true
is_operation remove_package = true
is_operation _ = false

abbrev request_or_initial : Option Request → Request
request_or_initial none = initial
request_or_initial (some r) = r

unfoldable pub afmpkg_serve :
    (Request → ℤ) → (Request → ℤ) → ℕ → ℕ → Memory → Transactions → List Recv → Served
afmpkg_serve install uninstall now later m ts input =
    let (rc, made, m1) = afmpkg_request_init m in
    let req = request_or_initial made in
    let s = receive m1 req [] input in
    let w = afmpkg_request_process install uninstall now later s.memory ts s.request in
    if is_neg rc
    then record { rc = rc; sent = reply req; transactions = ts; reloads = false }
    else if is_neg s.rc
    then record { rc = s.rc; sent = reply s.request; transactions = ts; reloads = false }
    else record {
      rc = w.rc;
      sent = reply w.request;
      transactions = w.transactions;
      reloads = is_operation w.request.kind;
    }
