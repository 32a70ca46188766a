-- ===== src/Request/Process.antt =====
-- afmpkg/afmpkg-request.c: the transactions and `afmpkg_request_process`. The mutex makes each
-- operation on the list of transactions one step.
pub mod Transactions
use afb_app_manager.Base.{
  ℕ, ◌+◌, ◌-◌, ◌%◌, ◌^◌, Bool, true, false, Option, none, some, List, [], ◌∷◌, ◌++◌, Bytes, equal,
  ℤ, pos, negsuc, neg, is_neg, einval, enomem, String, Memory, length, alloc, ltb, ◌==◌,
  if◌then◌else◌,
}
use afb_app_manager.Request.Wording.{message_bytes}
use afb_app_manager.Request.{
  Request, Kind, unset, add_package, remove_package, check_add, check_remove, get_status, Message,
  text, status, fail_with,
}

-- `count`, `success` and `fail` are `unsigned`; `expire` is a time in seconds.
pub record Transaction : Type 0 where
  pub id : Bytes
  pub expire : ℕ
  pub count : ℕ
  pub success : ℕ
  pub fail : ℕ

abbrev pub retention_seconds : ℕ
retention_seconds = 3600

-- The list `all_transactions`, from its head.
abbrev pub Transactions : Type 0
Transactions = List Transaction

unfoldable pub cleanup_transactions : ℕ → Transactions → Transactions
cleanup_transactions now [] = []
cleanup_transactions now (t ∷ ts) =
    let rest = cleanup_transactions now ts in if ltb now t.expire then t ∷ rest else rest

-- The search of `get_transaction`.
unfoldable pub find : Bytes → Transactions → Option Transaction
find id [] = none
find id (t ∷ ts) = if equal id t.id then some t else find id ts

abbrev pub new_transaction : Bytes → ℕ → ℕ → Transaction
new_transaction id count now = record {
  id = id;
  expire = now + retention_seconds;
  count = count;
  success = 0;
  fail = 0;
}

-- `get_transaction`: the transaction, which then is in the list. `now` and `later` are the two
-- values of the clock that are read.
unfoldable pub get_transaction :
    Memory → ℕ → ℕ → Bytes → ℕ → Transactions → Option Transaction × Transactions × Memory
get_transaction m now later id count ts =
    let ts' = cleanup_transactions now ts in
    let (room, m') = alloc m in
    let t = new_transaction id count later in
    elim (find id ts') [
      | some old ↦ (some old, ts', m)
      | none ↦
          if count == 0
          then (none, ts', m)
          else if room
          then (some t, t ∷ ts', m')
          else (none, ts', m')
    ]

-- A write through the pointer that `get_transaction` gave, and `put_transaction` of it.
unfoldable pub update : Bytes → (Transaction → Transaction) → Transactions → Transactions
update id f [] = []
update id f (t ∷ ts) = if equal id t.id then f t ∷ ts else t ∷ update id f ts

unfoldable pub put_transaction : Bytes → Transactions → Transactions
put_transaction id [] = []
put_transaction id (t ∷ ts) = if equal id t.id then ts else t ∷ put_transaction id ts

-- `trans->success++` and `trans->fail--`
abbrev pub succeeded : Transaction → Transaction
succeeded t = record t { success = (t.success + 1) % 2 ^ 32 }

abbrev pub has_failed : Transaction → Transaction
has_failed t = record t { fail = (t.fail + 2 ^ 32 - 1) % 2 ^ 32 }

-- What a step returns: the code, the request, the transactions and the memory.
pub record World : Type 0 where
  pub rc : ℤ
  pub request : Request
  pub transactions : Transactions
  pub memory : Memory

-- The record of an operation's result in its transaction, after the code `rc`.
unfoldable pub account : ℕ → ℕ → Bytes → World → World
account now later id w =
    let (found, ts, m) = get_transaction w.memory now later id w.request.count w.transactions in
    let w' = record w { transactions = ts; memory = m } in
    elim found [
      | none ↦ record w' { rc = enomem; request = fail_with w.request enomem "out of memory" }
      | some t ↦
          if is_neg w.rc
          then record w' { transactions = update id has_failed ts }
          else record w' { transactions = update id succeeded ts }
    ]

-- Add and remove: `result` is what `afmpkg_install` or `afmpkg_uninstall` returned.
unfoldable pub operate : ℕ → ℕ → ℤ → String → World → World
operate now later result failure w =
    let request = if is_neg result then fail_with w.request result failure else w.request in
    let w' = record w { rc = result; request = request } in
    elim w.request.transid [ none ↦ w' | some id ↦ account now later id w' ]

-- The message of a status request: `asprintf`, which can run out of memory, into `scratch`.
unfoldable pub report : ℕ → ℕ → Bytes → World → World
report now later id w =
    let (found, ts, m) = get_transaction w.memory now later id 0 w.transactions in
    let (room, m') = alloc m in
    elim found [
      | none ↦ record w {
        rc = enomem;
        request = fail_with w.request enomem "out of memory";
        transactions = ts;
        memory = m;
      }
      | some t ↦
          if room
          then record w {
            rc = pos (length (message_bytes (status t.count t.success t.fail)));
            request = record (w.request) { msg = some (status t.count t.success t.fail) };
            transactions = put_transaction id ts;
            memory = m';
          }
          else record w {
            rc = enomem;
            request = fail_with w.request enomem "out of memory";
            transactions = put_transaction id ts;
            memory = m';
          }
    ]

invalid : World → World
invalid w = record w { rc = einval; request = fail_with w.request einval "invalid state" }

-- The `switch` of `afmpkg_request_process`, on the kind of the request.
unfoldable pub process_kind : Kind → ℕ → ℕ → ℤ → World → World
unfolding operate report invalid
process_kind unset now later result w = invalid w
process_kind add_package now later result w = operate now later result "can't install" w
process_kind remove_package now later result w = operate now later result "can't uninstall" w
process_kind check_add now later result w = record w { rc = pos 0 }
process_kind check_remove now later result w = record w { rc = pos 0 }
process_kind get_status now later result w = elim w.request.transid [
  | none ↦ invalid w
  | some id ↦ report now later id w
]

-- `install` and `uninstall` give the code of the package operation on the request's package.
unfoldable pub afmpkg_request_process :
    (Request → ℤ) → (Request → ℤ) → ℕ → ℕ → Memory → Transactions → Request → World
unfolding process_kind
afmpkg_request_process install uninstall now later m ts req =
    let w : World = record { rc = pos 0; request = req; transactions = ts; memory = m } in
    let result : ℤ = elim req.kind [ add_package ↦ install req | _ ↦ uninstall req ] in
    process_kind req.kind now later result w

-- `afmpkg_request_can_stop`
unfoldable pub afmpkg_request_can_stop : ℕ → Transactions → Bool × Transactions
afmpkg_request_can_stop now ts =
    let ts' = cleanup_transactions now ts in (elim ts' [ [] ↦ true | _ ∷ _ ↦ false ], ts')
