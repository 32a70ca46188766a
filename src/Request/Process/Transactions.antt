-- ===== src/Request/Process/Transactions.antt =====
-- afmpkg/afmpkg-request.c: what a status request reports after the requests of a transaction.
use afb_app_manager.Base.{
  ℕ, ◌+◌, ◌-◌, ◌%◌, ◌^◌, ◌<◌, none, some, List, [], ◌∷◌, Bytes, equal_refl, ℤ, is_neg, All, ◌≡◌,
  ◌≢◌, refl, ◌∙◌, arith, if◌then◌else◌, ◌⊎◌, inl, inr,
}
use afb_app_manager.Request.{Request, add_package, remove_package, get_status, status}
use afb_app_manager.Request.Process.{
  Transaction, Transactions, retention_seconds, find, update, cleanup_transactions, get_transaction,
  new_transaction, succeeded, has_failed, account, afmpkg_request_process,
}

find-cleanup :
    (now : ℕ) (id : Bytes) (ts : Transactions) (t : Transaction)
    → find id ts ≡ some t
    → now < t.expire
    → find id (cleanup_transactions now ts) ≡ some t
unfolding find cleanup_transactions
find-cleanup now id [] t h lt = cc
find-cleanup now id (x ∷ xs) t h lt = ground (arith, find-cleanup now id xs t)

find-cleanup_none :
    (now : ℕ) (id : Bytes) (ts : Transactions)
    → find id ts ≡ none
    → find id (cleanup_transactions now ts) ≡ none
unfolding find cleanup_transactions
find-cleanup_none now id [] h = refl
find-cleanup_none now id (x ∷ xs) h = ground (arith, find-cleanup_none now id xs)

-- What one result does to its transaction.
abbrev pub count_result : ℤ → Transaction → Transaction
count_result r t = if is_neg r then has_failed t else succeeded t

find-update :
    (id : Bytes) (r : ℤ) (ts : Transactions) (t : Transaction)
    → find id ts ≡ some t
    → find id (update id (count_result r) ts) ≡ some (count_result r t)
unfolding find update
find-update id r [] t h = cc
find-update id r (x ∷ xs) t h = ground (arith, find-update id r xs t)

-- A request that the daemon serves, the code of its package operation, and the two times that are read.
pub record Turn : Type 0 where
  pub request : Request
  pub result : ℤ
  pub now : ℕ
  pub later : ℕ

-- The transactions after a call, with memory at hand.
unfoldable pub serve : Turn → Transactions → Transactions
serve c ts =
    (afmpkg_request_process (λ _. c.result) (λ _. c.result) c.now c.later [] ts
      c.request).transactions

unfoldable pub serve_all : List Turn → Transactions → Transactions
serve_all [] ts = ts
serve_all (c ∷ cs) ts = serve_all cs (serve c ts)

abbrev pub count_all : List ℤ → Transaction → Transaction
count_all [] t = t
count_all (r ∷ rs) t = count_all rs (count_result r t)

abbrev pub results : List Turn → List ℤ
results [] = []
results (c ∷ cs) = c.result ∷ results cs

-- A request of the transaction to add or to remove a package.
abbrev pub IsOf : Bytes → Turn → Type 0
IsOf id c =
    ((c.request.kind ≡ add_package) ⊎ (c.request.kind ≡ remove_package))
    × (c.request.transid ≡ some id)

expire-count_result : (r : ℤ) (t : Transaction) → (count_result r t).expire ≡ t.expire
expire-count_result r t = ground arith

module _ (id : Bytes) where
  serve-update :
      (c : Turn) (ts : Transactions) (t : Transaction)
      → IsOf id c
      → find id (cleanup_transactions c.now ts) ≡ some t
      → serve c ts ≡ update id (count_result c.result) (cleanup_transactions c.now ts)
  unfolding serve afmpkg_request_process account get_transaction
  serve-update c ts t (inl k, n) h = ground arith
  serve-update c ts t (inr k, n) h = ground arith

  serve_first :
      (c : Turn) (ts : Transactions)
      → IsOf id c
      → c.request.count ≢ 0
      → find id (cleanup_transactions c.now ts) ≡ none
      → serve c ts
        ≡ count_result c.result (new_transaction id c.request.count c.later)
          ∷ cleanup_transactions c.now ts
  unfolding serve afmpkg_request_process account get_transaction update
  serve_first c ts (inl k, n) f h = ground (arith, equal_refl id)
  serve_first c ts (inr k, n) f h = ground (arith, equal_refl id)

  serve_all-known :
      (cs : List Turn) (ts : Transactions) (t : Transaction) (end : ℕ)
      → t.expire ≡ end
      → All (IsOf id) cs
      → All (λ c. c.now < end) cs
      → find id ts ≡ some t
      → find id (serve_all cs ts) ≡ some (count_all (results cs) t)
  unfolding serve_all
  serve_all-known [] ts t end x v lt h = h
  serve_all-known (c ∷ cs) ts t end x v lt h =
      let k = find-cleanup c.now id ts t h (rw x lt.0) in
      let u = count_result c.result t in
      serve_all-known cs (serve c ts) u end (expire-count_result c.result t ∙ x) v.1 lt.1 (
        rw (serve-update c ts t v.0 k)
          (find-update id c.result (cleanup_transactions c.now ts) t k))

  expire-count_all : (rs : List ℤ) (t : Transaction) → (count_all rs t).expire ≡ t.expire
  expire-count_all [] t = refl
  expire-count_all (r ∷ rs) t = expire-count_all rs (count_result r t) ∙ expire-count_result r t

  serve_all-new :
      (c : Turn) (cs : List Turn) (ts : Transactions)
      → All (IsOf id) (c ∷ cs)
      → c.request.count ≢ 0
      → All (λ d. d.now < c.later + retention_seconds) cs
      → find id ts ≡ none
      → find id (serve_all (c ∷ cs) ts)
        ≡ some (count_all (results (c ∷ cs)) (new_transaction id c.request.count c.later))
  unfolding serve_all
  serve_all-new c cs ts v f lt h =
      let t = count_result c.result (new_transaction id c.request.count c.later) in
      rw (serve_first c ts v.0 f (find-cleanup_none c.now id ts h)) (
        serve_all-known cs (t ∷ cleanup_transactions c.now ts) t (c.later + retention_seconds)
          (expire-count_result c.result (new_transaction id c.request.count c.later)) v.1 lt
          (unfold find in ground (arith, equal_refl id)))

-- How many results are a success, and how many a failure.
unfoldable pub successes : List ℤ → ℕ
successes [] = 0
successes (r ∷ rs) = (if is_neg r then 0 else 1) + successes rs

unfoldable pub failures : List ℤ → ℕ
failures [] = 0
failures (r ∷ rs) = (if is_neg r then 1 else 0) + failures rs

-- The counters wrap at 2 ^ 32, and `fail` goes down.
record Tally (rs : List ℤ) (t u : Transaction) : Type 0 where
  pub count : u.count ≡ t.count
  pub success : u.success % 2 ^ 32 ≡ (t.success + successes rs) % 2 ^ 32
  pub fail : (u.fail + failures rs) % 2 ^ 32 ≡ t.fail % 2 ^ 32

count_all-Tally : (rs : List ℤ) (t : Transaction) → Tally rs t (count_all rs t)
unfolding successes failures
count_all-Tally [] t = ground arith
count_all-Tally (r ∷ rs) t = ground (arith, count_all-Tally rs (count_result r t))

bounded-count_all :
    (r : ℤ) (rs : List ℤ) (t : Transaction)
    → t.success < 2 ^ 32
    → t.fail < 2 ^ 32
    → ((count_all (r ∷ rs) t).success < 2 ^ 32) × ((count_all (r ∷ rs) t).fail < 2 ^ 32)
bounded-count_all r [] t s f = ground arith
bounded-count_all r (q ∷ rs) t s f =
    bounded-count_all q rs (count_result r t) (ground arith) (ground arith)

process_status :
    (now later : ℕ) (id : Bytes) (install uninstall : Request → ℤ) (asking : Request)
    (ts : Transactions) (t : Transaction)
    → asking.kind ≡ get_status
    → asking.transid ≡ some id
    → find id (cleanup_transactions now ts) ≡ some t
    → (afmpkg_request_process install uninstall now later [] ts asking).request.msg
      ≡ some (status t.count t.success t.fail)
unfolding afmpkg_request_process get_transaction
process_status now later id install uninstall asking ts t k n h = ground arith

-- One or more requests to add or to remove a package, each with its own times and result, all of one
-- transaction, which is not known before the first of them, which gives a count; a status request behind
-- them. Where memory is at hand, and the first time that is read for each later request and for the status
-- request is less than 3600 seconds behind the second one of the first request, the reply has the count of
-- the first request and the number of successes, modulo 2 ^ 32; but as the number of failures it has 2 ^ 32
-- less that number, modulo 2 ^ 32.
pub status_reply :
    (id : Bytes) (c : Turn) (cs : List Turn) (ts : Transactions) (asking : Request) (now later : ℕ)
    (install uninstall : Request → ℤ)
    → All (IsOf id) (c ∷ cs)
    → c.request.count ≢ 0
    → All (λ d. d.now < c.later + retention_seconds) cs
    → now < c.later + retention_seconds
    → asking.kind ≡ get_status
    → asking.transid ≡ some id
    → find id ts ≡ none
    → (afmpkg_request_process install uninstall now later []
        (serve_all (c ∷ cs) ts)
        asking).request.msg
      ≡ some (
          status c.request.count
            (successes (results (c ∷ cs)) % 2 ^ 32)
            ((2 ^ 32 - failures (results (c ∷ cs)) % 2 ^ 32) % 2 ^ 32))
status_reply id c cs ts asking now later install uninstall v f lt near k n h =
    let first = new_transaction id c.request.count c.later in
    let rs = results (c ∷ cs) in
    let found = serve_all-new id c cs ts v f lt h in
    let e = expire-count_all id rs first in
    process_status now later id install uninstall asking (serve_all (c ∷ cs) ts)
      (count_all rs first) k n
      (find-cleanup now id (serve_all (c ∷ cs) ts) (count_all rs first) found
        (omega (arith, e, near)))
    ∙ ground (arith, count_all-Tally rs first, bounded-count_all c.result (results cs) first)
