-- ===== src/Request/Sound.antt =====
-- afmpkg/afmpkg-request.c: what holds of a request between two lines.
use afb_app_manager.Base.{
  c_str, ℕ, ◌≤◌, Bool, true, Option, none, some, List, [], ◌∷◌, Bytes, ℤ, pos, is_neg, Memory, ◌≡◌,
  ◌≢◌, ◌⊎◌, arith, Option-cases, inl, inr, neg,
}
use afb_app_manager.Request.{
  pending, ready, failed, unset, get_status, Request, initial, afmpkg_request_add_line, obey,
  key_of, Key, k_begin, k_count, k_end, k_file, k_index, k_package, k_redpakid, k_root, k_transid,
  k_status, on_begin, on_count, on_end, on_file, on_index, on_package, on_redpakid, on_root,
  on_transid, on_status, number_of, strtol, get_operation_kind,
}
use afb_app_manager.Request.Number.{uint_max}

-- A failed request has a negative code, and any other one the code 0. The index is at most the count
-- where both are given, and both fit an `unsigned`. Without a kind there is no index, count,
-- transaction nor package, and a request with the status kind is ready or has failed.
pub record IsSound (r : Request) : Type 0 where
  pub failure : r.state ≡ failed → is_neg r.scode ≡ true
  pub success : r.state ≢ failed → r.scode ≡ pos 0
  pub ordered : r.index ≢ 0 → r.count ≢ 0 → r.index ≤ r.count
  pub index_fits : r.index ≤ uint_max
  pub count_fits : r.count ≤ uint_max
  pub untouched :
      r.kind ≡ unset → (r.index ≡ 0) × (r.count ≡ 0) × (r.transid ≡ none) × (r.package_name ≡ none)
  pub status_known : r.kind ≡ get_status → (r.state ≡ ready) ⊎ (r.state ≡ failed)

pub initial-IsSound : IsSound initial
initial-IsSound = ground arith

abbrev value_or_one : Option ℕ → ℕ
value_or_one none = 1
value_or_one (some n) = n

number_of_fits :
    (v : ℤ × Bool) → (1 ≤ value_or_one (number_of v)) × (value_or_one (number_of v) ≤ uint_max)
unfolding number_of
number_of_fits (pos k, e) = ground arith
number_of_fits (ℤ.negsuc k, e) = ground arith

get_operation_kind_ne : (s : Bytes) → get_operation_kind s ≢ get_status
unfolding get_operation_kind
get_operation_kind_ne s h = ground arith

obey-IsSound :
    (k : Key) (m : Memory) (r : Request) (line : Bytes)
    → r.state ≡ pending
    → IsSound r
    → IsSound (obey k m r line).1
unfolding obey
obey-IsSound k_begin m r line p v =
    unfold on_begin in ground (arith, get_operation_kind_ne (c_str line))
obey-IsSound k_count m r line p v =
    unfold on_count in ground (arith, number_of_fits (strtol (c_str line)).0)
obey-IsSound k_end m r line p v = unfold on_end in ground arith
obey-IsSound k_file m r line p v = unfold on_file in ground arith
obey-IsSound k_index m r line p v =
    unfold on_index in ground (arith, number_of_fits (strtol (c_str line)).0)
obey-IsSound k_package m r line p v = unfold on_package in ground arith
obey-IsSound k_redpakid m r line p v = unfold on_redpakid in ground arith
obey-IsSound k_root m r line p v = unfold on_root in ground arith
obey-IsSound k_transid m r line p v = unfold on_transid in ground arith
obey-IsSound k_status m r line p v = unfold on_status in ground arith

-- The lines of a request, one after the other, whatever each returns.
pub add_lines : Memory → Request → List Bytes → Request × Memory
add_lines m r [] = (r, m)
add_lines m r (line ∷ lines) =
    let (rc, r', m') = afmpkg_request_add_line m r line in add_lines m' r' lines

add_line-IsSound :
    (m : Memory) (r : Request) (line : Bytes)
    → IsSound r
    → IsSound (afmpkg_request_add_line m r line).1
unfolding afmpkg_request_add_line
add_line-IsSound m r line v = elim (Option-cases (key_of line)) [
  | inl e ↦ ground (arith, e)
  | inr ((k, rest), e) ↦ ground (arith, e, obey-IsSound k m r rest)
]

add_lines-IsSound :
    (m : Memory) (r : Request) (lines : List Bytes) → IsSound r → IsSound (add_lines m r lines).0
unfolding add_lines
add_lines-IsSound m r [] v = v
add_lines-IsSound m r (line ∷ lines) v =
    let (rc, r', m') = afmpkg_request_add_line m r line in
    add_lines-IsSound m' r' lines (add_line-IsSound m r line v)

-- Whatever the lines and the allocations, a request that is composed from the initial one is sound: its
-- code is negative if it has failed and 0 if not; its index is at most its count where both are given,
-- and both fit an `unsigned`; while its kind is unset it has no index, count, transaction nor package;
-- and where its kind is that of a status request it is ready or has failed.
pub composed-IsSound : (m : Memory) (lines : List Bytes) → IsSound (add_lines m initial lines).0
composed-IsSound m lines = add_lines-IsSound m initial lines initial-IsSound

obey_outcome :
    (k : Key) (m : Memory) (r : Request) (line : Bytes)
    → r.state ≡ pending
    → r.scode ≡ pos 0
    → ((obey k m r line).0 ≡ pos 0) × ((obey k m r line).1.state ≢ failed)
      ⊎ (is_neg (obey k m r line).0 ≡ true) × ((obey k m r line).1.state ≡ failed)
unfolding obey
obey_outcome k_begin m r line p v = unfold on_begin in ground arith
obey_outcome k_count m r line p v = unfold on_count in ground arith
obey_outcome k_end m r line p v = unfold on_end in ground arith
obey_outcome k_file m r line p v = unfold on_file in ground arith
obey_outcome k_index m r line p v = unfold on_index in ground arith
obey_outcome k_package m r line p v = unfold on_package in ground arith
obey_outcome k_redpakid m r line p v = unfold on_redpakid in ground arith
obey_outcome k_root m r line p v = unfold on_root in ground arith
obey_outcome k_transid m r line p v = unfold on_transid in ground arith
obey_outcome k_status m r line p v = unfold on_status in ground arith

-- On a sound request, a line returns 0 and the request has not failed, which needs that it was still
-- pending, or the line returns a negative code and the request has failed.
pub add_line_outcome :
    (m : Memory) (r : Request) (line : Bytes)
    → IsSound r
    → ((afmpkg_request_add_line m r line).0 ≡ pos 0)
        × ((afmpkg_request_add_line m r line).1.state ≢ failed)
        × (r.state ≡ pending)
      ⊎ (is_neg (afmpkg_request_add_line m r line).0 ≡ true)
        × ((afmpkg_request_add_line m r line).1.state ≡ failed)
unfolding afmpkg_request_add_line
add_line_outcome m r line v = elim (Option-cases (key_of line)) [
  | inl e ↦ ground (arith, e)
  | inr ((k, rest), e) ↦ ground (arith, e, obey_outcome k m r rest)
]

-- A failed request takes no further line: it keeps its first code and message, and all its fields.
pub add_line_failed :
    (m : Memory) (r : Request) (line : Bytes)
    → IsSound r
    → r.state ≡ failed
    → afmpkg_request_add_line m r line ≡ (neg 1000, r, m)
unfolding afmpkg_request_add_line
add_line_failed m r line v f = ground arith
