-- ===== src/Client/Heard.antt =====
-- afmpkg/afmpkg-request.c, with memory at hand: what each line that a client writes does.
use afb_app_manager.Base.{
  ℕ, Bool, true, false, some, List, [], ◌∷◌, Bytes, codes, pos, ltb, is_some, c_str, ◌≡◌, ◌≤◌, refl,
  arith, Option-cases, inl, inr,
}
use afb_app_manager.PathEntry.{
  Entry, path_entry_add, add_entry, Round, fresh, entry, search_child, rounds, starts_with_slash,
}
use afb_app_manager.Request.{
  Request, is_unset, same_kind, is_pending, ready, get_operation_kind, afmpkg_request_add_line,
  key_of, strip, obey, on_count, on_end, on_file, on_index, on_package, on_redpakid, on_root,
  on_transid, strtol, number_of,
}
use afb_app_manager.Client.{line_of}

add_entry_done :
    (e : Entry) (slash : Bool) (rs : List Round)
    → ((add_entry [] e slash rs).0 ≡ true) × ((add_entry [] e slash rs).2 ≡ [])
unfolding add_entry
add_entry_done (entry l cs) slash [] = (refl, refl)
add_entry_done (entry l cs) slash ((n, rest) ∷ more) = elim (Option-cases (search_child n cs)) [
  | inl e ↦ rw (e, add_entry) (add_entry_done (fresh n slash) true more)
  | inr (old, e) ↦ rw (e, add_entry) (add_entry_done old true more)
]

abbrev pub Waiting : Request → Type 0
Waiting r = (is_pending r.state ≡ true) × (is_unset r.kind ≡ false)

pub heard_file :
    (r : Request) (v : Bytes)
    → Waiting r
    → afmpkg_request_add_line [] r (line_of (codes "FILE") v)
      ≡ (pos 0, record r { files = (path_entry_add [] r.files v).1 }, [])
unfolding afmpkg_request_add_line key_of strip obey on_file path_entry_add
heard_file r v (p, k) =
    let h = add_entry_done r.files (starts_with_slash v) (rounds v) in rw (p, k, h.0, h.1) refl

pub heard_root :
    (r : Request) (v : Bytes)
    → Waiting r
    → is_some r.root_dir ≡ false
    → c_str v ≡ v
    → afmpkg_request_add_line [] r (line_of (codes "ROOT") v)
      ≡ (pos 0, record r { root_dir = some v }, [])
unfolding afmpkg_request_add_line key_of strip obey on_root
heard_root r v (p, k) n w = rw (p, k, n, w) refl

pub heard_transid :
    (r : Request) (v : Bytes)
    → Waiting r
    → is_some r.transid ≡ false
    → c_str v ≡ v
    → afmpkg_request_add_line [] r (line_of (codes "TRANSID") v)
      ≡ (pos 0, record r { transid = some v }, [])
unfolding afmpkg_request_add_line key_of strip obey on_transid
heard_transid r v (p, k) n w = rw (p, k, n, w) refl

pub heard_redpakid :
    (r : Request) (v : Bytes)
    → Waiting r
    → is_some r.redpakid ≡ false
    → c_str v ≡ v
    → afmpkg_request_add_line [] r (line_of (codes "REDPAKID") v)
      ≡ (pos 0, record r { redpakid = some v }, [])
unfolding afmpkg_request_add_line key_of strip obey on_redpakid
heard_redpakid r v (p, k) n w = rw (p, k, n, w) refl

pub heard_package :
    (r : Request) (v : Bytes)
    → Waiting r
    → is_some r.package_name ≡ false
    → c_str v ≡ v
    → afmpkg_request_add_line [] r (line_of (codes "PACKAGE") v)
      ≡ (pos 0, record r { package_name = some v }, [])
unfolding afmpkg_request_add_line key_of strip obey on_package
heard_package r v (p, k) n w = rw (p, k, n, w) refl

-- A text that the server reads as a number.
abbrev pub Reads : Bytes → ℕ → Type 0
Reads t n = ((strtol (c_str t)).1 ≡ []) × (number_of ((strtol (c_str t)).0) ≡ some n)

pub heard_index :
    (r : Request) (t : Bytes) (n : ℕ)
    → Waiting r
    → r.index ≡ 0
    → r.count ≡ 0
    → Reads t n
    → afmpkg_request_add_line [] r (line_of (codes "INDEX") t) ≡ (pos 0, record r { index = n }, [])
unfolding afmpkg_request_add_line key_of strip obey on_index
heard_index r t n (p, k) i c (e, v) = rw (p, k, i, e, v, c) refl

pub heard_count :
    (r : Request) (t : Bytes) (n : ℕ)
    → Waiting r
    → r.count ≡ 0
    → r.index ≤ n
    → Reads t n
    → afmpkg_request_add_line [] r (line_of (codes "COUNT") t) ≡ (pos 0, record r { count = n }, [])
unfolding afmpkg_request_add_line key_of strip obey on_count
heard_count r t n (p, k) c le (e, v) =
    let o : ltb n r.index ≡ false = ground arith in rw (p, k, c, e, v, o) (ground arith)

pub heard_end :
    (r : Request) (v : Bytes)
    → is_pending r.state ≡ true
    → same_kind r.kind (get_operation_kind (c_str v)) ≡ true
    → afmpkg_request_add_line [] r (line_of (codes "END") v)
      ≡ (pos 0, record r { state = ready }, [])
unfolding afmpkg_request_add_line key_of strip obey on_end
heard_end r v p k = rw (p, k) refl
