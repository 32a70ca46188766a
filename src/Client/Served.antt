-- ===== src/Client/Served.antt =====
-- afmpkg/afmpkg-client.c and afmpkg/afmpkg-server.c: the server reads the request that the client
-- composed.
use afb_app_manager.Base.{
  ℕ, zero, suc, ◌+◌, ◌%◌, ◌/◌, ◌≤◌, true, false, some, List, [], ◌∷◌, ◌++◌, Bytes, codes, pos,
  Memory, is_some, equal, c_str, All, digits_onto, ◌≡◌, ◌≢◌, refl, ◌∙◌, ap, sym, arith,
}
use afb_app_manager.Request.{
  Request, same_kind, ready, initial, afmpkg_request_add_line, key_of, strip, obey, on_begin,
  get_operation_kind,
}
use afb_app_manager.Request.Number.{uint_max}
use afb_app_manager.Request.Number.Printed.{number_of-digits_onto}
use afb_app_manager.Request.Receive.{got, receive}
use afb_app_manager.Request.Receive.Lines.{
  has_newline, unlines, AreLines, obey_lines, receive-unlines,
}
use afb_app_manager.Client.Heard.{heard_package, heard_index, heard_count, heard_end, Reads}
use afb_app_manager.Client.{
  started, Client, Operation, op_add, op_remove, op_check_add, op_check_remove, operation_text, Put,
  line_of, put_key_val_nl, or_else, itoa, afmpkg_client_begin, afmpkg_client_end,
}
use afb_app_manager.Client.Moves.{
  is_done, Stays, put_key_val_nl-Stays, or_else-Stays, put_settings-Stays, end-Stays,
}
use afb_app_manager.Client.Composed.{
  Setting, put_settings, compose, kind_of, with_settings, begun, IsValue, value_of,
}
use afb_app_manager.Client.Synced.{
  Heard, hear, unlines-append_one, AreLines-append_one, put_key_val_nl_done, Synced, Synced-Waiting,
  has_newline-line_of, Synced-line, added, Kept, or_else_done, Kept-or_else, put_settings-Synced,
}

heard_begin :
    (o : Operation)
    → afmpkg_request_add_line [] initial (line_of (codes "BEGIN") (operation_text o))
      ≡ (pos 0, record initial { kind = kind_of o }, [])
unfolding afmpkg_request_add_line key_of strip obey on_begin get_operation_kind c_str equal
heard_begin op_add = refl
heard_begin op_remove = refl
heard_begin op_check_add = refl
heard_begin op_check_remove = refl

heard_end_of :
    (o : Operation) → same_kind (kind_of o) (get_operation_kind (c_str (operation_text o))) ≡ true
unfolding get_operation_kind c_str equal
heard_end_of op_add = refl
heard_end_of op_remove = refl
heard_end_of op_check_add = refl
heard_end_of op_check_remove = refl

plain_operation : (o : Operation) → has_newline (operation_text o) ≡ false
unfolding has_newline
plain_operation op_add = refl
plain_operation op_remove = refl
plain_operation op_check_add = refl
plain_operation op_check_remove = refl

-- The client before its first line.
abbrev blank : Client → Operation → Client
blank c o = record {
  buffer = [];
  moved = c.moved;
  heap = c.heap;
  size = c.size;
  operation = o;
  state = started;
  rootdir_put = false;
  transid_put = false;
  redpakid_put = false;
}

put_begin-Synced :
    (c0 : Client) (o : Operation)
    → is_done (put_key_val_nl [] (blank c0 o) (codes "BEGIN") (operation_text o)) ≡ true
    → Kept
        (record initial { kind = kind_of o })
        (put_key_val_nl [] (blank c0 o) (codes "BEGIN") (operation_text o))
put_begin-Synced c0 o z =
    let c = blank c0 o in
    let v = operation_text o in
    let r : Request = record initial { kind = kind_of o } in
    let l = line_of (codes "BEGIN") v in
    let (e, m) = put_key_val_nl_done c (codes "BEGIN") v z in
    let synced : Synced (added c (codes "BEGIN") v) r = record {
      lines = l ∷ [];
      whole = (
        has_newline-line_of (codes "BEGIN") v (unfold has_newline in refl) (plain_operation o),
        tt,
      );
      written = refl;
      heard =
          hear [] initial r b'B' (codes "EGIN" ++ (b' ' ∷ v)) (unfold obey_lines in refl)
            (heard_begin o);
      waiting = refl;
      kind = refl;
      root_memo = refl;
      transid_memo = refl;
      redpakid_memo = refl;
    } in
    (rw e synced, m)

put_package-Synced :
    (c : Client) (r : Request) (v : Bytes)
    → is_some r.package_name ≡ false
    → IsValue v
    → Synced c r
    → is_done (put_key_val_nl [] c (codes "PACKAGE") v) ≡ true
    → Kept (record r { package_name = some v }) (put_key_val_nl [] c (codes "PACKAGE") v)
unfolding has_newline
put_package-Synced c r v n v-IsValue s z =
    let (e, m) = put_key_val_nl_done c (codes "PACKAGE") v z in
    let line = heard_package r v (Synced-Waiting c r s) n v-IsValue.whole in
    (
      rw e (
          Synced-line c (added c (codes "PACKAGE") v) r (record r { package_name = some v }) b'P'
            (codes "ACKAGE") v s refl v-IsValue.unbroken refl line s.waiting s.kind
            (s.root_memo, s.transid_memo, s.redpakid_memo)),
      m,
    )

has_newline-digits_onto :
    (fuel n : ℕ) (out : Bytes)
    → has_newline out ≡ false
    → has_newline (digits_onto fuel n out) ≡ false
unfolding digits_onto has_newline
has_newline-digits_onto zero n out h = h
has_newline-digits_onto (suc fuel) n out h =
    let plain : has_newline ((b'0' + n % 10) ∷ out) ≡ false = ground (arith, h) in
    ground (arith, has_newline-digits_onto fuel (n / 10) ((b'0' + n % 10) ∷ out))

c_str-digits_onto :
    (fuel n : ℕ) (out : Bytes)
    → c_str out ≡ out
    → c_str (digits_onto fuel n out) ≡ digits_onto fuel n out
unfolding digits_onto c_str
c_str-digits_onto zero n out h = h
c_str-digits_onto (suc fuel) n out h =
    let plain : c_str ((b'0' + n % 10) ∷ out) ≡ (b'0' + n % 10) ∷ out = ground (arith, h) in
    ground (arith, c_str-digits_onto fuel (n / 10) ((b'0' + n % 10) ∷ out))

itoa-Reads : (n : ℕ) → 1 ≤ n → n ≤ uint_max → Reads (itoa n) n
itoa-Reads n one le =
    let (v, e) = number_of-digits_onto 23 n (omega arith) one le in
    rw (c_str-digits_onto 24 n [] (unfold c_str in refl)) (e, v)

put_index-Synced :
    (c : Client) (r : Request) (n : ℕ)
    → r.index ≡ 0
    → r.count ≡ 0
    → 1 ≤ n
    → n ≤ uint_max
    → Synced c r
    → is_done (put_key_val_nl [] c (codes "INDEX") (itoa n)) ≡ true
    → Kept (record r { index = n }) (put_key_val_nl [] c (codes "INDEX") (itoa n))
put_index-Synced c r n i k one le s z =
    let v = itoa n in
    let (e, m) = put_key_val_nl_done c (codes "INDEX") v z in
    let plain = has_newline-digits_onto 24 n [] (unfold has_newline in refl) in
    let line = heard_index r v n (Synced-Waiting c r s) i k (itoa-Reads n one le) in
    (
      rw e (
          Synced-line c (added c (codes "INDEX") v) r (record r { index = n }) b'I' (codes "NDEX") v
            s (unfold has_newline in refl) plain refl line s.waiting s.kind
            (s.root_memo, s.transid_memo, s.redpakid_memo)),
      m,
    )

put_count-Synced :
    (c : Client) (r : Request) (n : ℕ)
    → r.count ≡ 0
    → r.index ≤ n
    → 1 ≤ n
    → n ≤ uint_max
    → Synced c r
    → is_done (put_key_val_nl [] c (codes "COUNT") (itoa n)) ≡ true
    → Kept (record r { count = n }) (put_key_val_nl [] c (codes "COUNT") (itoa n))
put_count-Synced c r n k i one le s z =
    let v = itoa n in
    let (e, m) = put_key_val_nl_done c (codes "COUNT") v z in
    let plain = has_newline-digits_onto 24 n [] (unfold has_newline in refl) in
    let line = heard_count r v n (Synced-Waiting c r s) k i (itoa-Reads n one le) in
    (
      rw e (
          Synced-line c (added c (codes "COUNT") v) r (record r { count = n }) b'C' (codes "OUNT") v
            s (unfold has_newline in refl) plain refl line s.waiting s.kind
            (s.root_memo, s.transid_memo, s.redpakid_memo)),
      m,
    )

begin-Synced :
    (c : Client) (o : Operation) (name : Bytes) (index count : ℕ)
    → IsValue name
    → 1 ≤ index
    → index ≤ count
    → count ≤ uint_max
    → is_done (afmpkg_client_begin [] c o name index count) ≡ true
    → Kept (begun o name index count) (afmpkg_client_begin [] c o name index count)
unfolding afmpkg_client_begin
begin-Synced c o name index count v i le k z =
    let r1 : Request = record initial { kind = kind_of o } in
    let r2 : Request = record r1 { package_name = some name } in
    let r3 : Request = record r2 { index = index } in
    let r4 : Request = record r3 { count = count } in
    let put_count : Memory → Client → Put =
      λ m c3. put_key_val_nl m c3 (codes "COUNT") (itoa count) in
    let put_index : Memory → Client → Put =
      λ m c2. or_else (put_key_val_nl m c2 (codes "INDEX") (itoa index)) put_count in
    let put_package : Memory → Client → Put =
      λ m c1. or_else (put_key_val_nl m c1 (codes "PACKAGE") name) put_index in
    let stays_count : Stays put_count = put_key_val_nl-Stays (codes "COUNT") (itoa count) in
    let stays_index : Stays put_index =
      or_else-Stays (λ m c2. put_key_val_nl m c2 (codes "INDEX") (itoa index)) put_count
        (put_key_val_nl-Stays (codes "INDEX") (itoa index)) stays_count in
    let stays_package : Stays put_package =
      or_else-Stays (λ m c1. put_key_val_nl m c1 (codes "PACKAGE") name) put_index
        (put_key_val_nl-Stays (codes "PACKAGE") name) stays_index in
    Kept-or_else r1 r4 (put_key_val_nl [] (blank c o) (codes "BEGIN") (operation_text o))
      put_package stays_package (put_begin-Synced c o)
      (λ c1 s1.
        Kept-or_else r2 r4 (put_key_val_nl [] c1 (codes "PACKAGE") name) put_index stays_index
          (put_package-Synced c1 r1 name refl v s1)
          (λ c2 s2.
            Kept-or_else r3 r4 (put_key_val_nl [] c2 (codes "INDEX") (itoa index)) put_count
              stays_count (put_index-Synced c2 r2 index refl refl i (omega arith) s2)
              (λ c3 s3. put_count-Synced c3 r3 count refl le (omega arith) k s3)))
      z

-- What the server makes of the buffer of a client whose lines it has heard.
receive-Synced :
    (c : Client) (ls : List Bytes) (r : Request)
    → c.buffer ≡ unlines ls
    → ls ≢ []
    → AreLines ls
    → Heard ls r
    → receive [] initial [] (got c.buffer ∷ [])
      ≡ record { rc = pos 0; request = r; kept = []; memory = [] }
receive-Synced c ls r e ne whole h = rw e (receive-unlines ls [] initial whole ne ∙ h)

append_one_ne : (ls : List Bytes) (l : Bytes) → ls ++ l ∷ [] ≢ []
append_one_ne [] l e = cc
append_one_ne (x ∷ xs) l e = cc

end-served :
    (c : Client) (r : Request)
    → Synced c r
    → is_done (afmpkg_client_end [] c) ≡ true
    → receive [] initial [] (got (afmpkg_client_end [] c).1.buffer ∷ [])
      ≡ record { rc = pos 0; request = record r { state = ready }; kept = []; memory = [] }
unfolding afmpkg_client_end
end-served c r s z =
    let v = operation_text c.operation in
    let l = line_of (codes "END") v in
    let (e, m) = put_key_val_nl_done c (codes "END") v z in
    let text : (put_key_val_nl [] c (codes "END") v).1.buffer ≡ unlines (s.lines ++ l ∷ []) =
      ap (λ x. x.buffer) e ∙ rw (s.written) (sym (unlines-append_one s.lines l)) in
    let line = heard_end r v s.waiting (rw s.kind (heard_end_of c.operation)) in
    let h =
      hear s.lines r (record r { state = ready }) b'E' (codes "ND" ++ (b' ' ∷ v)) s.heard line in
    receive-Synced (afmpkg_client_end [] c).1 (s.lines ++ l ∷ []) (record r { state = ready }) text
      (append_one_ne s.lines l)
      (AreLines-append_one s.lines l s.whole (
        has_newline-line_of (codes "END") v (unfold has_newline in refl)
          (plain_operation c.operation)))
      h

-- Where every call of the composition returned 0 and left the text in the first buffer of the
-- client, the values have neither a newline nor a 0, and 1 <= index <= count <= INT_MAX, the server
-- that receives the text in one piece, with memory at hand, accepts every line, and its request is
-- the one that is meant, ready to be processed.
pub receive-compose :
    (c : Client) (o : Operation) (name : Bytes) (index count : ℕ) (ts : List Setting)
    → IsValue name
    → 1 ≤ index
    → index ≤ count
    → count ≤ 2147483647
    → All (λ t. IsValue (value_of t)) ts
    → (compose c o name index count ts).0 ≡ pos 0
    → (compose c o name index count ts).1.moved ≡ false
    → receive [] initial [] (got (compose c o name index count ts).1.buffer ∷ []) ≡ record {
      rc = pos 0;
      request = record (with_settings (begun o name index count) ts) { state = ready };
      kept = [];
      memory = [];
    }
unfolding compose
receive-compose c o name index count ts v i le k vs e still =
    let settings : Memory → Client → Put =
      λ m1 c1. or_else (put_settings m1 c1 ts) afmpkg_client_end in
    let z : is_done (compose c o name index count ts) ≡ true = rw (e, still) refl in
    let (z1, e1) =
      or_else_done (afmpkg_client_begin [] c o name index count) settings
        (or_else-Stays (λ m1 c1. put_settings m1 c1 ts) afmpkg_client_end (put_settings-Stays ts)
          end-Stays)
        z in
    let (s1, m1) = begin-Synced c o name index count v i le (omega (arith, k)) z1 in
    let c1 = (afmpkg_client_begin [] c o name index count).1 in
    let f1 : compose c o name index count ts ≡ settings [] c1 = e1 ∙ rw m1 refl in
    let (z2, e2) = or_else_done (put_settings [] c1 ts) afmpkg_client_end end-Stays (rw f1 at z) in
    let (s2, m2) = put_settings-Synced c1 (begun o name index count) ts s1 vs z2 in
    let c2 = (put_settings [] c1 ts).1 in
    let f2 : compose c o name index count ts ≡ afmpkg_client_end [] c2 = f1 ∙ e2 ∙ rw m2 refl in
    rw f2 (end-served c2 (with_settings (begun o name index count) ts) s2 (rw f2 at z))
