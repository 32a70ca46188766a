-- ===== src/Client/Synced.antt =====
-- afmpkg/afmpkg-client.c and afmpkg/afmpkg-request.c: each line of the client, and what the server
-- makes of it.
use mathlib.Core.List.{append_assoc}
use afb_app_manager.Base.{
  ℕ, ◌+◌, Bool, true, false, List, [], ◌∷◌, ◌++◌, Bytes, codes, pos, Memory, length, ltb, is_some,
  All, ◌≡◌, refl, ◌∙◌, ap, sym, arith, Bool-cases, Option-cases, inl, inr,
}
use afb_app_manager.Request.{Request, is_pending, is_unset, initial, afmpkg_request_add_line}
use afb_app_manager.Request.Receive.Lines.{
  has_newline, has_newline-append, unlines, AreLines, obey_lines, obey_lines-append,
}
use afb_app_manager.Client.Heard.{heard_file, heard_root, heard_transid, heard_redpakid, Waiting}
use afb_app_manager.Client.{
  is_started, grow_size, Client, Operation, op_add, op_remove, op_check_add, op_check_remove, Put,
  line_of, put_key_val_nl, put_key_val_nl_memo, is_zero, or_else, afmpkg_client_put_file,
  afmpkg_client_put_rootdir, afmpkg_client_put_transid, afmpkg_client_put_redpakid, mark_rootdir,
  mark_transid, mark_redpakid,
}
use afb_app_manager.Client.Moves.{is_done, Stays, put_settings-Stays}
use afb_app_manager.Client.Composed.{
  Setting, file, rootdir, transid, redpakid, put_setting, put_settings, kind_of, with_setting,
  with_settings, IsValue, value_of,
}

-- What the server makes of lines, with memory at hand.
abbrev pub Heard : List Bytes → Request → Type 0
Heard ls r = obey_lines [] initial ls ≡ record { rc = pos 0; request = r; kept = []; memory = [] }

pub hear :
    (ls : List Bytes) (r r' : Request) (x : ℕ) (xs : Bytes)
    → Heard ls r
    → afmpkg_request_add_line [] r (x ∷ xs) ≡ (pos 0, r', [])
    → Heard (ls ++ (x ∷ xs) ∷ []) r'
unfolding obey_lines
hear ls r r' x xs h e = obey_lines-append ls ((x ∷ xs) ∷ []) [] initial ∙ rw h (rw e refl)

pub unlines-append_one :
    (ls : List Bytes) (l : Bytes) → unlines (ls ++ l ∷ []) ≡ unlines ls ++ (l ++ b'\n' ∷ [])
unlines-append_one [] l = refl
unlines-append_one (x ∷ xs) l =
    rw (unlines-append_one xs l) (sym (append_assoc x (b'\n' ∷ unlines xs) (l ++ b'\n' ∷ [])))

pub AreLines-append_one :
    (ls : List Bytes) (l : Bytes) → AreLines ls → has_newline l ≡ false → AreLines (ls ++ l ∷ [])
AreLines-append_one [] l h n = (n, tt)
AreLines-append_one (x ∷ xs) l h n = (h.0, AreLines-append_one xs l h.1 n)

-- What a line of the client does, where it is written.
abbrev pub Written : Client → Bytes → Bytes → Put → Type 0
Written c key val (rc, c', m) =
    (c' ≡ record c { buffer = c.buffer ++ (line_of key val ++ b'\n' ∷ []) }) × (m ≡ [])

pub put_key_val_nl_done :
    (c : Client) (key val : Bytes)
    → is_done (put_key_val_nl [] c key val) ≡ true
    → Written c key val (put_key_val_nl [] c key val)
unfolding put_key_val_nl
put_key_val_nl_done c key val h =
    let fpos = length c.buffer + 2 + length val + length key in
    elim (Bool-cases (is_started c.state)) [
      | inr e ↦ absurd (ground (arith, h))
      | inl e ↦ elim (Bool-cases (ltb fpos c.size)) [
        | inl lt ↦ rw (e, lt) (refl, refl)
        | inr ge ↦ elim (Option-cases (grow_size 65 fpos c.size)) [
          | inl n ↦ absurd (ground (arith, h))
          | inr (size, g) ↦ absurd (ground (arith, rw (e, ge, g) at h))
        ]
      ]
    ]

-- The client's buffer has the lines, and the server's request is that of the lines.
pub record Synced (c : Client) (r : Request) : Type 0 where
  pub lines : List Bytes
  pub whole : AreLines lines
  pub written : c.buffer ≡ unlines lines
  pub heard : Heard lines r
  pub waiting : is_pending r.state ≡ true
  pub kind : r.kind ≡ kind_of c.operation
  pub root_memo : is_some r.root_dir ≡ c.rootdir_put
  pub transid_memo : is_some r.transid ≡ c.transid_put
  pub redpakid_memo : is_some r.redpakid ≡ c.redpakid_put

pub is_unset-kind_of : (o : Operation) → is_unset (kind_of o) ≡ false
is_unset-kind_of op_add = refl
is_unset-kind_of op_remove = refl
is_unset-kind_of op_check_add = refl
is_unset-kind_of op_check_remove = refl

pub Synced-Waiting : (c : Client) (r : Request) → Synced c r → Waiting r
Synced-Waiting c r s = (s.waiting, rw s.kind (is_unset-kind_of c.operation))

pub has_newline-line_of :
    (key val : Bytes)
    → has_newline key ≡ false
    → has_newline val ≡ false
    → has_newline (line_of key val) ≡ false
unfolding has_newline
has_newline-line_of key val k v = rw (has_newline-append key (b' ' ∷ val), k) v

abbrev pub Memos : Client → Request → Type 0
Memos c r =
    (is_some r.root_dir ≡ c.rootdir_put)
    × (is_some r.transid ≡ c.transid_put)
    × (is_some r.redpakid ≡ c.redpakid_put)

-- A line more, which the server accepts.
pub Synced-line :
    (c c' : Client) (r r' : Request) (k : ℕ) (ks val : Bytes)
    → Synced c r
    → has_newline (k ∷ ks) ≡ false
    → has_newline val ≡ false
    → c'.buffer ≡ c.buffer ++ (line_of (k ∷ ks) val ++ b'\n' ∷ [])
    → afmpkg_request_add_line [] r (line_of (k ∷ ks) val) ≡ (pos 0, r', [])
    → is_pending r'.state ≡ true
    → r'.kind ≡ kind_of c'.operation
    → Memos c' r'
    → Synced c' r'
Synced-line c c' r r' k ks val s plain_key plain b e p kd (x, y, z) =
    let l = line_of (k ∷ ks) val in
    record {
      lines = s.lines ++ l ∷ [];
      whole =
          AreLines-append_one s.lines l s.whole (has_newline-line_of (k ∷ ks) val plain_key plain);
      written = b ∙ rw (s.written) (sym (unlines-append_one s.lines l));
      heard = hear s.lines r r' k (ks ++ (b' ' ∷ val)) s.heard e;
      waiting = p;
      kind = kd;
      root_memo = x;
      transid_memo = y;
      redpakid_memo = z;
    }

-- The client with a line more.
abbrev pub added : Client → Bytes → Bytes → Client
added c key val = record c { buffer = c.buffer ++ (line_of key val ++ b'\n' ∷ []) }

-- A line that is written once.
pub memo_done :
    (c : Client) (key v : Bytes) (already : Bool) (mark : Client → Client)
    → ((x : Client) → (mark x).moved ≡ x.moved)
    → is_done (put_key_val_nl_memo [] c key v already mark) ≡ true
    → (already ≡ false)
      × ((put_key_val_nl_memo [] c key v already mark).1 ≡ mark (added c key v))
      × ((put_key_val_nl_memo [] c key v already mark).2 ≡ [])
unfolding put_key_val_nl_memo
memo_done c key v true mark k z = absurd (ground (arith, z))
memo_done c key v false mark k z =
    let p = put_key_val_nl [] c key v in
    let zero : is_zero p.0 ≡ true = ground (arith, z) in
    let done : is_done p ≡ true = ground (arith, z, k p.1) in
    let (e, m) = put_key_val_nl_done c key v done in (refl, rw zero (ap mark e), m)

-- What a successful call keeps.
abbrev pub Kept : Request → Put → Type 0
Kept r (rc, c, m) = Synced c r × (m ≡ [])

pub put_setting-Synced :
    (c : Client) (r : Request) (t : Setting)
    → Synced c r
    → IsValue (value_of t)
    → is_done (put_setting [] c t) ≡ true
    → Kept (with_setting r t) (put_setting [] c t)
unfolding put_setting afmpkg_client_put_file afmpkg_client_put_rootdir afmpkg_client_put_transid
    afmpkg_client_put_redpakid has_newline
put_setting-Synced c r (file v) s v-IsValue z =
    let (e, m) = put_key_val_nl_done c (codes "FILE") v z in
    let line = heard_file r v (Synced-Waiting c r s) in
    (
      rw e (
          Synced-line c (added c (codes "FILE") v) r (with_setting r (file v)) b'F' (codes "ILE") v
            s refl v-IsValue.unbroken refl line s.waiting s.kind
            (s.root_memo, s.transid_memo, s.redpakid_memo)),
      m,
    )
put_setting-Synced c r (rootdir v) s v-IsValue z =
    let (n, e, m) = memo_done c (codes "ROOT") v c.rootdir_put mark_rootdir (λ x. refl) z in
    let line = heard_root r v (Synced-Waiting c r s) (s.root_memo ∙ n) v-IsValue.whole in
    (
      rw e (
          Synced-line c (mark_rootdir (added c (codes "ROOT") v)) r (with_setting r (rootdir v))
            b'R' (codes "OOT") v s refl v-IsValue.unbroken refl line s.waiting s.kind
            (refl, s.transid_memo, s.redpakid_memo)),
      m,
    )
put_setting-Synced c r (transid v) s v-IsValue z =
    let (n, e, m) = memo_done c (codes "TRANSID") v c.transid_put mark_transid (λ x. refl) z in
    let line = heard_transid r v (Synced-Waiting c r s) (s.transid_memo ∙ n) v-IsValue.whole in
    (
      rw e (
          Synced-line c (mark_transid (added c (codes "TRANSID") v)) r (with_setting r (transid v))
            b'T' (codes "RANSID") v s refl v-IsValue.unbroken refl line s.waiting s.kind
            (s.root_memo, refl, s.redpakid_memo)),
      m,
    )
put_setting-Synced c r (redpakid v) s v-IsValue z =
    let (n, e, m) = memo_done c (codes "REDPAKID") v c.redpakid_put mark_redpakid (λ x. refl) z in
    let line = heard_redpakid r v (Synced-Waiting c r s) (s.redpakid_memo ∙ n) v-IsValue.whole in
    (
      rw e (
          Synced-line c (mark_redpakid (added c (codes "REDPAKID") v)) r
            (with_setting r (redpakid v)) b'R' (codes "EDPAKID") v s refl v-IsValue.unbroken refl
            line s.waiting s.kind (s.root_memo, s.transid_memo, refl)),
      m,
    )

-- The head of an `or_else` chain succeeded, and so did the rest.
pub or_else_done :
    (p : Put) (next : Memory → Client → Put)
    → Stays next
    → is_done (or_else p next) ≡ true
    → (is_done p ≡ true) × (or_else p next ≡ next (p.2) (p.1))
or_else_done (rc, c, m) next k z = elim (Bool-cases (is_zero rc)) [
  | inl e ↦
      let stayed : c.moved ≡ false = k m c (ground (arith, rw e at z)) in
      (rw (e, stayed) refl, rw e refl)
  | inr e ↦ absurd (ground (arith, e, z))
]

pub Kept-or_else :
    (r r' : Request) (p : Put) (next : Memory → Client → Put)
    → Stays next
    → (is_done p ≡ true → Kept r p)
    → ((c : Client) → Synced c r → is_done (next [] c) ≡ true → Kept r' (next [] c))
    → is_done (or_else p next) ≡ true
    → Kept r' (or_else p next)
Kept-or_else r r' p next k first second z =
    let (z1, e) = or_else_done p next k z in
    let (s, m) = first z1 in
    let e' : or_else p next ≡ next [] (p.1) = e ∙ rw m refl in rw e' (second (p.1) s (rw e' at z))

pub put_settings-Synced :
    (c : Client) (r : Request) (ts : List Setting)
    → Synced c r
    → All (λ t. IsValue (value_of t)) ts
    → is_done (put_settings [] c ts) ≡ true
    → Kept (with_settings r ts) (put_settings [] c ts)
unfolding put_settings with_settings
put_settings-Synced c r [] s h z = (s, refl)
put_settings-Synced c r (t ∷ ts) s h z =
    Kept-or_else (with_setting r t) (with_settings (with_setting r t) ts) (put_setting [] c t)
      (λ m1 c1. put_settings m1 c1 ts) (put_settings-Stays ts) (put_setting-Synced c r t s h.0)
      (λ c1 s1. put_settings-Synced c1 (with_setting r t) ts s1 h.1) z
