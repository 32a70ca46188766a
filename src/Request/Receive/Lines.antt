-- ===== src/Request/Receive/Lines.antt =====
-- afmpkg/afmpkg-server.c: `receive` on chunks that end with a newline, and on a line in two chunks.
use mathlib.Core.List.{append-nil, append_assoc}
use afb_app_manager.Base.{
  true, ℕ, zero, suc, ◌≤◌, Bool, false, ◌||◌, List, [], ◌∷◌, ◌++◌, Bytes, pos, is_neg, Memory,
  length, length-append, take, take-length, take-append_le, All, ◌==◌, if◌then◌else◌, ◌≡◌, ◌≢◌,
  refl, ◌∙◌, ap, arith, Bool-cases, inl, inr, ◌||◌,
}
use afb_app_manager.Request.{Request, afmpkg_request_add_line}
use mathlib.Core.List.{map}
use afb_app_manager.Request.Receive.{keep, Recv, got, Scan, scan, take_chunk, receive}

-- A newline stands in the text.
unfoldable pub has_newline : Bytes → Bool
has_newline [] = false
has_newline (c ∷ cs) = c == b'\n' || has_newline cs

-- The lines with a newline behind each.
abbrev pub unlines : List Bytes → Bytes
unlines [] = []
unlines (l ∷ ls) = l ++ (b'\n' ∷ unlines ls)

abbrev pub AreLines : List Bytes → Type 0
AreLines = All (λ l. has_newline l ≡ false)

-- Every line that is not empty, in turn, up to the first that is refused.
unfoldable pub obey_lines : Memory → Request → List Bytes → Scan
obey_lines m req [] = record { rc = pos 0; request = req; kept = []; memory = m }
obey_lines m req ([] ∷ ls) = obey_lines m req ls
obey_lines m req ((c ∷ cs) ∷ ls) =
    let (rc, req', m') = afmpkg_request_add_line m req (c ∷ cs) in
    let refused : Scan = record { rc = rc; request = req'; kept = []; memory = m' } in
    let rest = obey_lines m' req' ls in if is_neg rc then refused else rest

scan_plain :
    (t passed line rest : Bytes) (m : Memory) (req : Request)
    → has_newline t ≡ false
    → scan m req passed line (t ++ rest) ≡ scan m req passed (line ++ t) rest
unfolding scan has_newline
scan_plain [] passed line rest m req h = rw append-nil
scan_plain (c ∷ cs) passed line rest m req h =
    ground (arith, scan_plain cs passed (line ++ c ∷ []) rest m req)
    ∙ ap (λ x. scan m req passed x rest) (append_assoc line (c ∷ []) cs)

-- What the loop does at a newline.
at_newline : Memory → Request → Bytes → Bytes → Bytes → Scan
at_newline m req passed [] rest = scan m req (passed ++ b'\n' ∷ []) [] rest
at_newline m req passed (c ∷ cs) rest =
    let (rc, req', m') = afmpkg_request_add_line m req (c ∷ cs) in
    let refused : Scan = record { rc = rc; request = req'; kept = []; memory = m' } in
    let after = scan m' req' (passed ++ (c ∷ cs ++ 0 ∷ [])) [] rest in
    if is_neg rc then refused else after

scan_newline :
    (m : Memory) (req : Request) (passed line rest : Bytes)
    → scan m req passed line (b'\n' ∷ rest) ≡ at_newline m req passed line rest
unfolding scan at_newline
scan_newline m req passed [] rest = refl
scan_newline m req passed (c ∷ cs) rest = refl

scan_line :
    (m : Memory) (req : Request) (passed line rest : Bytes)
    → has_newline line ≡ false
    → scan m req passed [] (line ++ b'\n' ∷ rest) ≡ at_newline m req passed line rest
scan_line m req passed line rest h =
    scan_plain line passed [] (b'\n' ∷ rest) m req h ∙ scan_newline m req passed line rest

-- The rest of a call of `receive` behind the loop on a chunk.
and_receive : List Recv → Scan → Scan
and_receive rest s = if is_neg s.rc then s else receive s.memory s.request s.kept rest

stopped : (s x : Scan) → is_neg s.rc ≡ true → (if is_neg s.rc then s else x) ≡ s
stopped s x e = rw e refl

receive_step :
    (m : Memory) (req : Request) (chunk : Bytes) (rest : List Recv)
    → chunk ≢ []
    → receive m req [] (got chunk ∷ rest) ≡ and_receive rest (scan m req [] [] chunk)
unfolding receive take_chunk and_receive
receive_step m req [] rest h = absurd (h refl)
receive_step m req (c ∷ cs) rest h = rw take-length refl

unlines_ne : (ls : List Bytes) → ls ≢ [] → unlines ls ≢ []
unlines_ne [] h e = h refl
unlines_ne ([] ∷ ls) h e = cc
unlines_ne ((c ∷ cs) ∷ ls) h e = cc

-- What the buffer holds behind whole lines that were read.
abbrev read_line : Bytes → Bytes
read_line [] = b'\n' ∷ []
read_line (c ∷ cs) = c ∷ cs ++ 0 ∷ []

abbrev read_lines : List Bytes → Bytes
read_lines [] = []
read_lines (l ∷ ls) = read_line l ++ read_lines ls

-- Nothing more reaches a request.
abbrev Unread : Bytes → List Recv → Type 0
Unread kept rest =
    (m : Memory) (req : Request)
    → receive m req kept rest ≡ record { rc = pos 0; request = req; kept = []; memory = m }

and_receive-unlines :
    (ls : List Bytes) (m : Memory) (req : Request) (passed : Bytes) (rest : List Recv)
    → AreLines ls
    → Unread (passed ++ read_lines ls) rest
    → and_receive rest (scan m req passed [] (unlines ls)) ≡ obey_lines m req ls
unfolding obey_lines at_newline and_receive
and_receive-unlines [] m req passed rest h u = unfold scan in rw append-nil at (u m req)
and_receive-unlines ([] ∷ ls) m req passed rest h u =
    rw (scan_line m req passed [] (unlines ls) (unfold has_newline in refl))
      (and_receive-unlines ls m req (passed ++ b'\n' ∷ []) rest h.1 (rw append_assoc u))
and_receive-unlines ((c ∷ cs) ∷ ls) m req passed rest h u =
    let (rc, req', m') = afmpkg_request_add_line m req (c ∷ cs) in
    rw (scan_line m req passed (c ∷ cs) (unlines ls) h.0) (elim (Bool-cases (is_neg rc)) [
      | inl e ↦ rw e (stopped (record { rc = rc; request = req'; kept = []; memory = m' }) _ e)
      | inr e ↦ rw e (
          and_receive-unlines ls m' req' (passed ++ (c ∷ cs ++ 0 ∷ [])) rest h.1
            (rw append_assoc u))
    ])

pub obey_lines-append :
    (xs ys : List Bytes) (m : Memory) (req : Request)
    → obey_lines m req (xs ++ ys)
      ≡ (let s = obey_lines m req xs in if is_neg s.rc then s else obey_lines s.memory s.request ys)
unfolding obey_lines
obey_lines-append [] ys m req = refl
obey_lines-append ([] ∷ xs) ys m req = obey_lines-append xs ys m req
obey_lines-append ((c ∷ cs) ∷ xs) ys m req =
    let (rc, req', m') = afmpkg_request_add_line m req (c ∷ cs) in
    ground (arith, obey_lines-append xs ys m' req')

append_ne : (b : Bytes) → b ++ b'\n' ∷ [] ≢ []
append_ne [] e = cc
append_ne (c ∷ cs) e = cc

keep-nil : (t : Bytes) → keep [] t ≡ t
keep-nil [] = refl
keep-nil (c ∷ cs) = refl

-- A round whose bytes have no newline keeps them all.
receive_unread :
    (m : Memory) (req : Request) (kept chunk : Bytes) (rest : List Recv)
    → chunk ≢ []
    → has_newline (take (length chunk) (kept ++ chunk)) ≡ false
    → receive m req kept (got chunk ∷ rest)
      ≡ receive m req (take (length chunk) (kept ++ chunk)) rest
unfolding scan
receive_unread m req kept [] rest h n = absurd (h refl)
receive_unread m req kept (c ∷ cs) rest h n =
    let t = take (length (c ∷ cs)) (kept ++ c ∷ cs) in
    let read : scan m req [] [] t ≡ record { rc = pos 0; request = req; kept = t; memory = m } =
      rw append-nil at (scan_plain t [] [] [] m req n)
      ∙ ap (λ k. record { rc = pos 0; request = req; kept = k; memory = m }) (keep-nil t) in
    unfold receive take_chunk in rw read

has_newline-take : (n : ℕ) (t : Bytes) → has_newline t ≡ false → has_newline (take n t) ≡ false
unfolding has_newline
has_newline-take zero t h = refl
has_newline-take (suc n) [] h = refl
has_newline-take (suc n) (c ∷ cs) h = ground (arith, has_newline-take n cs)

pub has_newline-append : (a b : Bytes) → has_newline (a ++ b) ≡ (has_newline a || has_newline b)
unfolding has_newline
has_newline-append [] b = refl
has_newline-append (c ∷ cs) b = ground (arith, has_newline-append cs b)

-- As many bytes as the second chunk has, of both chunks, stop before the newline.
cut_before_newline :
    (a b : Bytes)
    → a ≢ []
    → has_newline a ≡ false
    → has_newline b ≡ false
    → has_newline (take (length (b ++ b'\n' ∷ [])) (a ++ (b ++ b'\n' ∷ []))) ≡ false
cut_before_newline [] b h na nb = absurd (h refl)
cut_before_newline (c ∷ cs) b h na nb =
    let n = length (b ++ b'\n' ∷ []) in
    let short : n ≤ length ((c ∷ cs) ++ b) =
      omega (arith, length-append b (b'\n' ∷ []), length-append (c ∷ cs) b) in
    rw (← append_assoc (c ∷ cs) b (b'\n' ∷ [])) (
      rw (take-append_le n ((c ∷ cs) ++ b) (b'\n' ∷ []) short)
        (has_newline-take n ((c ∷ cs) ++ b) (rw (has_newline-append (c ∷ cs) b, na) nb)))

-- A line that is cut in two chunks, the second one with its newline, is lost: `receive` returns 0,
-- no line has reached the request, and the memory is untouched.
pub receive_split_line :
    (m : Memory) (req : Request) (a b : Bytes)
    → a ≢ []
    → has_newline a ≡ false
    → has_newline b ≡ false
    → ((receive m req [] (got a ∷ got (b ++ b'\n' ∷ []) ∷ [])).rc ≡ pos 0)
      × ((receive m req [] (got a ∷ got (b ++ b'\n' ∷ []) ∷ [])).request ≡ req)
      × ((receive m req [] (got a ∷ got (b ++ b'\n' ∷ []) ∷ [])).memory ≡ m)
receive_split_line m req a b h na nb =
    rw (receive_unread m req [] a (got (b ++ b'\n' ∷ []) ∷ []) h (rw take-length na)) (
      rw take-length (
        rw
          (receive_unread m req a (b ++ b'\n' ∷ []) [] (append_ne b)
            (cut_before_newline a b h na nb))
          (unfold receive in (refl, refl, refl))))

length-take : (n : ℕ) (t : Bytes) → n ≤ length t → length (take n t) ≡ n
length-take zero t h = refl
length-take (suc n) [] h = absurd (omega arith)
length-take (suc n) (c ∷ cs) h = ap suc (length-take n cs (omega arith))

-- Every piece is no longer than the one before it, the first one than a length.
abbrev pub Shrinking : ℕ → List Bytes → Type 0
Shrinking n [] = Unit
Shrinking n (c ∷ cs) = (length c ≤ n) × Shrinking (length c) cs

-- They are not looked at behind as many bytes without a newline.
Shrinking-Unread :
    (cs : List Bytes) (kept : Bytes)
    → has_newline kept ≡ false
    → Shrinking (length kept) cs
    → Unread kept (map got cs)
Shrinking-Unread [] kept h v = λ m req. unfold receive in refl
Shrinking-Unread ([] ∷ cs) kept h v = λ m req. unfold receive in refl
Shrinking-Unread ((c ∷ cs) ∷ more) kept h (le, v) = λ m req.
    let n = length (c ∷ cs) in
    let e : take n (kept ++ c ∷ cs) ≡ take n kept = take-append_le n kept (c ∷ cs) le in
    let plain : has_newline (take n kept) ≡ false = has_newline-take n kept h in
    let k : length (take n kept) ≡ n = length-take n kept le in
    receive_unread m req kept (c ∷ cs) (map got more) (λ x. cc) (rw e plain)
    ∙ rw e (Shrinking-Unread more (take n kept) plain (rw k v) m req)

has_newline-read_lines :
    (ls : List Bytes) → AreLines ls → All (λ l. l ≢ []) ls → has_newline (read_lines ls) ≡ false
unfolding has_newline
has_newline-read_lines [] h ne = refl
has_newline-read_lines ([] ∷ ls) h ne = absurd (ne.0 refl)
has_newline-read_lines ((c ∷ cs) ∷ ls) h ne =
    has_newline-append (c ∷ cs ++ 0 ∷ []) (read_lines ls)
    ∙ rw (has_newline-append (c ∷ cs) (0 ∷ []), h.0) (has_newline-read_lines ls h.1 ne.1)

length-read_lines : (ls : List Bytes) → length (read_lines ls) ≡ length (unlines ls)
length-read_lines [] = refl
length-read_lines ([] ∷ ls) = omega (arith, length-read_lines ls)
length-read_lines ((c ∷ cs) ∷ ls) = omega (
  arith,
  length-append (c ∷ cs ++ 0 ∷ []) (read_lines ls),
  length-append (c ∷ cs) (0 ∷ []),
  length-append (c ∷ cs) (b'\n' ∷ unlines ls),
  length-read_lines ls,
)

take_lines :
    (ls : List Bytes) (m : Memory) (req : Request) (rest : List Recv)
    → AreLines ls
    → ls ≢ []
    → Unread (read_lines ls) rest
    → receive m req [] (got (unlines ls) ∷ rest) ≡ obey_lines m req ls
take_lines ls m req rest h ne u =
    receive_step m req (unlines ls) rest (unlines_ne ls ne)
    ∙ and_receive-unlines ls m req [] rest h u

-- A request that comes in one piece of whole lines, at least one, is what the lines do in turn, up to the
-- first that is refused; empty lines are passed over.
pub receive-unlines :
    (ls : List Bytes) (m : Memory) (req : Request)
    → AreLines ls
    → ls ≢ []
    → receive m req [] (got (unlines ls) ∷ []) ≡ obey_lines m req ls
receive-unlines ls m req h ne = take_lines ls m req [] h ne (λ m' r. unfold receive in refl)

-- Where the first piece that is received is a row of whole lines, at least one and none empty, and every
-- other piece is no longer than the one before it, `receive` does exactly what the lines of the first piece
-- do in turn, up to the first that is refused: nothing of the other pieces reaches the request.
pub receive_first_piece :
    (ls : List Bytes) (more : List Bytes) (m : Memory) (req : Request)
    → AreLines ls
    → ls ≢ []
    → All (λ l. l ≢ []) ls
    → Shrinking (length (unlines ls)) more
    → receive m req [] (got (unlines ls) ∷ map got more) ≡ obey_lines m req ls
receive_first_piece ls more m req h ne full v = take_lines ls m req (map got more) h ne (
    Shrinking-Unread more (read_lines ls) (has_newline-read_lines ls h full)
      (rw (length-read_lines ls) v))
