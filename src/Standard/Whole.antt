-- ===== src/Standard/Whole.antt =====
-- afmpkg/afmpkg.c with the operations of afmpkg/afmpkg-std.c: every package has a session of its own.
use mathlib.Core.Path.{subst}
use afb_app_manager.Base.{
  ℕ, suc, ◌+◌, ◌≤◌, true, false, ◌&&◌, Option, none, some, List, [], ◌∷◌, ◌++◌, Bytes, ℤ, is_neg,
  length, if◌then◌else◌, ◌≡◌, refl, arith, Bool-cases, inl, inr, ◌⊎◌,
}
use afb_app_manager.PathEntry.{Entry}
use afb_app_manager.PathEntry.Walk.{path_entry_for_each_in_buffer}
use afb_app_manager.UnitOper.{System, is_zero}
use afb_app_manager.Secmgr.{Call, Library}
use afb_app_manager.Secmgr.Sessions.{handle_after}
use afb_app_manager.UnitProcess.Template.{Units}
use afb_app_manager.Afid.{Manager}
use afb_app_manager.Package.{Host, State, Mode, Afmpkg, is_install}
use afb_app_manager.Package.Keeps.{walk-keeps}
use afb_app_manager.Package.Roots.{
  Item, Whole, Run, process_at, process_in, process_rootpkg, process_roots, while_zero, start_of,
  tag_default, added_walk, has_added_path, tag_tree, process_default_tree, process_rest, finish,
  process_found, afmpkg_process, detect_all, rootpkgs_init, root_path, is_too_long, Roots,
}
use afb_app_manager.Package.Process.{process_package}
use afb_app_manager.Standard.{Closure, begin, end, with_operations, initial, std_process}
use afb_app_manager.Standard.Clean.{
  LeavesSession, Idle, InSession, commits, begin-Idle, end-InSession, end-Idle, tagfile-InSession,
}
use afb_app_manager.Standard.OnePackage.{Ended, process_package-Ended, nonzero}
use afb_app_manager.FileTypes.{type_code}
use afb_app_manager.PathType.{path_type_default}

module _ {J F : Type 0} (lib : Library) (system : System F) (units_root root : Bytes)
    (plain : Host J (Closure F)) (mode : Mode) where
  abbrev host : Host J (Closure F)
  host = with_operations lib system units_root plain

  -- After up to `total` sessions: all of them, with a commit each, where the code is 0.
  abbrev pub After : ℕ → ℕ → ℤ × Closure F → Type 0
  After total n (rc, s) =
      ((is_zero rc ≡ true) × Idle lib (n + total) s)
      ⊎ ((is_zero rc ≡ false) × ((k : ℕ) × (k ≤ total) × Idle lib (n + k) s))

  -- Of a run that has a result.
  abbrev pub RunAfter : ℕ → ℕ → Run (Closure F) → Type 0
  RunAfter total n none = Unit
  RunAfter total n (some (rc, w)) = After total n (rc, w.world)

  counted : {s : Closure F} (m n : ℕ) → m ≡ n → Idle lib m s → Idle lib n s
  counted {s} m n e i = subst (λ (k : ℕ). Idle lib k s) e i

  Ended-After :
      (n : ℕ) (r : ℤ × Closure F) → Ended lib system units_root root plain mode n r → After 1 n r
  Ended-After n (rc, s) (inl (z, i)) = inl (z, counted (suc n) (n + 1) (omega arith) i)
  Ended-After n (rc, s) (inr (inl (z, i))) =
      inr (z, (0, omega arith, counted n (n + 0) (omega arith) i))
  Ended-After n (rc, s) (inr (inr (z, e, i))) =
      inr (z, (1, omega arith, counted (suc n) (n + 1) (omega arith) i))

  wider : (total n : ℕ) (r : Run (Closure F)) → RunAfter total (n + 1) r → RunAfter (suc total) n r
  wider total n none a = tt
  wider total n (some (rc, w)) (inl (z, i)) =
      inl (z, counted (n + 1 + total) (n + suc total) (omega arith) i)
  wider total n (some (rc, w)) (inr (z, (k, le, i))) =
      inr (z, (suc k, omega arith, counted (n + 1 + k) (n + suc k) (omega arith) i))

  -- One session, then the others.
  while_zero-After :
      (next : Whole (Closure F) → Run (Closure F)) (total n : ℕ) (r : Run (Closure F))
      → RunAfter 1 n r
      → ((w : Whole (Closure F)) → Idle lib (n + 1) w.world → RunAfter total (n + 1) (next w))
      → RunAfter (suc total) n (while_zero next r)
  while_zero-After next total n none a k = tt
  while_zero-After next total n (some (rc, w)) (inl (z, i)) k =
      rw z (wider total n (next w) (k w i))
  while_zero-After next total n (some (rc, w)) (inr (z, (m, le, i))) k =
      rw z (inr (z, (m, omega arith, i)))

  module _ (quiet : lib.leaves_handle ≡ false) (apart : LeavesSession plain) (apkg : Afmpkg) where
    at-After :
        (w : Whole (Closure F)) (files : Entry) (i : Item) (e : Option Entry) (p : Option Bytes)
        (n : ℕ)
        → Idle lib n w.world
        → RunAfter 1 n (process_at host apkg mode root w files i e p)
    at-After w files i none p n v = tt
    at-After w files i (some e) none n v = tt
    at-After w files i (some e) (some pack) n v =
        let s : State (Closure F) = start_of host apkg mode root w e pack in
        let (rc, t) = process_package host root apkg mode i.type s in
        Ended-After n (rc, t.world)
          (process_package-Ended lib system units_root root plain mode quiet apart apkg i.type n s
            v)

    in-After :
        (w : Whole (Closure F)) (i : Item) (f : Option Entry) (n : ℕ)
        → Idle lib n w.world
        → RunAfter 1 n (process_in host apkg mode root w i f)
    in-After w i none n v = tt
    in-After w i (some files) n v = at-After w files i _ _ n v

    -- The packages in turn, up to the first that fails.
    pub process_roots-After :
        (is : List Item) (n : ℕ) (w : Whole (Closure F))
        → Idle lib n w.world
        → RunAfter (length is) n (process_roots host apkg mode root is w)
    unfolding process_roots process_rootpkg
    process_roots-After [] n w v = inl (refl, counted n (n + 0) (omega arith) v)
    process_roots-After (i ∷ is) n w v =
        while_zero-After (process_roots host apkg mode root is) (length is) n
          (process_in host apkg mode root w i w.files) (in-After w i w.files n v)
          (λ w1 v1. process_roots-After is (n + 1) w1 v1)

    -- The files that are in no package: one session if some of them was added, at an installation.
    abbrev tagged : Entry → ℕ
    tagged files = if is_install mode && has_added_path host apkg mode root files then 1 else 0

    closing-After :
        (n : ℕ) (rc : ℤ) (s : Closure F)
        → InSession lib mode n s
        → After 1 n (end lib system units_root rc s)
    closing-After n rc s v = elim (end-InSession lib system units_root mode n rc s v) [
      | inl (z, e, i) ↦ elim (Bool-cases (is_zero (end lib system units_root rc s).0)) [
        | inl f ↦ inl (f, counted (suc n) (n + 1) (omega arith) i)
        | inr f ↦ inr (f, (1, omega arith, counted (suc n) (n + 1) (omega arith) i))
      ]
      | inr (z, e, i) ↦ inr (rw e z, (0, omega arith, counted n (n + 0) (omega arith) i))
    ]

    tag_tree-After :
        (files : Entry) (n : ℕ) (s : Closure F)
        → Idle lib n s
        → After 1 n (tag_tree host apkg mode root files s)
    unfolding tag_tree
    tag_tree-After files n s v =
        let (rc, s1) = begin lib system units_root none mode s in
        let (rc2, s2) =
          path_entry_for_each_in_buffer (added_walk host apkg mode root) false
            (tag_default host apkg mode root) files [] s1 in
        elim (begin-Idle lib system units_root none mode n s quiet v) [
          | inl (e, i) ↦
              rw (e, end-Idle lib system units_root n rc s1 e i)
                (inr (nonzero rc e, (0, omega arith, counted n (n + 0) (omega arith) i)))
          | inr (e, i) ↦ rw e (
              closing-After n rc2 s2 (
                walk-keeps (InSession lib mode n) (tag_default host apkg mode root)
                  (λ t x p g.
                    tagfile-InSession lib system units_root mode n (root ++ p)
                      (type_code path_type_default) t g)
                  (added_walk host apkg mode root) false files [] s1 i))
        ]

    default-After :
        (files : Entry) (n : ℕ) (s : Closure F)
        → Idle lib n s
        → After (tagged files) n (process_default_tree host apkg mode root files s)
    unfolding process_default_tree
    default-After files n s v =
        elim (Bool-cases (is_install mode && has_added_path host apkg mode root files)) [
          | inl e ↦ rw e (tag_tree-After files n s v)
          | inr e ↦ rw e (inl (refl, counted n (n + 0) (omega arith) v))
        ]

    -- No session is open, and the rules were followed.
    abbrev Clean : Closure F → Type 0
    Clean s = (k : ℕ) × Idle lib k s

    abbrev RunClean : Run (Closure F) → Type 0
    RunClean none = Unit
    RunClean (some (rc, w)) = Clean w.world

    After-Clean : (total n : ℕ) (r : ℤ × Closure F) → After total n r → Clean r.1
    After-Clean total n (rc, s) (inl (z, i)) = (n + total, i)
    After-Clean total n (rc, s) (inr (z, (k, le, i))) = (n + k, i)

    rest-Clean :
        (rc : ℤ) (w : Whole (Closure F)) (f : Option Entry)
        → Clean w.world
        → Clean (process_rest host apkg mode root rc w f).1.world
    rest-Clean rc w none c = c
    rest-Clean rc w (some files) (k, i) =
        After-Clean (tagged files) k (process_default_tree host apkg mode root files w.world)
          (default-After files k w.world i)

    finish-Clean :
        (total n : ℕ) (r : Run (Closure F))
        → RunAfter total n r
        → RunClean (finish host apkg mode root r)
    finish-Clean total n none a = tt
    finish-Clean total n (some (rc, w)) a =
        let c = After-Clean total n (rc, w.world) a in
        elim (Bool-cases (is_neg rc)) [ inl e ↦ rw e c | inr e ↦ rw e (rest-Clean rc w w.files c) ]

    found-Clean :
        (found : ℤ × Roots) (n : ℕ) (w : Whole (Closure F))
        → Idle lib n w.world
        → RunClean (process_found host apkg mode root found w)
    unfolding process_found
    found-Clean (rc, (r, m)) n w v = elim (Bool-cases (is_neg rc)) [
      | inl e ↦ rw e (n, v)
      | inr e ↦ rw e (
          finish-Clean (length r.roots) n _
            (process_roots-After r.roots n (record w { units = record w.units { memory = m } }) v))
    ]

module _ {J F : Type 0} (lib : Library) (system : System F) (units_root : Bytes)
    (plain : Host J (Closure F)) (quiet : lib.leaves_handle ≡ false) (apart : LeavesSession plain)
    (mode : Mode) (apkg : Afmpkg) where
  process-Clean :
      (entries : Entry) (n : ℕ) (w : Whole (Closure F))
      → Idle lib n w.world
      → RunClean lib system units_root
          (root_path apkg.root)
          plain
          mode
          quiet
          apart
          apkg
          (afmpkg_process (with_operations lib system units_root plain) apkg mode entries w)
  unfolding afmpkg_process
  process-Clean entries n w v = elim (Bool-cases (is_too_long apkg.root)) [
    | inl e ↦ rw e (n, v)
    | inr e ↦ rw e (
        found-Clean lib system units_root (root_path apkg.root) plain mode quiet apart apkg
          (detect_all entries (rootpkgs_init, w.units.memory)) n (record w { files = some entries })
          v)
  ]

  -- Where a `create` that fails leaves no handle, and the change of the mode of a file leaves the session,
  -- an installation or a removal of whatever packages that has a result, failing or not, leaves no session
  -- open, and all calls of sec-lsm-manager, with those made before, follow its rules.
  pub std_process-IsClean :
      (entries : Entry) (units : Units) (afids : Manager) (calls : List Call) (files : F) (rc : ℤ)
      (w : Whole (Closure F))
      → handle_after lib calls ≡ some false
      → std_process lib system units_root plain mode apkg entries units afids calls files
        ≡ some (rc, w)
      → (w.world.session.is_open ≡ false) × (handle_after lib w.world.session.calls ≡ some false)
  unfolding std_process
  std_process-IsClean entries units afids calls files rc w lawful e =
      let start : Whole (Closure F) = record {
        files = none;
        units = units;
        afids = afids;
        world = initial calls files;
      } in
      let began : Idle lib (commits calls) start.world = record {
        closed = refl;
        lawful = lawful;
        made = refl;
      } in
      let (k, i) =
        subst (RunClean lib system units_root (root_path apkg.root) plain mode quiet apart apkg) e
          (process-Clean entries (commits calls) start began) in
      (i.closed, i.lawful)
