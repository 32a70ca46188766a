-- ===== src/Standard/OnePackage.antt =====
-- afmpkg/afmpkg.c with the operations of afmpkg/afmpkg-std.c: the session of one package.
use afb_app_manager.Base.{
  ℕ, suc, true, false, Option, none, some, ◌∷◌, ◌++◌, Bytes, ℤ, is_neg, if◌then◌else◌, ◌≡◌, refl,
  arith, Bool-cases, inl, inr, ◌⊎◌,
}
use afb_app_manager.UnitOper.{System, is_zero}
use afb_app_manager.Secmgr.{Library}
use afb_app_manager.Package.{Host, State, Reading, unread, was_read, Mode, Afmpkg, Kind, name_of}
use afb_app_manager.Package.Meta.{add_meta_to_manifest, with_metadata}
use afb_app_manager.Package.Security.{operate}
use afb_app_manager.Package.Steps.{body-keeps}
use afb_app_manager.Package.Process.{
  then_step, ended, process_manifest, process_package, read_then, body, appid, manifest_tail,
}
use afb_app_manager.Standard.{Closure, begin, end, with_operations}
use afb_app_manager.Standard.Clean.{
  LeavesSession, Idle, InSession, Committed, begin-Idle, end-InSession, end-Idle, operations-Keeps,
}

pub nonzero : (rc : ℤ) → is_neg rc ≡ true → is_zero rc ≡ false
nonzero rc e = ground arith

module _ {J F : Type 0} (lib : Library) (system : System F) (units_root root : Bytes)
    (plain : Host J (Closure F)) (mode : Mode) where
  abbrev host : Host J (Closure F)
  host = with_operations lib system units_root plain

  -- After a session: one commit more and the code 0; no commit and another code; or a commit that failed,
  -- with its code.
  abbrev pub Ended : ℕ → ℤ × Closure F → Type 0
  Ended n r =
      ((is_zero r.0 ≡ true) × Idle lib (suc n) r.1)
      ⊎ ((is_zero r.0 ≡ false) × Idle lib n r.1)
      ⊎ ((is_zero r.0 ≡ false) × Committed lib mode r.0 r.1 × Idle lib (suc n) r.1)

  abbrev pub world_of : ℤ × State (Closure F) → ℤ × Closure F
  world_of (rc, s) = (rc, s.world)

  -- `process_package` keeps the code of `end` where it is an error.
  kept-Ended :
      (n : ℕ) (rc rc2 : ℤ) (w : Closure F)
      → ((is_zero rc ≡ true) × Committed lib mode rc2 w × Idle lib (suc n) w)
        ⊎ ((is_zero rc ≡ false) × (rc2 ≡ rc) × Idle lib n w)
      → Ended n ((if is_neg rc2 then rc2 else rc), w)
  kept-Ended n rc rc2 w (inl (z, e, i)) = elim (Bool-cases (is_neg rc2)) [
    | inl f ↦ rw f (inr (inr (nonzero rc2 f, e, i)))
    | inr f ↦ rw f (inl (z, i))
  ]
  kept-Ended n rc rc2 w (inr (z, e, i)) = elim (Bool-cases (is_neg rc2)) [
    | inl f ↦ rw f (inr (inl (nonzero rc2 f, i)))
    | inr f ↦ rw f (inr (inl (z, i)))
  ]

  ended-Ended :
      (n : ℕ) (r : ℤ × State (Closure F))
      → InSession lib mode n r.1.world
      → Ended n (world_of (ended host root r))
  ended-Ended n (rc, s) v =
      let (rc2, w) = end lib system units_root rc s.world in
      kept-Ended n rc rc2 w (end-InSession lib system units_root mode n rc s.world v)

  failed-Ended :
      (n : ℕ) (rc : ℤ) (s : State (Closure F))
      → is_neg rc ≡ true
      → Idle lib n s.world
      → Ended n (world_of (ended host root (rc, s)))
  failed-Ended n rc s e v =
      rw (end-Idle lib system units_root n rc s.world e v)
        (kept-Ended n rc rc s.world (inr (nonzero rc e, refl, v)))

  module _ (quiet : lib.leaves_handle ≡ false) (apart : LeavesSession plain) where
    -- `begin`, the steps and `end`.
    session-Ended :
        (id : Option Bytes) (m : J) (n : ℕ) (s : State (Closure F))
        → Idle lib n s.world
        → Ended n (
            world_of (
              ended host root
                (then_step (operate (host.opers.begin id mode) s) (body host root mode m))))
    session-Ended id m n s v =
        let (rc, w) = begin lib system units_root id mode s.world in
        let s1 : State (Closure F) = record s { world = w } in
        elim (begin-Idle lib system units_root id mode n s.world quiet v) [
          | inl (e, i) ↦ rw e (failed-Ended n rc s1 e i)
          | inr (e, i) ↦ rw e (
              ended-Ended n (body host root mode m s1) (
                body-keeps host root (InSession lib mode n)
                  (operations-Keeps lib system units_root plain mode n apart) mode m s1 i))
        ]

    added-Idle :
        (n : ℕ) (s : State (Closure F)) (m : J) (o : Option J)
        → Idle lib n s.world
        → Idle lib n (with_metadata host mode root s m o).1.world
    added-Idle n s m none v = v
    added-Idle n s m (some object) v = v

    meta-Idle :
        (apkg : Afmpkg) (m : J) (n : ℕ) (s : State (Closure F))
        → Idle lib n s.world
        → Idle lib n (add_meta_to_manifest host mode apkg root s m).1.world
    unfolding add_meta_to_manifest
    meta-Idle apkg m n s v = added-Idle n s m _ v

    process_manifest-Ended :
        (apkg : Afmpkg) (m : J) (n : ℕ) (s : State (Closure F))
        → Idle lib n s.world
        → Ended n (world_of (process_manifest host root apkg mode m s))
    unfolding process_manifest
    process_manifest-Ended apkg m n s v =
        let (rc, s1, m1) = add_meta_to_manifest host mode apkg root s m in
        let i : Idle lib n s1.world = meta-Idle apkg m n s v in
        elim (Bool-cases (is_neg rc)) [
          | inl e ↦ rw e (inr (inl (nonzero rc e, i)))
          | inr e ↦ rw e (session-Ended (appid host root m1) m1 n s1 i)
        ]

    read-Ended :
        (apkg : Afmpkg) (r : Reading J) (n : ℕ) (s : State (Closure F))
        → Idle lib n s.world
        → Ended n (world_of (read_then host root apkg mode r s))
    read-Ended apkg (unread k) n s v = inr (inl (refl, v))
    read-Ended apkg (was_read m) n s v = process_manifest-Ended apkg m n s v

    -- Where a `create` that fails leaves no handle, and the change of the mode of a file leaves the
    -- session, `process_package` with no session open leaves none open, and all its calls of
    -- sec-lsm-manager follow the rules. Where its code is 0, one call more commits; where it is another,
    -- none does, or the one that does failed with that code and only the end of its session follows it.
    pub process_package-Ended :
        (apkg : Afmpkg) (kind : Kind) (n : ℕ) (s : State (Closure F))
        → Idle lib n s.world
        → Ended n (world_of (process_package host root apkg mode kind s))
    unfolding process_package
    process_package-Ended apkg kind n s v =
        read-Ended apkg (host.read kind (s.pack ++ b'/' ∷ name_of kind) s.world) n
          (record s { tail = manifest_tail host root kind s }) v
