-- ===== src/Standard/Clean.antt =====
-- afmpkg/afmpkg-std.c: the session with the security manager, from `begin` to `end`.
use afb_app_manager.Base.{
  ℕ, suc, true, false, Option, none, some, List, [], ◌∷◌, Bytes, ℤ, is_neg, if◌then◌else◌, ◌≡◌,
  refl, ap, arith, Bool-cases, inl, inr, ◌⊎◌,
}
use afb_app_manager.UnitProcess.Corpus.{UnitDesc}
use afb_app_manager.UnitOper.{System, is_zero}
use afb_app_manager.Secmgr.{Call, Library, create, set_id, install, uninstall, destroy}
use afb_app_manager.Secmgr.Sessions.{handle_after}
use afb_app_manager.Package.{Mode, afmpkg_nop, afmpkg_install, afmpkg_uninstall, is_install, Host}
use afb_app_manager.Package.Steps.{Keeps}
use afb_app_manager.Standard.{
  Closure, begin, tagfile, setperm, setplug, setunits, commit, closed, end, with_operations,
}

-- The calls that make what a session asked for effective.
unfoldable pub commits : List Call → ℕ
commits [] = 0
commits (install ∷ cs) = suc (commits cs)
commits (uninstall ∷ cs) = suc (commits cs)
commits (c ∷ cs) = commits cs

abbrev pub committing : Mode → Call
committing mode = if is_install mode then install else uninstall

-- A change of the mode of a file leaves the session.
pub record LeavesSession {J F : Type 0} (host : Host J (Closure F)) : Type 0 where
  pub session_kept : (p : Bytes) (s : Closure F) → (host.disk.chmod p s).1.session ≡ s.session
  pub mode_kept : (p : Bytes) (s : Closure F) → (host.disk.chmod p s).1.mode ≡ s.mode

module _ {F : Type 0} (lib : Library) where
  -- No session, and with one; every call of before followed the rules, and `n` of them committed.
  pub record Idle (n : ℕ) (s : Closure F) : Type 0 where
    pub closed : s.session.is_open ≡ false
    pub lawful : handle_after lib s.session.calls ≡ some false
    pub made : commits s.session.calls ≡ n

  pub record InSession (mode : Mode) (n : ℕ) (s : Closure F) : Type 0 where
    pub opened : s.session.is_open ≡ true
    pub lawful : handle_after lib s.session.calls ≡ some true
    pub made : commits s.session.calls ≡ n
    pub in_mode : s.mode ≡ mode

  -- The last calls are the one that commits, with that code, and the end of its session.
  abbrev pub Committed : Mode → ℤ → Closure F → Type 0
  Committed mode rc s =
      (h : List Call) × (s.session.calls ≡ destroy ∷ committing mode ∷ h)
      × (rc ≡ lib.answer h (committing mode))

  module _ (system : System F) (root : Bytes) where
    pub begin-Idle :
        (appid : Option Bytes) (mode : Mode) (n : ℕ) (s : Closure F)
        → lib.leaves_handle ≡ false
        → Idle n s
        → let (rc, s1) = begin lib system root appid mode s in
          ((is_neg rc ≡ true) × Idle n s1) ⊎ ((is_neg rc ≡ false) × InSession mode n s1)
    unfolding begin handle_after commits
    begin-Idle none mode n s l v = elim (Bool-cases (is_neg (lib.answer s.session.calls create))) [
      | inl e ↦ inl (ground arith)
      | inr e ↦ inr (ground arith)
    ]
    begin-Idle (some id) mode n s l v =
        elim (Bool-cases (is_neg (lib.answer s.session.calls create))) [
          | inl e ↦ inl (ground arith)
          | inr e ↦ elim (Bool-cases (is_neg (lib.answer (create ∷ s.session.calls) (set_id id)))) [
            | inl f ↦ inl (ground arith)
            | inr f ↦ inr (ground arith)
          ]
        ]

    pub tagfile-InSession :
        (mode : Mode) (n : ℕ) (p : Bytes) (t : ℕ) (s : Closure F)
        → InSession mode n s
        → InSession mode n (tagfile lib system root p t s).1
    unfolding tagfile handle_after commits
    tagfile-InSession mode n p t s v = ground arith

    setperm-InSession :
        (mode : Mode) (n : ℕ) (p : Option Bytes) (s : Closure F)
        → InSession mode n s
        → InSession mode n (setperm lib system root p s).1
    unfolding setperm handle_after commits
    setperm-InSession mode n p s v = ground arith

    setplug-InSession :
        (mode : Mode) (n : ℕ) (e i d : Bytes) (s : Closure F)
        → InSession mode n s
        → InSession mode n (setplug lib system root e i d s).1
    unfolding setplug handle_after commits
    setplug-InSession mode n e i d s v = ground arith

    setunits-InSession :
        (mode : Mode) (n : ℕ) (us : List UnitDesc) (s : Closure F)
        → InSession mode n s
        → InSession mode n (setunits lib system root us s).1
    unfolding setunits
    setunits-InSession mode n us s v = record {
      opened = v.opened;
      lawful = v.lawful;
      made = v.made;
      in_mode = v.in_mode;
    }

    chmod-InSession :
        {J : Type 0} (host : Host J (Closure F)) (mode : Mode) (n : ℕ)
        → LeavesSession host
        → (p : Bytes) (s : Closure F) → InSession mode n s
        → InSession mode n (host.disk.chmod p s).1
    chmod-InSession host mode n a p s v = record {
      opened = rw (a.session_kept p s) v.opened;
      lawful = rw (a.session_kept p s) v.lawful;
      made = rw (a.session_kept p s) v.made;
      in_mode = rw (a.mode_kept p s) v.in_mode;
    }

    commit-InSession :
        (mode : Mode) (n : ℕ) (s : Closure F)
        → InSession mode n s
        → let (rc, s1) = commit lib system root s in
          (rc ≡ lib.answer s.session.calls (committing mode))
          × (s1.session.calls ≡ committing mode ∷ s.session.calls)
          × InSession mode (suc n) s1
    unfolding handle_after commits
    commit-InSession afmpkg_nop n s v = ground arith
    commit-InSession afmpkg_install n s v = ground arith
    commit-InSession afmpkg_uninstall n s v = ground arith

    closed-InSession :
        (mode : Mode) (n : ℕ) (s : Closure F)
        → InSession mode n s
        → Idle n (closed lib system root s)
    unfolding handle_after commits
    closed-InSession mode n s v = ground arith

    -- The code of `end`, and whether it commits.
    pub end-InSession :
        (mode : Mode) (n : ℕ) (status : ℤ) (s : Closure F)
        → InSession mode n s
        → let (rc, s1) = end lib system root status s in
          ((is_zero status ≡ true) × Committed mode rc s1 × Idle (suc n) s1)
          ⊎ ((is_zero status ≡ false) × (rc ≡ status) × Idle n s1)
    unfolding end
    end-InSession mode n status s v = elim (Bool-cases (is_zero status)) [
      | inl e ↦
          let (rc, made, done) = commit-InSession mode n s v in
          inl (
            e,
            rw (e, v.opened) (s.session.calls, ap (◌∷◌ destroy) made, rc),
            rw (e, v.opened) (closed-InSession mode (suc n) _ done),
          )
      | inr e ↦ inr (e, rw (e, v.opened) refl, rw (e, v.opened) (closed-InSession mode n s v))
    ]

    pub end-Idle :
        (n : ℕ) (status : ℤ) (s : Closure F)
        → is_neg status ≡ true
        → Idle n s
        → end lib system root status s ≡ (status, s)
    unfolding end
    end-Idle n status s e v = ground arith

    -- Every operation between the two keeps the session, the mode and what is committed.
    pub operations-Keeps :
        {J : Type 0} (host : Host J (Closure F)) (mode : Mode) (n : ℕ)
        → LeavesSession host
        → Keeps (with_operations lib system root host) (InSession mode n)
    operations-Keeps host mode n a = record {
      tagfile = tagfile-InSession mode n;
      setperm = setperm-InSession mode n;
      setplug = setplug-InSession mode n;
      setunits = setunits-InSession mode n;
      chmod = chmod-InSession host mode n a;
    }
