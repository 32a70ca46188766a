-- ===== src/Secmgr/Sessions.antt =====
-- secmgr/secmgr-wrap.c: the calls of sec-lsm-manager that any use of the wrapper makes.
use afb_app_manager.Base.{
  Bool, true, false, not, Option, none, some, List, [], ◌∷◌, Bytes, ℤ, pos, ebusy, is_neg, ◌≡◌,
  refl, arith,
}
use afb_app_manager.Secmgr.{
  Call, create, set_id, install, uninstall, add_permission, add_path, add_plug, destroy, Library,
  Session, initial, secmgr_end, identify, secmgr_begin, use_handle, secmgr_install,
  secmgr_uninstall, secmgr_permit, secmgr_path, secmgr_plug,
}

-- A client's operations.
pub data Operation : Type 0 where
  begins : Option Bytes → Operation
  ends : Operation
  installs : Operation
  uninstalls : Operation
  permits : Bytes → Operation
  paths : Bytes → Bytes → Operation
  plugs : Bytes → Bytes → Bytes → Operation

module _ (lib : Library) where
  unfoldable pub operate : Operation → Session → Option (ℤ × Session)
  operate (begins id) s = some (secmgr_begin lib id s)
  operate ends s = some (pos 0, secmgr_end s)
  operate installs s = secmgr_install lib s
  operate uninstalls s = secmgr_uninstall lib s
  operate (permits p) s = secmgr_permit lib p s
  operate (paths p t) s = secmgr_path lib p t s
  operate (plugs e i d) s = secmgr_plug lib e i d s

  abbrev session_of : Session → Option (ℤ × Session) → Session
  session_of s none = s
  session_of s (some (rc, t)) = t

  -- The operations in turn, whatever each returns; an abort leaves the session as it was.
  unfoldable pub operate_all : List Operation → Session → Session
  operate_all [] s = s
  operate_all (o ∷ os) s = operate_all os (session_of s (operate o s))

  abbrev after_create : List Call → Option Bool → Option Bool
  after_create cs (some false) = some (not (is_neg (lib.answer cs create)))
  after_create cs _ = none

  abbrev while_open : Bool → Option Bool → Option Bool
  while_open b (some true) = some b
  while_open b _ = none

  -- The rules of sec-lsm-manager, on the calls made so far: a handle is created when there is none, and
  -- used and destroyed when there is one. It tells whether a handle is there; `none` is a broken rule.
  unfoldable pub handle_after : List Call → Option Bool
  handle_after [] = some false
  handle_after (create ∷ cs) = after_create cs (handle_after cs)
  handle_after (destroy ∷ cs) = while_open false (handle_after cs)
  handle_after (set_id i ∷ cs) = while_open true (handle_after cs)
  handle_after (install ∷ cs) = while_open true (handle_after cs)
  handle_after (uninstall ∷ cs) = while_open true (handle_after cs)
  handle_after (add_permission p ∷ cs) = while_open true (handle_after cs)
  handle_after (add_path p t ∷ cs) = while_open true (handle_after cs)
  handle_after (add_plug e i d ∷ cs) = while_open true (handle_after cs)

  abbrev pub IsLawful : Session → Type 0
  IsLawful s = handle_after s.calls ≡ some s.is_open

  secmgr_end-IsLawful : (s : Session) → IsLawful s → IsLawful (secmgr_end s)
  unfolding secmgr_end handle_after
  secmgr_end-IsLawful s v = ground arith

  secmgr_begin-IsLawful :
      (id : Option Bytes) (s : Session)
      → lib.leaves_handle ≡ false
      → IsLawful s
      → IsLawful (secmgr_begin lib id s).1
  unfolding secmgr_begin identify secmgr_end handle_after
  secmgr_begin-IsLawful id s l v = ground arith

  operate-IsLawful :
      (o : Operation) (s : Session)
      → lib.leaves_handle ≡ false
      → IsLawful s
      → IsLawful (session_of s (operate o s))
  unfolding operate
  operate-IsLawful (begins id) s l v = secmgr_begin-IsLawful id s l v
  operate-IsLawful ends s l v = secmgr_end-IsLawful s v
  operate-IsLawful installs s l v = unfold use_handle handle_after in ground arith
  operate-IsLawful uninstalls s l v = unfold use_handle handle_after in ground arith
  operate-IsLawful (permits p) s l v = unfold use_handle handle_after in ground arith
  operate-IsLawful (paths p t) s l v = unfold use_handle handle_after in ground arith
  operate-IsLawful (plugs e i d) s l v = unfold use_handle handle_after in ground arith

  run-IsLawful :
      (os : List Operation) (s : Session)
      → lib.leaves_handle ≡ false
      → IsLawful s
      → IsLawful (operate_all os s)
  unfolding operate_all
  run-IsLawful [] s l v = v
  run-IsLawful (o ∷ os) s l v =
      run-IsLawful os (session_of s (operate o s)) l (operate-IsLawful o s l v)

  -- Where a `create` that fails leaves no handle, any operations from the initial session follow the
  -- rules of sec-lsm-manager: no handle is created while there is one, and none is used or destroyed while
  -- there is none.
  pub operate_all-IsLawful :
      (os : List Operation) → lib.leaves_handle ≡ false → IsLawful (operate_all os initial)
  operate_all-IsLawful os l = run-IsLawful os initial l (unfold handle_after in refl)

  -- Where a `create` that fails leaves no handle, a `secmgr_begin` that fails on a session that is not
  -- open leaves it closed, and one that does not fail leaves it open; on an open session it fails with
  -- -EBUSY and changes nothing.
  pub secmgr_begin_lem :
      (id : Option Bytes) (s : Session)
      → lib.leaves_handle ≡ false
      → (s.is_open ≡ false
          → (secmgr_begin lib id s).1.is_open ≡ not (is_neg (secmgr_begin lib id s).0))
        × (s.is_open ≡ true → secmgr_begin lib id s ≡ (ebusy, s))
  unfolding secmgr_begin identify secmgr_end
  secmgr_begin_lem id s l = ground arith
