-- ===== src/Secmgr.antt =====
-- secmgr/secmgr-wrap.c: the one session with the security manager. `errno` is not modelled.
pub mod Sessions
use afb_app_manager.Base.{
  Bool, true, false, not, ◌||◌, Option, none, some, List, [], ◌∷◌, Bytes, ℤ, pos, ebusy, is_neg,
  if◌then◌else◌,
}

-- The calls of sec-lsm-manager that the wrapper makes.
pub data Call : Type 0 where
  create : Call
  set_id : Bytes → Call
  install : Call
  uninstall : Call
  add_permission : Bytes → Call
  add_path : Bytes → Bytes → Call
  add_plug : Bytes → Bytes → Bytes → Call
  destroy : Call

-- sec-lsm-manager: what a call returns behind the calls made before it, the last one first, and whether a
-- `create` that fails leaves a handle.
pub record Library : Type 0 where
  pub answer : List Call → Call → ℤ
  pub leaves_handle : Bool

-- `is_open` tells that `sm_handle` is not NULL; `calls` has the calls made so far, the last one first.
pub record Session : Type 0 where
  pub is_open : Bool
  pub calls : List Call

abbrev pub initial : Session
initial = record { is_open = false; calls = [] }

abbrev pub called : Call → Session → Session
called c s = record s { calls = c ∷ s.calls }

unfoldable pub secmgr_end : Session → Session
secmgr_end s = if s.is_open then record { is_open = false; calls = destroy ∷ s.calls } else s

module _ (lib : Library) where
  -- The part of `secmgr_begin` behind a `create` that succeeded.
  unfoldable pub identify : ℤ → Option Bytes → Session → ℤ × Session
  unfolding secmgr_end
  identify rc none s = (rc, s)
  identify rc (some id) s =
      let rc2 = lib.answer s.calls (set_id id) in
      let s2 = called (set_id id) s in if is_neg rc2 then (rc2, secmgr_end s2) else (rc2, s2)

  unfoldable pub secmgr_begin : Option Bytes → Session → ℤ × Session
  unfolding identify
  secmgr_begin id s =
      let rc = lib.answer s.calls create in
      let made : Session = record {
        is_open = not (is_neg rc) || lib.leaves_handle;
        calls = create ∷ s.calls;
      } in
      let identified = identify rc id made in
      if s.is_open then (ebusy, s) else if is_neg rc then (rc, made) else identified

  -- `assert(sm_handle != NULL)` and the call; `none` is the abort.
  unfoldable pub use_handle : Call → Session → Option (ℤ × Session)
  use_handle c s = if s.is_open then some (lib.answer s.calls c, called c s) else none

  abbrev pub secmgr_install : Session → Option (ℤ × Session)
  secmgr_install s = use_handle install s

  abbrev pub secmgr_uninstall : Session → Option (ℤ × Session)
  secmgr_uninstall s = use_handle uninstall s

  abbrev pub secmgr_permit : Bytes → Session → Option (ℤ × Session)
  secmgr_permit permission s = use_handle (add_permission permission) s

  abbrev pub secmgr_path : Bytes → Bytes → Session → Option (ℤ × Session)
  secmgr_path pathname pathtype s = use_handle (add_path pathname pathtype) s

  abbrev pub secmgr_plug : Bytes → Bytes → Bytes → Session → Option (ℤ × Session)
  secmgr_plug expdir impid impdir s = use_handle (add_plug expdir impid impdir) s
