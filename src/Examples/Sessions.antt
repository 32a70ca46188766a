-- ===== src/Examples/Sessions.antt =====
-- Sessions of secmgr/secmgr-wrap.c with a library that refuses one identifier.
use afb_app_manager.Base.{false, none, some, List, [], ◌∷◌, codes, ℤ, pos, neg, ◌≡◌, refl}
use afb_app_manager.Secmgr.{
  Call, create, set_id, destroy, Library, initial, secmgr_begin, secmgr_end, identify,
}
use afb_app_manager.Secmgr.Sessions.{
  Operation, begins, ends, permits, installs, operate_all, IsLawful, operate_all-IsLawful,
}

abbrev answer : List Call → Call → ℤ
answer cs (set_id []) = neg 22
answer (destroy ∷ cs) create = neg 12
answer cs _ = pos 0

abbrev library : Library
library = record { answer = answer; leaves_handle = false }

abbrev uses : List Operation
uses =
    begins (some [])
    ∷ permits (codes "p")
    ∷ begins (some (codes "id"))
    ∷ begins none
    ∷ permits (codes "p")
    ∷ installs
    ∷ ends
    ∷ ends
    ∷ []

operate_all-IsLawful_example : IsLawful library (operate_all library uses initial)
operate_all-IsLawful_example = operate_all-IsLawful library uses refl

refused :
    secmgr_begin library (some []) initial
    ≡ (neg 22, record { is_open = false; calls = destroy ∷ set_id [] ∷ create ∷ [] })
unfolding secmgr_begin identify secmgr_end
refused = refl
