-- ===== src/Examples/Numbers.antt =====
-- The allocation of utils/manage-afid.c on small inputs.
use afb_app_manager.Base.{[], ◌∷◌, true, false, pos}
use afb_app_manager.Afid.{Array, Scan, Manager, update_afids, init_afid_manager, get_new_afid}
use afb_app_manager.Afid.New.{IsNew, get_new_afid-IsNew, update_afids-IsArray}

-- The numbers 1, 2 and 4 are in use, and 3000 is not one.
abbrev three_used : Scan
three_used = record { system_ids = 1 ∷ 2 ∷ []; user_ids = 4 ∷ 3000 ∷ []; rcs = pos 0; rcu = pos 0 }

abbrev nothing_used : Scan
nothing_used = record { system_ids = []; user_ids = []; rcs = pos 0; rcu = pos 0 }

abbrev filled : Array
filled = (update_afids true three_used).1

abbrev started : Manager
started = record { init_done = false; array = (update_afids true nothing_used).1 }

get_new_afid-IsNew_example :
    IsNew false false
      (init_afid_manager true three_used started).1.array
      (update_afids true nothing_used).1
      (get_new_afid three_used nothing_used started)
unfolding init_afid_manager update_afids
get_new_afid-IsNew_example =
    get_new_afid-IsNew three_used nothing_used started (update_afids-IsArray true nothing_used)
