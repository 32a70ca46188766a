-- ===== src/Examples/Clients.antt =====
-- A client that asks for the installation of a package of two files.
use afb_app_manager.Base.{
  ◌<◌, ◌≡◌, refl, arith, false, List, [], ◌∷◌, ◌++◌, codes, pos, c_str, digits_onto,
}
use afb_app_manager.Request.{initial, ready}
use afb_app_manager.Request.Receive.{receive, got}
use afb_app_manager.Request.Receive.Lines.{has_newline}
use afb_app_manager.Client.{
  Client, started, unstarted, op_add, put_key_val_nl, afmpkg_client_init, afmpkg_client_begin,
  afmpkg_client_end, afmpkg_client_put_file, afmpkg_client_put_transid, put_key_val_nl_memo,
}
use afb_app_manager.Client.Composed.{
  Setting, file, transid, compose, put_settings, put_setting, with_settings, begun, IsValue,
}
use afb_app_manager.Client.Served.{receive-compose}
use afb_app_manager.Client.Growth.{put_key_val_nl-started}

abbrev client : Client
client = afmpkg_client_init (record {
  buffer = [];
  moved = false;
  heap = λ i. 35;
  size = 0;
  operation = op_add;
  state = unstarted;
  rootdir_put = false;
  transid_put = false;
  redpakid_put = false;
})

abbrev settings : List Setting
settings = file (codes "/bin/a") ∷ transid (codes "T1") ∷ file (codes "/b") ∷ []

name-IsValue : IsValue (codes "app")
unfolding has_newline c_str
name-IsValue = record { unbroken = refl; whole = refl }

bin-IsValue : IsValue (codes "/bin/a")
unfolding has_newline c_str
bin-IsValue = record { unbroken = refl; whole = refl }

id-IsValue : IsValue (codes "T1")
unfolding has_newline c_str
id-IsValue = record { unbroken = refl; whole = refl }

lib-IsValue : IsValue (codes "/b")
unfolding has_newline c_str
lib-IsValue = record { unbroken = refl; whole = refl }

composed : (compose client op_add (codes "app") 1 2 settings).0 ≡ pos 0
unfolding compose put_settings put_setting afmpkg_client_begin afmpkg_client_end
    afmpkg_client_put_file afmpkg_client_put_transid put_key_val_nl_memo put_key_val_nl digits_onto
composed = refl

unmoved : (compose client op_add (codes "app") 1 2 settings).1.moved ≡ false
unfolding compose put_settings put_setting afmpkg_client_begin afmpkg_client_end
    afmpkg_client_put_file afmpkg_client_put_transid put_key_val_nl_memo put_key_val_nl digits_onto
unmoved = refl

receive-compose_example :
    receive [] initial [] (got (compose client op_add (codes "app") 1 2 settings).1.buffer ∷ [])
    ≡ record {
      rc = pos 0;
      request = record (with_settings (begun op_add (codes "app") 1 2) settings) { state = ready };
      kept = [];
      memory = [];
    }
receive-compose_example =
    receive-compose client op_add (codes "app") 1 2 settings name-IsValue (omega arith)
      (omega arith) (omega arith) (bin-IsValue, (id-IsValue, (lib-IsValue, tt))) composed unmoved

abbrev full : Client
full = record client { buffer = codes "PACKAGE a" ++ b'\n' ∷ []; size = 12; state = started }

put_key_val_nl-started_example :
    ((put_key_val_nl [] full (codes "FILE") (codes "/b")).0 ≡ pos 0)
    × ((put_key_val_nl [] full (codes "FILE") (codes "/b")).1.buffer
        ≡ codes "##########FILE /b" ++ b'\n' ∷ [])
    × (18 < (put_key_val_nl [] full (codes "FILE") (codes "/b")).1.size)
put_key_val_nl-started_example =
    put_key_val_nl-started full (codes "FILE") (codes "/b") refl (omega arith) (omega arith)
