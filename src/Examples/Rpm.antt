-- ===== src/Examples/Rpm.antt =====
-- A transaction of RPM that removes a package and adds another.
use afb_app_manager.Base.{
  false, true, none, some, List, [], ◌∷◌, ◌++◌, Bytes, codes, pos, length, c_str, digits_onto, ◌≡◌,
  refl, arith,
}
use mathlib.Core.List.{map}
use afb_app_manager.Request.Receive.Lines.{has_newline}
use afb_app_manager.Client.{
  Client, op_add, op_remove, unstarted, buffer0_size, put_key_val_nl, afmpkg_client_begin,
  afmpkg_client_end, afmpkg_client_put_file, afmpkg_client_put_transid, put_key_val_nl_memo,
}
use afb_app_manager.Client.Composed.{IsValue, put_settings, put_setting}
use afb_app_manager.RpmPlugin.{
  Element, Transaction, Record, Plugin, tr_added, tr_removed, tr_other, make_message,
  record_elements, numbered, fresh, for_each_record,
}
use afb_app_manager.RpmPlugin.Numbered.{removes}
use afb_app_manager.RpmPlugin.Sent.{plan, send_all, kept_onto, transact, restart}
use afb_app_manager.RpmPlugin.Transacted.{transact-plan, index_of, numbers_from}
use afb_app_manager.RpmPlugin.Received.{IsComposed, AllHeard, numbered-AllHeard}

abbrev client : Client
client = record {
  buffer = [];
  moved = false;
  heap = λ i. b'#';
  size = buffer0_size;
  operation = op_add;
  state = unstarted;
  rootdir_put = false;
  transid_put = false;
  redpakid_put = false;
}

-- The world is the texts that were sent, the last one first.
abbrev plugin : Plugin (List Bytes)
plugin = record {
  env_transid = some (codes "T1");
  env_redpakid = none;
  dial = λ c sent. (pos 1, c.buffer ∷ sent);
  blank = client;
}

abbrev new : Element
new = record { type = tr_added; name = codes "new"; files = codes "/n" ∷ [] }

abbrev old : Element
old = record { type = tr_removed; name = codes "old"; files = codes "/o" ∷ [] }

abbrev transaction : Transaction
transaction = record {
  ts = 1;
  root_dir = none;
  elements = new ∷ record { type = tr_other; name = []; files = [] } ∷ old ∷ [];
  test = false;
  nopreun = false;
  nopost = false;
}

-- A record of another transaction.
abbrev other : Record
other = record { ts = 2; index = 1; count = 1; te = new }

transact-plan_example :
    let es = kept_onto plugin transaction transaction.elements [] in
    let removals = plan plugin transaction tr_removed (length es) 0 es in
    let additions = plan plugin transaction tr_added (length es) (removes es) es in
    (transact plugin transaction (other ∷ []) [] [] ≡ (
      true,
      other ∷ [],
      send_all plugin transaction op_add additions (
          restart plugin transaction (
            send_all plugin transaction op_remove removals
              (record { is_ok = true; memory = []; world = [] }))),
    ))
    × (map index_of removals ++ map index_of additions ≡ numbers_from 0 (length es))
transact-plan_example = transact-plan plugin transaction (other ∷ []) [] refl refl (refl, tt)

IsValue-codes : (t : Bytes) → has_newline t ≡ false → c_str t ≡ t → IsValue t
IsValue-codes t u w = record { unbroken = u; whole = w }

abbrev removal : Record
removal = record { ts = 1; index = 1; count = 2; te = old }

abbrev addition : Record
addition = record { ts = 1; index = 2; count = 2; te = new }

old-IsComposed : IsComposed plugin transaction client op_remove removal
unfolding has_newline c_str make_message put_settings put_setting afmpkg_client_begin
    afmpkg_client_end afmpkg_client_put_file afmpkg_client_put_transid put_key_val_nl_memo
    put_key_val_nl digits_onto
old-IsComposed = record {
  name_value = IsValue-codes (codes "old") refl refl;
  setting_values =
      (IsValue-codes (codes "T1") refl refl, (IsValue-codes (codes "/o") refl refl, tt));
  succeeded = refl;
  stayed = refl;
}

new-IsComposed : IsComposed plugin transaction client op_add addition
unfolding has_newline c_str make_message put_settings put_setting afmpkg_client_begin
    afmpkg_client_end afmpkg_client_put_file afmpkg_client_put_transid put_key_val_nl_memo
    put_key_val_nl digits_onto
new-IsComposed = record {
  name_value = IsValue-codes (codes "new") refl refl;
  setting_values =
      (IsValue-codes (codes "T1") refl refl, (IsValue-codes (codes "/n") refl refl, tt));
  succeeded = refl;
  stayed = refl;
}

recorded :
    record_elements plugin transaction [] transaction.elements [] 0
    ≡ (true, fresh plugin transaction old ∷ fresh plugin transaction new ∷ [], 2, [])
unfolding record_elements
recorded = refl

requests :
    numbered plugin transaction (fresh plugin transaction old ∷ fresh plugin transaction new ∷ []) 2
    ≡ removal ∷ addition ∷ []
unfolding for_each_record
requests = refl

numbered-AllHeard_example :
    let (done, rs, n, m) = record_elements plugin transaction [] transaction.elements [] 0 in
    AllHeard plugin transaction client n (numbered plugin transaction rs n)
unfolding record_elements for_each_record
numbered-AllHeard_example =
    numbered-AllHeard plugin transaction client (omega arith) (old-IsComposed, (new-IsComposed, tt))
