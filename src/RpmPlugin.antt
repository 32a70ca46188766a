-- ===== src/RpmPlugin.antt =====
-- rpm-plugin/redpesk.c, built without DIRECT_AFMPKG: the plugin of RPM records the packages of a
-- transaction, numbers them, and sends a request for each one to the installer.
pub mod Numbered
pub mod Sent
pub mod Transacted
pub mod Received
use afb_app_manager.Base.{
  ℕ, zero, suc, Bool, true, false, not, ◌&&◌, ◌||◌, Option, none, some, List, [], ◌∷◌, ◌++◌, Bytes,
  ℤ, pos, Memory, alloc, is_neg, ◌==◌, if◌then◌else◌,
}
use mathlib.Core.List.{map}
use afb_app_manager.Client.{
  Client, Operation, op_add, op_remove, op_check_add, op_check_remove, Put, or_else,
  afmpkg_client_init, afmpkg_client_begin, afmpkg_client_end,
}
use afb_app_manager.Client.Composed.{Setting, file, rootdir, transid, redpakid, put_settings}
use afb_app_manager.UnitProcess.Template.{is_positive}

-- `rpmElementType`, where the code tells no others apart.
pub data ElementType : Type 0 where
  tr_added tr_removed tr_other : ElementType

-- What the code asks RPM of an element and of a transaction set. A pointer to a set is a number.
pub record Element : Type 0 where
  pub type : ElementType
  pub name : Bytes
  pub files : List Bytes

pub record Transaction : Type 0 where
  pub ts : ℕ
  pub root_dir : Option Bytes
  pub elements : List Element
  pub test : Bool
  pub nopreun : Bool
  pub nopost : Bool

-- `record_t`; the list of them stands for the chain.
pub record Record : Type 0 where
  pub ts : ℕ
  pub index : ℕ
  pub count : ℕ
  pub te : Element

-- `for_each_record` with a closure. `fun` tells whether the record is dropped.
module _ {C : Type 0} (ts : ℕ) where
  abbrev pub visit : (Record → C → Bool × Record × C) → Record → C → Bool × Record × C
  visit fun r c = if r.ts == ts then fun r c else (false, r, c)

  unfoldable pub for_each_record :
      (Record → C → Bool × Record × C) → List Record → C → List Record × C
  for_each_record fun [] c = ([], c)
  for_each_record fun (r ∷ rs) c =
      let (drop, r', c') = visit fun r c in
      let (rs', c2) = for_each_record fun rs c' in ((if drop then rs' else r' ∷ rs'), c2)

-- With no function.
abbrev pub dropping : {C : Type 0} → Record → C → Bool × Record × C
dropping r c = (true, r, c)

abbrev pub is_type : ElementType → ElementType → Bool
is_type tr_added tr_added = true
is_type tr_removed tr_removed = true
is_type tr_other tr_other = true
is_type _ _ = false

abbrev pub number_count : ℕ → Record → ℕ → Bool × Record × ℕ
number_count count r c = (false, record r { count = count }, c)

-- `number_removes` and `number_adds`
abbrev pub number : ElementType → Record → ℕ → Bool × Record × ℕ
number type r index =
    if is_type r.te.type type
    then (false, record r { index = suc index }, suc index)
    else (false, r, index)

-- The environment, and the connection to the installer: `dial` sends what a client holds and gives the code.
-- `blank` is what the stack holds where a client stands.
pub record Plugin (S : Type 0) : Type 0 where
  pub env_transid : Option Bytes
  pub env_redpakid : Option Bytes
  pub dial : Client → S → ℤ × S
  pub blank : Client

-- The result code is RPMRC_OK, the memory and the world.
pub record Sending (S : Type 0) : Type 0 where
  pub is_ok : Bool
  pub memory : Memory
  pub world : S

abbrev pub optional : (Bytes → Setting) → Option Bytes → List Setting
optional make none = []
optional make (some v) = make v ∷ []

module _ {S : Type 0} (plugin : Plugin S) (transaction : Transaction) where
  -- What is put between the beginning and the end of a request.
  abbrev pub settings_of : Element → List Setting
  settings_of te =
      optional rootdir transaction.root_dir
      ++ (optional transid plugin.env_transid
          ++ (optional redpakid plugin.env_redpakid ++ map file te.files))

  unfoldable pub make_message : Memory → Client → Record → Operation → Put
  make_message m client r operation =
      or_else (afmpkg_client_begin m client operation r.te.name r.index r.count)
        (λ m1 c1. or_else (put_settings m1 c1 (settings_of r.te)) afmpkg_client_end)

  -- `perform` on a record of the type.
  unfoldable pub send : Operation → Record → Sending S → Sending S
  send operation r s =
      let (rc, client, m) = make_message s.memory (afmpkg_client_init plugin.blank) r operation in
      let (rc2, w) = plugin.dial client s.world in
      if is_neg rc
      then record { is_ok = false; memory = m; world = s.world }
      else record { is_ok = s.is_ok && is_positive rc2; memory = m; world = w }

  abbrev pub operation_of : ElementType → Bool → Operation
  operation_of tr_added onlycheck = if onlycheck then op_check_add else op_add
  operation_of _ onlycheck = if onlycheck then op_check_remove else op_remove

  abbrev pub perform : ElementType → Bool → Record → Sending S → Bool × Record × Sending S
  perform type onlycheck r s =
      if is_type r.te.type type
      then (true, r, send (operation_of type onlycheck) r s)
      else (false, r, s)

  -- The records of the elements, put in front of the others; the index and the count are not yet set. The
  -- result is false where a `malloc` fails.
  abbrev pub fresh : Element → Record
  fresh te = record { ts = transaction.ts; index = 0; count = 0; te = te }

  unfoldable pub record_elements :
      Memory → List Element → List Record → ℕ → Bool × List Record × ℕ × Memory
  record_elements m [] records elecnt = (true, records, elecnt, m)
  record_elements m (e ∷ es) records elecnt =
      let (room, m') = alloc m in
      let skipped = record_elements m es records elecnt in
      let recorded = record_elements m' es (fresh e ∷ records) (suc elecnt) in
      if is_type e.type tr_other
      then skipped
      else if room
      then recorded
      else (false, records, elecnt, m')

  -- The removals, unless they are not asked for.
  abbrev pub remove_all : List Record → Sending S → List Record × Sending S
  remove_all records s =
      if transaction.nopreun && not transaction.test
      then (records, s)
      else for_each_record transaction.ts (perform tr_removed transaction.test) records s

  abbrev pub numbered : List Record → ℕ → List Record
  numbered records elecnt =
      let (rs1, n) = for_each_record transaction.ts (number_count elecnt) records elecnt in
      let (rs2, i) = for_each_record transaction.ts (number tr_removed) rs1 0 in
      let (rs3, j) = for_each_record transaction.ts (number tr_added) rs2 i in rs3

  -- `tsm_pre_cb`; the first component tells RPMRC_OK. Its own `rc` is not returned.
  unfoldable pub tsm_pre_cb : List Record → Memory → S → Bool × List Record × Sending S
  tsm_pre_cb records m w =
      let (done, rs, elecnt, m') = record_elements m transaction.elements records 0 in
      let s : Sending S = record { is_ok = true; memory = m'; world = w } in
      let (kept, s') = remove_all (numbered rs elecnt) s in
      let (others, u) = for_each_record transaction.ts dropping rs s in
      if done then (true, kept, s') else (false, others, s)

  abbrev pub add_all : List Record → Sending S → List Record × Sending S
  add_all records s =
      if transaction.nopost && not transaction.test
      then (records, s)
      else for_each_record transaction.ts (perform tr_added transaction.test) records s

  -- `tsm_post_cb`; `res_ok` tells that `res` is RPMRC_OK.
  unfoldable pub tsm_post_cb : Bool → List Record → Memory → S → List Record × Sending S
  tsm_post_cb res_ok records m w =
      let s : Sending S = record { is_ok = true; memory = m; world = w } in
      let (rs, s') = if res_ok then add_all records s else (records, s) in
      for_each_record transaction.ts dropping rs s'
