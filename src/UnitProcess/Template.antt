-- ===== src/UnitProcess/Template.antt =====
-- units/unit-process.c: the template is read once, instantiated, and the text is split into units.
use afb_app_manager.Base.{
  zero, suc, Bool, true, false, negsuc, Option, none, some, List, [], Bytes, ℤ, pos, if◌then◌else◌,
  Memory,
}
use afb_app_manager.UnitProcess.{pack, dedup_slashes}
use afb_app_manager.UnitProcess.Corpus.{UnitDesc, corpus_split, is_zero}

-- What the code calls of the other libraries: `file_get` is rp_file_get on the template file, and
-- `apply_mustach` instantiates a template.
pub record Tools (J : Type 0) : Type 0 where
  pub file_get : ℤ × Bytes
  pub apply_mustach : Bytes → J → ℤ × Bytes

-- The template, and the memory.
pub record Units : Type 0 where
  pub template : Option Bytes
  pub memory : Memory

-- `none` of `corpus_split` would be out of fuel.
abbrev pub split_of : Option (ℤ × List UnitDesc × Memory) → Memory → ℤ × List UnitDesc × Memory
split_of none m = (pos 0, [], m)
split_of (some r) m = r

abbrev pub is_positive : ℤ → Bool
is_positive (pos zero) = false
is_positive (pos (suc n)) = true
is_positive (negsuc n) = false

module _ {J : Type 0} (tools : Tools J) where
  -- `unit_process_open_template`; a `realloc` that fails keeps the block.
  unfoldable pub unit_process_open_template : Units → ℤ × Units
  unit_process_open_template u =
      let (rc, text) = tools.file_get in
      if is_zero rc
      then (rc, record u { template = some (pack text b';') })
      else (rc, record u { template = none })

  abbrev pub ensure_template : Units → ℤ × Units
  ensure_template u = elim u.template [ none ↦ unit_process_open_template u | some t ↦ (pos 0, u) ]

  abbrev pub instance_of : Option Bytes → J → ℤ × Bytes
  instance_of none jdesc = (pos 0, [])
  instance_of (some t) jdesc = tools.apply_mustach t jdesc

module _ {J S : Type 0} (tools : Tools J) where
  -- `process` is given the units and the memory.
  unfoldable pub unit_process_raw :
      (Units → S → Bytes → ℤ × Units × S) → J → Units → S → ℤ × Units × S
  unit_process_raw process jdesc u s =
      let (rc, u1) = ensure_template tools u in
      let (rc2, text) = instance_of tools u1.template jdesc in
      if is_zero rc
      then (if is_zero rc2 then process u1 s (dedup_slashes text) else (rc2, u1, s))
      else (rc, u1, s)

  unfoldable pub internal_for_split :
      (S → List UnitDesc → ℤ × S) → Units → S → Bytes → ℤ × Units × S
  internal_for_split process u s corpus =
      let (nru, units, m) = split_of (corpus_split u.memory corpus) u.memory in
      let (rc, s') = process s units in
      let u' : Units = record u { memory = m } in
      if is_positive nru then (rc, u', s') else (nru, u', s)

  unfoldable pub unit_process_split : (S → List UnitDesc → ℤ × S) → J → Units → S → ℤ × Units × S
  unfolding unit_process_raw internal_for_split
  unit_process_split process jdesc u s = unit_process_raw (internal_for_split process) jdesc u s
