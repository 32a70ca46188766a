-- ===== src/Package/Meta.antt =====
-- afmpkg/afmpkg.c: the data that is added to a manifest before it instantiates the template of the units.
use afb_app_manager.Base.{
  ℕ, zero, suc, ◌+◌, Bool, not, ◌&&◌, Option, none, some, List, [], ◌∷◌, ◌++◌, Bytes, codes, ℤ, pos,
  enomem, eaddrnotavail, length, drop, leb, ltb, ◌==◌, is_neg, is_some, if◌then◌else◌,
}
use mathlib.Core.List.{reverse}
use afb_app_manager.Afid.{Manager, get_new_afid}
use afb_app_manager.Package.{State, Mode, is_install, Afmpkg, Host}
use afb_app_manager.Package.Content.{is_regular}

-- DEFAULT_TCP_PORT_BASE
abbrev pub default_tcp_port_base : ℕ
default_tcp_port_base = 29000

-- A path of `get_redpakid` has its last byte first, so `lpa` is its length.
abbrev pub slashed : Bytes → Bytes
slashed [] = []
slashed (c ∷ cs) = if c == b'/' then c ∷ cs else b'/' ∷ c ∷ cs

-- The two loops that find the parent directory, for `offset_root`.
unfoldable pub strip_slashes : ℕ → Bytes → Bytes
strip_slashes off [] = []
strip_slashes off (c ∷ cs) =
    if leb off (suc (length cs)) && c == b'/' then strip_slashes off cs else c ∷ cs

unfoldable pub strip_name : ℕ → Bytes → Bytes
strip_name off [] = []
strip_name off (c ∷ cs) =
    if leb off (suc (length cs)) && not (c == b'/') then strip_name off cs else c ∷ cs

-- The loop of `get_redpakid`; the size of its buffer is not modelled. A round takes a byte at least.
unfoldable pub search_marker : (Bytes → Bool) → Bytes → ℕ → ℕ → Bytes → Option Bytes
search_marker is_marker auto off zero path = none
search_marker is_marker auto off (suc fuel) path =
    let dir = slashed path in
    let up = strip_slashes off dir in
    let rest = search_marker is_marker auto off fuel (strip_name off up) in
    if ltb (length path) off
    then none
    else if is_marker (reverse dir ++ auto)
    then some (reverse (drop 1 dir))
    else if leb (length up) off
    then none
    else rest

abbrev pub auto_redpakid : (Bytes → Bool) → Option Bytes → ℕ → Bytes → Option Bytes
auto_redpakid is_marker none off path = none
auto_redpakid is_marker (some auto) off path =
    search_marker is_marker auto off (suc (length path)) (reverse path)

abbrev or_else : Option Bytes → Option Bytes → Option Bytes
or_else none other = other
or_else (some a) other = some a

unfoldable pub get_redpakid : (Bytes → Bool) → Afmpkg → ℕ → Bytes → Option Bytes
get_redpakid is_marker apkg off path =
    or_else apkg.redpakid (auto_redpakid is_marker apkg.redpak_auto off path)

-- The root directory of the metadata.
abbrev or_empty : Option Bytes → Bytes
or_empty none = []
or_empty (some r) = r

abbrev pub meta_root : Afmpkg → Option Bytes → Bytes
meta_root apkg none = or_empty apkg.root
meta_root apkg (some id) = if is_some apkg.redpak_auto then id else or_empty apkg.root

-- `rc` of the state and the numbers of applications.
abbrev pub Given : Type 0
Given = ℤ × Manager

module _ {J S : Type 0} (host : Host J S) (mode : Mode) where
  -- The number that a target gets.
  abbrev pub afid_for : Manager → ℤ × Manager
  afid_for m = if is_install mode then get_new_afid host.scan host.scan m else (pos 0, m)

  abbrev pub port_for : ℕ → ℕ
  port_for afid = if is_install mode then default_tcp_port_base + afid else 0

  abbrev with_meta : Option J → J → Given → J × Given
  with_meta none target (rc, m) = (target, (enomem, m))
  with_meta (some object) target g = (host.json.object_add target (codes "#metatarget") object, g)

  abbrev numbered : ℤ → J → Given → J × Given
  numbered (pos afid) target g = with_meta (host.json.pack_target afid (port_for afid)) target g
  numbered n target (rc, m) = (target, (eaddrnotavail, m))

  unfoldable pub add_meta_to_target : J → Given → J × Given
  add_meta_to_target target (rc, m) = let (afid, m') = afid_for m in numbered afid target (rc, m')

  unfoldable pub add_meta_to_targets : List J → Given → List J × Given
  add_meta_to_targets [] g = ([], g)
  add_meta_to_targets (t ∷ ts) g =
      let (t', g1) = add_meta_to_target t g in
      let (ts', g2) = add_meta_to_targets ts g1 in (t' ∷ ts', g2)

  -- The targets of a manifest are changed in place.
  abbrev pub targets_with_meta : Option J → J → Given → J × Given
  targets_with_meta none manifest g = (manifest, g)
  targets_with_meta (some targets) manifest g =
      let (ts, g') = add_meta_to_targets (host.json.items targets) g in
      (host.json.object_add manifest (codes "targets") (host.json.with_items targets ts), g')

  -- The path of the package, where the metadata is added.
  abbrev pub install_path : Bytes → Bytes → Bytes
  install_path root pack = if length root == length pack then root ++ b'/' ∷ [] else pack

  -- The NUL that is put behind the slash.
  abbrev pub tail_after : Bytes → State S → Option Bytes
  tail_after root s = if length root == length s.pack then some [] else s.tail

  -- The end of `add_meta_to_manifest`, behind the creation of the metadata. The `rc` of the state is the
  -- code of the targets, or what it was.
  abbrev pub with_metadata : Bytes → State S → J → Option J → ℤ × State S × J
  with_metadata root s manifest none = (enomem, record s { tail = tail_after root s }, manifest)
  with_metadata root s manifest (some object) =
      let manifest1 = host.json.object_add manifest (codes "#metadata") object in
      let (manifest2, (rc, m)) =
        targets_with_meta (host.json.get_ex manifest1 (codes "targets")) manifest1
          (pos 0, s.afids) in
      let code = if is_neg rc then rc else s.rc in
      (code, record s { rc = code; afids = m; tail = tail_after root s }, manifest2)

  -- With `offset_root` and `offset_pack` the lengths of the two texts.
  unfoldable pub add_meta_to_manifest : Afmpkg → Bytes → State S → J → ℤ × State S × J
  unfolding add_meta_to_targets
  add_meta_to_manifest apkg root s manifest =
      let path = install_path root s.pack in
      let id = get_redpakid (λ p. is_regular (host.disk.stat s.world p)) apkg (length root) path in
      let base = meta_root apkg id in
      with_metadata root s manifest
        (host.json.pack_metadata (drop (length base) path) host.icon_dir (is_some id) id base)
