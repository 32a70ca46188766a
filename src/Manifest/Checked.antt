-- ===== src/Manifest/Checked.antt =====
-- utils/manifest.c: the reading of a manifest, with its check and its completion.
use mathlib.Core.Option.{map}
use afb_app_manager.Base.{
  true, false, not, Option, none, some, Bytes, codes, equal, ℤ, is_neg, Memory, ◌≡◌, refl, ◌∙◌, ap,
  Bool-cases, inl, inr,
}
use afb_app_manager.UnitOper.{is_zero}
use afb_app_manager.Manifest.{
  JsonC, check_value, check_version, check_valid_string, if_valid, manifest_check, if_done, fulfill,
  retargets, adapt_all_permissions, manifest_normalize, manifest_read, manifest_read_and_check,
  check_read,
}
use afb_app_manager.ManifestText.{is_valid, make_lowercase, dash_to_underscore, major}
use afb_app_manager.Manifest.Kept.{
  IsJsonC, IsOther, KeepsKey, if_done-KeepsKey, retargets-KeepsKey, adapt_all_permissions-KeepsKey,
}
use afb_app_manager.Manifest.Named.{
  all_plain, has_dash, is_valid-all_plain, dash_to_underscore-has_dash,
}
use afb_app_manager.Manifest.Normal.{text_of, IsNamed}
use afb_app_manager.Manifest.Fulfilled.{fulfill-IsNamed}

-- A code that is 0 or negative.
IsCode : ℤ → Type 0
IsCode rc = is_neg rc ≡ not (is_zero rc)

module _ {J : Type 0} (json : JsonC J) where
  check_value-IsCode : (v : Option J) → IsCode (check_value json v)
  unfolding IsCode
  check_value-IsCode none = refl
  check_value-IsCode (some v) = elim (Bool-cases (is_valid (json.get_string v))) [
    | inl e ↦ rw e refl
    | inr e ↦ rw e refl
  ]

  check_version-IsCode : (v : Option J) → IsCode (check_version json v)
  unfolding IsCode
  check_version-IsCode none = refl
  check_version-IsCode (some v) = elim (Bool-cases (equal (codes "1") (json.get_string v))) [
    | inl e ↦ rw e refl
    | inr e ↦ rw e refl
  ]

  if_valid-IsCode : (rc next : ℤ) → IsCode rc → IsCode next → IsCode (if_valid json rc next)
  if_valid-IsCode rc next c d = elim (Bool-cases (is_zero rc)) [ inl e ↦ rw e d | inr e ↦ rw e c ]

  both_valid :
      (rc next : ℤ)
      → IsCode rc
      → is_neg (if_valid json rc next) ≡ false
      → (is_neg rc ≡ false) × (is_neg next ≡ false)
  unfolding IsCode
  both_valid rc next c = elim (Bool-cases (is_zero rc)) [
    | inl e ↦ rw e (λ h. (cc, h))
    | inr e ↦ rw e (λ h. absurd (cc))
  ]

  check_value-is_valid :
      (v : Option J)
      → is_neg (check_value json v) ≡ false
      → (t : Bytes) × (map json.get_string v ≡ some t) × (is_valid t ≡ true)
  check_value-is_valid none h = absurd (cc)
  check_value-is_valid (some v) h = (
    json.get_string v,
    refl,
    (elim (Bool-cases (is_valid (json.get_string v))) [ inl e ↦ e | inr e ↦ absurd (cc) ]),
  )

  -- The identifier and the version of a manifest that `manifest_check` accepts.
  manifest_check-is_valid :
      (jso : J)
      → is_neg (manifest_check json jso) ≡ false
      → ((t : Bytes) × (text_of json jso (codes "id") ≡ some t) × (is_valid t ≡ true))
        × ((t : Bytes) × (text_of json jso (codes "version") ≡ some t) × (is_valid t ≡ true))
  unfolding manifest_check check_valid_string
  manifest_check-is_valid jso h =
      let a = check_version json (json.get_ex jso (codes "rp-manifest")) in
      let b = check_value json (json.get_ex jso (codes "id")) in
      let c = check_value json (json.get_ex jso (codes "version")) in
      let ca = check_version-IsCode (json.get_ex jso (codes "rp-manifest")) in
      let cb = check_value-IsCode (json.get_ex jso (codes "id")) in
      let (h1, hc) = both_valid (if_valid json a b) c (if_valid-IsCode a b ca cb) h in
      let (ha, hb) = both_valid a b ca h1 in
      (
        check_value-is_valid (json.get_ex jso (codes "id")) hb,
        check_value-is_valid (json.get_ex jso (codes "version")) hc,
      )

  module _ (laws : IsJsonC json) where
    if_done-neg :
        (r : ℤ × J) (next : J → ℤ × J) → is_neg (if_done json r next).0 ≡ false → is_neg r.0 ≡ false
    if_done-neg r next = elim (Bool-cases (is_neg r.0)) [
      | inl e ↦ rw e (λ h. absurd (cc))
      | inr e ↦ λ h. e
    ]

    kept_text :
        (j j' : J) (key : Bytes)
        → IsOther key
        → ((k : Bytes) (o : IsOther k) → KeepsKey json laws k o j j')
        → text_of json j' key ≡ text_of json j key
    kept_text j j' key o keeps = ap (map json.get_string) (keeps key o)

    IsNamed-kept :
        (j j' : J) (l u v : Bytes)
        → ((k : Bytes) (o : IsOther k) → KeepsKey json laws k o j j')
        → IsNamed json j l u v
        → IsNamed json j' l u v
    unfolding equal
    IsNamed-kept j j' l u v keeps n = record {
      id_text = kept_text j j' (codes "id") (refl, refl) keeps ∙ n.id_text;
      underscored_text =
          kept_text j j' (codes "id-underscore") (refl, refl) keeps ∙ n.underscored_text;
      idaver_text = kept_text j j' (codes "idaver") (refl, refl) keeps ∙ n.idaver_text;
      ver_text = kept_text j j' (codes "ver") (refl, refl) keeps ∙ n.ver_text;
    }

    -- The texts of a manifest that is normalized, from those that it had.
    abbrev Completed : J → J → Type 0
    Completed jso jso' =
        (i : Bytes) × (v : Bytes) × (text_of json jso (codes "id") ≡ some i)
        × (text_of json jso (codes "version") ≡ some v)
        × IsNamed json jso' (make_lowercase i) (dash_to_underscore (make_lowercase i))
            (make_lowercase (major v))

    normalize-keeps :
        (r : ℤ × J) (key : Bytes) (o : IsOther key)
        → KeepsKey json laws key o r.1
            (if_done json (if_done json r (retargets json)) (adapt_all_permissions json)).1
    normalize-keeps r key o =
        if_done-KeepsKey json laws key o r.1 (if_done json r (retargets json))
          (adapt_all_permissions json)
          (if_done-KeepsKey json laws key o r.1 r (retargets json) refl
            (retargets-KeepsKey json laws key o))
          (adapt_all_permissions-KeepsKey json laws key o)

    manifest_normalize-Completed :
        (m : Memory) (jso : J)
        → is_neg (manifest_normalize json m jso).0 ≡ false
        → Completed jso (manifest_normalize json m jso).1
    unfolding manifest_normalize
    manifest_normalize-Completed m jso h =
        let r : ℤ × J = ((fulfill json m jso).0, (fulfill json m jso).1) in
        let h1 =
          if_done-neg r (retargets json)
            (if_done-neg (if_done json r (retargets json)) (adapt_all_permissions json) h) in
        let (i, v, e, f, n) = fulfill-IsNamed json laws m jso h1 in
        (
          i,
          v,
          e,
          f,
          IsNamed-kept r.1
              (if_done json (if_done json r (retargets json)) (adapt_all_permissions json)).1
              (make_lowercase i) (dash_to_underscore (make_lowercase i)) (make_lowercase (major v))
              (normalize-keeps r) n,
        )

    -- What a manifest that is accepted says of its application.
    pub record IsAccepted (jso jso' : J) : Type 0 where
      pub id : Bytes
      pub version : Bytes
      pub id_given : text_of json jso (codes "id") ≡ some id
      pub version_given : text_of json jso (codes "version") ≡ some version
      pub id_valid : is_valid id ≡ true
      pub version_valid : is_valid version ≡ true
      pub id_plain : all_plain (make_lowercase id) ≡ true
      pub no_dash : has_dash (dash_to_underscore (make_lowercase id)) ≡ false
      pub named :
          IsNamed json jso'
            (make_lowercase id)
            (dash_to_underscore (make_lowercase id))
            (make_lowercase (major version))

    valid_as :
        (o : Option Bytes) (t : Bytes)
        → o ≡ some t
        → (u : Bytes) × (o ≡ some u) × (is_valid u ≡ true)
        → is_valid t ≡ true
    valid_as o t e (u, f, v) = let g : u ≡ t = cc in rw (← g) v

    accepted :
        (m : Memory) (jso : J)
        → is_neg (manifest_check json jso) ≡ false
        → is_neg (manifest_normalize json m jso).0 ≡ false
        → IsAccepted jso (manifest_normalize json m jso).1
    accepted m jso h k =
        let (i, v, e, f, n) = manifest_normalize-Completed m jso k in
        let (a, b) = manifest_check-is_valid jso h in
        let x = valid_as (text_of json jso (codes "id")) i e a in
        record {
          id = i;
          version = v;
          id_given = e;
          version_given = f;
          id_valid = x;
          version_valid = valid_as (text_of json jso (codes "version")) v f b;
          id_plain = is_valid-all_plain i x;
          no_dash = dash_to_underscore-has_dash (make_lowercase i);
          named = n;
        }

    check_read-IsAccepted :
        (m : Memory) (rc : ℤ) (obj : J)
        → is_neg (check_read json m (rc, some obj)).0 ≡ false
        → (obj' : J) × ((check_read json m (rc, some obj)).1 ≡ some obj') × IsAccepted obj obj'
    check_read-IsAccepted m rc obj = elim (Bool-cases (is_neg rc)) [
      | inl e ↦ rw e (λ h. absurd (cc))
      | inr e ↦ rw e (elim (Bool-cases (is_neg (manifest_check json obj))) [
        | inl f ↦ rw f (λ h. absurd (cc))
        | inr f ↦ rw f (λ h. ((manifest_normalize json m obj).1, rw h refl, accepted m obj f h))
      ])
    ]

    -- Where `manifest_read_and_check` returns no error, a manifest was read, its identifier and its version
    -- are not empty and of letters, digits, dots, dashes and underscores, and a manifest is given back that
    -- has as "id" and "idaver" the identifier in lower case, as "id-underscore" that one with underscores for
    -- dashes, and as "ver" the version up to its second dot, in lower case, whatever else was adapted.
    pub manifest_read_and_check-IsAccepted :
        (m : Memory) (yaml : ℤ × Option J)
        → is_neg (manifest_read_and_check json m yaml).0 ≡ false
        → (obj : J) × (obj' : J) × (yaml.1 ≡ some obj)
          × ((manifest_read_and_check json m yaml).1 ≡ some obj')
          × IsAccepted obj obj'
    unfolding manifest_read_and_check manifest_read
    manifest_read_and_check-IsAccepted m (rc, none) = elim (Bool-cases (is_neg rc)) [
      | inl e ↦ rw e (λ h. absurd (cc))
      | inr e ↦ rw e (λ h. absurd (cc))
    ]
    manifest_read_and_check-IsAccepted m (rc, some obj) =
        λ h. let (obj', e, a) = check_read-IsAccepted m rc obj h in (obj, obj', refl, e, a)
