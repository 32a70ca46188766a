-- ===== src/Manifest/Fulfilled.antt =====
-- utils/manifest.c: `fulfill`, whatever the memory.
use afb_app_manager.Base.{
  true, false, Option, none, some, Bytes, codes, is_neg, Memory, alloc, ◌≡◌, refl, ◌∙◌, ap,
  Bool-cases, inl, inr,
}
use mathlib.Core.Option.{map}
use afb_app_manager.Manifest.{JsonC, fulfill_with, with_lowid, fulfill_from, fulfill}
use afb_app_manager.ManifestText.{strdup, mkver, make_lowercase, dash_to_underscore, major}
use afb_app_manager.Manifest.Kept.{IsJsonC}
use afb_app_manager.Manifest.Normal.{text_of, IsNamed, fulfill_with-IsNamed}

strdup-text : (m : Memory) (t u : Bytes) → (strdup m t).0 ≡ some u → u ≡ t
strdup-text m t u = elim (Bool-cases (alloc m).0) [
  | inl e ↦ rw e (λ h. cc)
  | inr e ↦ rw e (λ h. absurd (cc))
]

module _ {J : Type 0} (json : JsonC J) (laws : IsJsonC json) where
  -- The three copies that `fulfill` needs beside the identifier.
  AllMade : Option Bytes → Option Bytes → Option Bytes → Type 0
  AllMade undid ver idaver =
      ((u : Bytes) × (undid ≡ some u))
      × ((v : Bytes) × (ver ≡ some v))
      × ((i : Bytes) × (idaver ≡ some i))

  fulfill_with-AllMade :
      (jso : J) (lowid : Bytes) (undid ver idaver : Option Bytes)
      → is_neg (fulfill_with json jso (some lowid) undid ver idaver).0 ≡ false
      → AllMade undid ver idaver
  unfolding fulfill_with AllMade
  fulfill_with-AllMade jso l none v i h = absurd (cc)
  fulfill_with-AllMade jso l (some u) none i h = absurd (cc)
  fulfill_with-AllMade jso l (some u) (some v) none h = absurd (cc)
  fulfill_with-AllMade jso l (some u) (some v) (some i) h = ((u, refl), (v, refl), (i, refl))

  without_id :
      (jso : J) (ver : Option Bytes) → is_neg (fulfill_with json jso none none ver none).0 ≡ true
  unfolding fulfill_with
  without_id jso ver = refl

  exact :
      (m : Memory) (t : Bytes) → (u : Bytes) × ((strdup m t).0 ≡ some u) → (strdup m t).0 ≡ some t
  exact m t (u, e) = e ∙ ap some (strdup-text m t u e)

  both :
      (jso : J) (l u v : Bytes) (undid idaver : Option Bytes)
      → undid ≡ some u
      → idaver ≡ some l
      → is_neg (fulfill_with json jso (some l) undid (some v) idaver).0 ≡ false
      → IsNamed json (fulfill_with json jso (some l) undid (some v) idaver).1 l u v
  both jso l u v undid idaver e f = rw (e, f) (fulfill_with-IsNamed json laws jso l u v)

  with_lowid-IsNamed :
      (jso : J) (ver : Option Bytes) (lowid : Option Bytes) (m : Memory) (t v : Bytes)
      → ((x : Bytes) → lowid ≡ some x → x ≡ t)
      → ((x : Bytes) → ver ≡ some x → x ≡ v)
      → is_neg (with_lowid json jso ver (lowid, m)).0 ≡ false
      → IsNamed json (with_lowid json jso ver (lowid, m)).1 t (dash_to_underscore t) v
  unfolding AllMade
  with_lowid-IsNamed jso ver none m t v f g = λ h. let e = without_id jso ver in absurd (cc)
  with_lowid-IsNamed jso none (some l) m t v f g = λ h.
      let (u, (w, e), i) =
        fulfill_with-AllMade jso l (strdup m (dash_to_underscore l)).0 none none h in
      absurd (cc)
  with_lowid-IsNamed jso (some w) (some l) m t v f g =
      rw (f l refl, g w refl)
        (λ h.
          let (_, m1) = strdup m t in
          let (made, _, copied) =
            fulfill_with-AllMade jso t (strdup m1 (dash_to_underscore t)).0 (some v) (strdup m t).0
              h in
          both jso t (dash_to_underscore t) v (strdup m1 (dash_to_underscore t)).0 (strdup m t).0
            (exact m1 (dash_to_underscore t) made) (exact m t copied) h)

  fulfill_from-IsNamed :
      (m : Memory) (jso : J) (id version : Option J)
      → is_neg (fulfill_from json m jso id version).0 ≡ false
      → (i : Bytes) × (v : Bytes) × (map json.get_string id ≡ some i)
        × (map json.get_string version ≡ some v)
        × IsNamed json
            (fulfill_from json m jso id version).1
            (make_lowercase i)
            (dash_to_underscore (make_lowercase i))
            (make_lowercase (major v))
  unfolding mkver
  fulfill_from-IsNamed m jso none version h = absurd (cc)
  fulfill_from-IsNamed m jso (some id) none h = absurd (cc)
  fulfill_from-IsNamed m jso (some id) (some version) h =
      let i = json.get_string id in
      let v = json.get_string version in
      let t = make_lowercase i in
      let w = make_lowercase (major v) in
      let (ver, m1) = strdup m w in
      let (lowid, m2) = strdup m1 t in
      (
        i,
        v,
        refl,
        refl,
        with_lowid-IsNamed jso ver lowid m2 t w (strdup-text m1 t) (strdup-text m w) h,
      )

  pub fulfill-IsNamed :
      (m : Memory) (jso : J)
      → is_neg (fulfill json m jso).0 ≡ false
      → (i : Bytes) × (v : Bytes) × (text_of json jso (codes "id") ≡ some i)
        × (text_of json jso (codes "version") ≡ some v)
        × IsNamed json
            (fulfill json m jso).1
            (make_lowercase i)
            (dash_to_underscore (make_lowercase i))
            (make_lowercase (major v))
  unfolding fulfill
  fulfill-IsNamed m jso h =
      fulfill_from-IsNamed m jso (json.get_ex jso (codes "id")) (json.get_ex jso (codes "version"))
        h
