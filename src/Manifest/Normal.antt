-- ===== src/Manifest/Normal.antt =====
-- utils/manifest.c: what a manifest that is read, checked and normalized says of its application.
use mathlib.Core.Path.{subst, sym}
use mathlib.Core.Option.{map}
use afb_app_manager.Base.{
  true, false, Option, none, some, Bytes, codes, equal, ℤ, pos, is_neg, ◌≡◌, refl, ◌∙◌, ap,
  Bool-cases, inl, inr, arith,
}
use afb_app_manager.UnitOper.{is_zero}
use afb_app_manager.Manifest.{JsonC, add, add_value, confirm, if_zero, fulfill_with}
use afb_app_manager.Manifest.Kept.{IsJsonC}

module _ {J : Type 0} (json : JsonC J) where
  -- The text of a member.
  abbrev pub text_of : J → Bytes → Option Bytes
  text_of jso key = map json.get_string (json.get_ex jso key)

  -- The texts that `fulfill` adds.
  pub record IsNamed (jso : J) (lowid undid ver : Bytes) : Type 0 where
    pub id_text : text_of jso (codes "id") ≡ some lowid
    pub underscored_text : text_of jso (codes "id-underscore") ≡ some undid
    pub idaver_text : text_of jso (codes "idaver") ≡ some lowid
    pub ver_text : text_of jso (codes "ver") ≡ some ver

  module _ (laws : IsJsonC json) where
    confirm-text :
        (w : Option J) (v : J)
        → is_neg (confirm json w v) ≡ false
        → (confirm json w v ≡ pos 0) × (w ≡ some v)
    confirm-text none v h = absurd (cc)
    confirm-text (some w) v h = elim (Bool-cases (json.same w v)) [
      | inl s ↦ (rw s refl, ap some (laws.same_value w v s))
      | inr s ↦ absurd (cc)
    ]

    add_value-text :
        (jso : J) (key value : Bytes) (v : Option J)
        → json.new_string value ≡ v
        → is_neg (add_value json jso key v).0 ≡ false
        → ((add_value json jso key v).0 ≡ pos 0)
          × (text_of (add_value json jso key v).1 key ≡ some value)
    add_value-text jso key value none e h = absurd (cc)
    add_value-text jso key value (some v) e h =
        let (z, g) = confirm-text (json.get_ex (json.object_add jso key v).1 key) v h in
        (z, rw (g, laws.new_text value v e) refl)

    add-text :
        (jso : J) (key value : Bytes)
        → is_neg (add json jso key value).0 ≡ false
        → ((add json jso key value).0 ≡ pos 0)
          × (text_of (add json jso key value).1 key ≡ some value)
    unfolding add
    add-text jso key value h = add_value-text jso key value (json.new_string value) refl h

    add_value-others :
        (jso : J) (key : Bytes) (v : Option J) (k : Bytes)
        → equal key k ≡ false
        → json.get_ex (add_value json jso key v).1 k ≡ json.get_ex jso k
    add_value-others jso key none k e = refl
    add_value-others jso key (some v) k e = laws.added_others jso key v k e

    add-others :
        (jso : J) (key value k : Bytes)
        → equal key k ≡ false
        → text_of (add json jso key value).1 k ≡ text_of jso k
    unfolding add
    add-others jso key value k e =
        ap (map json.get_string) (add_value-others jso key (json.new_string value) k e)

    zero-neg : (rc : ℤ) → is_zero rc ≡ true → is_neg rc ≡ false
    zero-neg rc e = ground arith

    -- A step that is followed by others.
    add-step :
        (jso : J) (key value : Bytes) (next : J → ℤ × J)
        → is_neg (if_zero json (add json jso key value) next).0 ≡ false
        → (text_of (add json jso key value).1 key ≡ some value)
          × (if_zero json (add json jso key value) next ≡ next (add json jso key value).1)
    add-step jso key value next = elim (Bool-cases (is_zero (add json jso key value).0)) [
      | inl z ↦
          rw z (λ h. ((add-text jso key value (zero-neg (add json jso key value).0 z)).1, refl))
      | inr z ↦ rw z (λ h.
          let e : is_zero (add json jso key value).0 ≡ true =
            ap is_zero (add-text jso key value h).0 in
          absurd (cc))
    ]

    pub fulfill_with-IsNamed :
        (jso : J) (lowid undid ver : Bytes)
        → is_neg (fulfill_with json jso (some lowid) (some undid) (some ver) (some lowid)).0 ≡ false
        → IsNamed
            (fulfill_with json jso (some lowid) (some undid) (some ver) (some lowid)).1
            lowid
            undid
            ver
    unfolding fulfill_with equal
    fulfill_with-IsNamed jso lowid undid ver h =
        let j1 = (add json jso (codes "id") lowid).1 in
        let j2 = (add json j1 (codes "id-underscore") undid).1 in
        let j3 = (add json j2 (codes "idaver") lowid).1 in
        let j4 = (add json j3 (codes "ver") ver).1 in
        let next3 : J → ℤ × J = λ j. add json j (codes "ver") ver in
        let next2 : J → ℤ × J = λ j. if_zero json (add json j (codes "idaver") lowid) next3 in
        let next1 : J → ℤ × J =
          λ j. if_zero json (add json j (codes "id-underscore") undid) next2 in
        let (t1, e1) = add-step jso (codes "id") lowid next1 h in
        let h1 : is_neg (next1 j1).0 ≡ false = subst (λ r. is_neg r.0 ≡ false) e1 h in
        let (t2, e2) = add-step j1 (codes "id-underscore") undid next2 h1 in
        let h2 : is_neg (next2 j2).0 ≡ false = subst (λ r. is_neg r.0 ≡ false) e2 h1 in
        let (t3, e3) = add-step j2 (codes "idaver") lowid next3 h2 in
        let h3 : is_neg (next3 j3).0 ≡ false = subst (λ r. is_neg r.0 ≡ false) e3 h2 in
        let (z, t4) = add-text j3 (codes "ver") ver h3 in
        let made : IsNamed j4 lowid undid ver = record {
          id_text =
              add-others j3 (codes "ver") ver (codes "id") refl
              ∙ (add-others j2 (codes "idaver") lowid (codes "id") refl
                  ∙ (add-others j1 (codes "id-underscore") undid (codes "id") refl ∙ t1));
          underscored_text =
              add-others j3 (codes "ver") ver (codes "id-underscore") refl
              ∙ (add-others j2 (codes "idaver") lowid (codes "id-underscore") refl ∙ t2);
          idaver_text = add-others j3 (codes "ver") ver (codes "idaver") refl ∙ t3;
          ver_text = t4;
        } in
        subst (λ (r : ℤ × J). IsNamed r.1 lowid undid ver) (sym (e1 ∙ (e2 ∙ e3))) made
