-- ===== src/RpmPlugin/Sent.antt =====
-- rpm-plugin/redpesk.c: the requests that a transaction sends.
use afb_app_manager.Base.{
  ℕ, suc, ◌+◌, Bool, true, false, not, ◌&&◌, List, [], ◌∷◌, ◌++◌, Memory, All, length, ◌==◌,
  if◌then◌else◌, ◌≡◌, refl, arith, Bool-cases, inl, inr, ◌⊎◌, ◌∙◌, ap,
}
use mathlib.Core.List.{map}
use afb_app_manager.Client.{Operation}
use afb_app_manager.RpmPlugin.{
  ElementType, tr_added, tr_removed, tr_other, is_type, Element, Transaction, Record,
  for_each_record, dropping, number_count, number, Plugin, Sending, send, operation_of, perform,
  fresh, record_elements, numbered, tsm_pre_cb, tsm_post_cb,
}
use afb_app_manager.RpmPlugin.Numbered.{
  Foreign, IsKept, removes, adds, with_index, unnumbered, numbered_all, count_step, removes_step,
  adds_step, step-append, numbered_removes, for_each_record-Foreign,
}

pub kept-type :
    (type : ElementType)
    → is_type type tr_other ≡ false
    → ((is_type type tr_removed ≡ true) × (is_type type tr_added ≡ false))
      ⊎ ((is_type type tr_removed ≡ false) × (is_type type tr_added ≡ true))
kept-type tr_added k = inr (refl, refl)
kept-type tr_removed k = inl (refl, refl)
kept-type tr_other k = cc

same : (n : ℕ) → (n == n) ≡ true
same n = ground arith

-- The removals, or the additions, are asked for.
asked {ℓ} :
    {A : Type ℓ} (skip test : Bool)
    → skip ≡ false
    → (x y : A) → (if skip && not test then x else y) ≡ y
asked skip test e x y = rw e refl

module _ {S : Type 0} (plugin : Plugin S) (t : Transaction) where
  -- The elements that are added or removed, the last one first.
  abbrev pub kept_onto : List Element → List Element → List Element
  kept_onto [] done = done
  kept_onto (e ∷ es) done = kept_onto es (if is_type e.type tr_other then done else e ∷ done)

  pub record_elements-kept :
      (es done : List Element) (others : List Record)
      → record_elements plugin t [] es (map (fresh plugin t) done ++ others) (length done)
        ≡ (true, map (fresh plugin t) (kept_onto es done) ++ others, length (kept_onto es done), [])
  unfolding record_elements
  record_elements-kept [] done others = refl
  record_elements-kept (e ∷ es) done others = elim (Bool-cases (is_type e.type tr_other)) [
    | inl o ↦ rw o (record_elements-kept es done others)
    | inr o ↦ rw o (record_elements-kept es (e ∷ done) others)
  ]

  pub kept_onto-IsKept : (es done : List Element) → All IsKept done → All IsKept (kept_onto es done)
  kept_onto-IsKept [] done k = k
  kept_onto-IsKept (e ∷ es) done k = elim (Bool-cases (is_type e.type tr_other)) [
    | inl o ↦ rw o (kept_onto-IsKept es done k)
    | inr o ↦ rw o (kept_onto-IsKept es (e ∷ done) (o, k))
  ]

  pub numbered-numbered_all :
      (es : List Element) (others : List Record) (n : ℕ)
      → All IsKept es
      → Foreign t.ts others
      → numbered plugin t (map (fresh plugin t) es ++ others) n
        ≡ numbered_all t.ts n 0 (removes es) es ++ others
  numbered-numbered_all es others n k f =
      rw
        (
          numbered,
          step-append t.ts n (number_count n) (map (fresh plugin t) es) (unnumbered t.ts n es)
              others n n (count_step t.ts n es n) f,
          step-append t.ts n (number tr_removed) (unnumbered t.ts n es)
              (numbered_removes t.ts n 0 es) others 0 (removes es)
              (removes_step t.ts n es 0
                ∙ ap (λ (k : ℕ). (numbered_removes t.ts n 0 es, k)) (omega arith))
              f,
          step-append t.ts n (number tr_added) (numbered_removes t.ts n 0 es)
              (numbered_all t.ts n 0 (removes es) es) others (removes es)
              (removes es + adds t.ts n es) (adds_step t.ts n es 0 (removes es) k) f,
        )
        refl

  -- The records of one type, numbered in turn from one number on.
  unfoldable pub plan : ElementType → ℕ → ℕ → List Element → List Record
  plan type n i [] = []
  plan type n i (e ∷ es) =
      if is_type e.type type
      then with_index t.ts n (suc i) e ∷ plan type n (suc i) es
      else plan type n i es

  unfoldable pub send_all : Operation → List Record → Sending S → Sending S
  send_all operation [] s = s
  send_all operation (r ∷ rs) s = send_all operation rs (send plugin t operation r s)

  removals_step :
      (es : List Element) (n i j : ℕ) (s : Sending S)
      → All IsKept es
      → for_each_record t.ts (perform plugin t tr_removed t.test) (numbered_all t.ts n i j es) s ≡ (
        plan tr_added n j es,
        send_all (operation_of plugin t tr_removed t.test) (plan tr_removed n i es) s,
      )
  unfolding for_each_record numbered_all plan send_all
  removals_step [] n i j s k = refl
  removals_step (e ∷ es) n i j s (k, ks) =
      let operation = operation_of plugin t tr_removed t.test in
      let s1 = send plugin t operation (with_index t.ts n (suc i) e) s in
      elim (kept-type e.type k) [
        | inl (r, a) ↦ ground (arith, r, a, same t.ts, removals_step es n (suc i) j s1 ks)
        | inr (r, a) ↦ ground (arith, r, a, same t.ts, removals_step es n i (suc j) s ks)
      ]

  additions_step :
      (es : List Element) (n j : ℕ) (s : Sending S)
      → for_each_record t.ts (perform plugin t tr_added t.test) (plan tr_added n j es) s
        ≡ ([], send_all (operation_of plugin t tr_added t.test) (plan tr_added n j es) s)
  unfolding for_each_record plan send_all
  additions_step [] n j s = refl
  additions_step (e ∷ es) n j s =
      let operation = operation_of plugin t tr_added t.test in
      let s1 = send plugin t operation (with_index t.ts n (suc j) e) s in
      elim (Bool-cases (is_type e.type tr_added)) [
        | inl a ↦ ground (arith, a, same t.ts, additions_step es n (suc j) s1)
        | inr a ↦ rw a (additions_step es n j s)
      ]

  -- The two hooks in turn, with the result RPMRC_OK between them.
  abbrev pub transact : List Record → Memory → S → Bool × List Record × Sending S
  transact records m w =
      let (done, rs, s) = tsm_pre_cb plugin t records m w in
      let (rs', s') = tsm_post_cb plugin t true rs s.memory s.world in (done, rs', s')

  abbrev pub restart : Sending S → Sending S
  restart s = record s { is_ok = true }

  dropping_step :
      (others : List Record) (s : Sending S)
      → Foreign t.ts others
      → for_each_record t.ts dropping others s ≡ (others, s)
  dropping_step others s f = for_each_record-Foreign t.ts dropping others s f

  module _ (preun : t.nopreun ≡ false) (post : t.nopost ≡ false) where
    pub tsm_pre_cb-plan :
        (others : List Record) (w : S)
        → Foreign t.ts others
        → let es = kept_onto t.elements [] in
          let n = length es in
          tsm_pre_cb plugin t others [] w ≡ (
            true,
            plan tr_added n (removes es) es ++ others,
            send_all
                (operation_of plugin t tr_removed t.test)
                (plan tr_removed n 0 es)
                (record { is_ok = true; memory = []; world = w }),
          )
    unfolding tsm_pre_cb
    tsm_pre_cb-plan others w f =
        let es = kept_onto t.elements [] in
        let n = length es in
        let k = kept_onto-IsKept t.elements [] tt in
        let s : Sending S = record { is_ok = true; memory = []; world = w } in
        let sent = send_all (operation_of plugin t tr_removed t.test) (plan tr_removed n 0 es) s in
        rw (record_elements-kept t.elements [] others, numbered-numbered_all es others n k f)
          (ap (λ (x : List Record × Sending S). (true, x.0, x.1))
            (asked t.nopreun t.test preun _ _
              ∙ step-append t.ts n (perform plugin t tr_removed t.test)
                  (numbered_all t.ts n 0 (removes es) es) (plan tr_added n (removes es) es) others s
                  sent (removals_step es n 0 (removes es) s k) f))

    pub tsm_post_cb-plan :
        (es : List Element) (n j : ℕ) (others : List Record) (m : Memory) (w : S)
        → Foreign t.ts others
        → tsm_post_cb plugin t true (plan tr_added n j es ++ others) m w ≡ (
          others,
          send_all
              (operation_of plugin t tr_added t.test)
              (plan tr_added n j es)
              (record { is_ok = true; memory = m; world = w }),
        )
    unfolding tsm_post_cb
    tsm_post_cb-plan es n j others m w f =
        let s : Sending S = record { is_ok = true; memory = m; world = w } in
        let sent = send_all (operation_of plugin t tr_added t.test) (plan tr_added n j es) s in
        ap (λ (x : List Record × Sending S). for_each_record t.ts dropping x.0 x.1)
          (asked t.nopost t.test post _ _
            ∙ step-append t.ts n (perform plugin t tr_added t.test) (plan tr_added n j es) [] others
                s sent (additions_step es n j s) f)
        ∙ dropping_step others sent f
