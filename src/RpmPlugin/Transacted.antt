-- ===== src/RpmPlugin/Transacted.antt =====
-- rpm-plugin/redpesk.c: a whole transaction, from the recording of its elements to its last request.
use afb_app_manager.Base.{
  ℕ, zero, suc, ◌+◌, Bool, true, false, List, [], ◌∷◌, ◌++◌, All, length, ◌≡◌, refl, arith, inl,
  inr, ◌∙◌, ap,
}
use mathlib.Core.List.{map}
use afb_app_manager.RpmPlugin.{
  tr_added, tr_removed, Element, Transaction, Record, Plugin, Sending, operation_of, tsm_post_cb,
}
use afb_app_manager.RpmPlugin.Numbered.{Foreign, IsKept, removes, adds}
use afb_app_manager.RpmPlugin.Sent.{
  plan, send_all, kept_onto, kept_onto-IsKept, kept-type, transact, restart, tsm_pre_cb-plan,
  tsm_post_cb-plan,
}

-- The numbers from i + 1 on.
abbrev pub numbers_from : ℕ → ℕ → List ℕ
numbers_from i zero = []
numbers_from i (suc k) = suc i ∷ numbers_from (suc i) k

same_numbers : (i j a b : ℕ) → i ≡ j → a ≡ b → numbers_from i a ≡ numbers_from j b
same_numbers i j a b e f = rw (e, f) refl

numbers_from-append :
    (i a b j n : ℕ)
    → j ≡ i + a
    → n ≡ a + b
    → numbers_from i a ++ numbers_from j b ≡ numbers_from i n
numbers_from-append i zero b j n e f = same_numbers j i b n (omega arith) (omega arith)
numbers_from-append i (suc a) b j zero e f = absurd (omega arith)
numbers_from-append i (suc a) b j (suc n) e f =
    ap (◌∷◌ (suc i)) (numbers_from-append (suc i) a b j n (omega arith) (omega arith))

abbrev pub index_of : Record → ℕ
index_of r = r.index

module _ {S : Type 0} (plugin : Plugin S) (t : Transaction) where
  pub plan-removes :
      (es : List Element) (n i : ℕ)
      → map index_of (plan plugin t tr_removed n i es) ≡ numbers_from i (removes es)
  unfolding plan
  plan-removes [] n i = refl
  plan-removes (e ∷ es) n i = ground (arith, plan-removes es n i, plan-removes es n (suc i))

  pub plan-adds :
      (es : List Element) (n j : ℕ)
      → All IsKept es
      → map index_of (plan plugin t tr_added n j es) ≡ numbers_from j (adds t.ts n es)
  unfolding plan
  plan-adds [] n j k = refl
  plan-adds (e ∷ es) n j (k, ks) = elim (kept-type e.type k) [
    | inl (r, a) ↦ rw (r, a) (plan-adds es n j ks)
    | inr (r, a) ↦ rw (r, a) (ap (◌∷◌ (suc j)) (plan-adds es n (suc j) ks))
  ]

  pub removes-adds : (es : List Element) (n : ℕ) → removes es + adds t.ts n es ≡ length es
  removes-adds [] n = omega arith
  removes-adds (e ∷ es) n = ground (arith, removes-adds es n)

  -- In a transaction for which neither the removals nor the additions are switched off, with memory at hand
  -- and no record of it before, the two hooks, with RPMRC_OK between them, leave the records of the other
  -- transactions, and make a request and send it, if it could be composed, for each element that is removed
  -- and then for each one that is added, each time from the last to the first; the numbers of these
  -- requests are those from 1 to the number of both in turn.
  pub transact-plan :
      (others : List Record) (w : S)
      → t.nopreun ≡ false
      → t.nopost ≡ false
      → Foreign t.ts others
      → let es = kept_onto plugin t t.elements [] in
        let removals = plan plugin t tr_removed (length es) 0 es in
        let additions = plan plugin t tr_added (length es) (removes es) es in
        (transact plugin t others [] w ≡ (
          true,
          others,
          send_all plugin t (operation_of plugin t tr_added t.test) additions (
              restart plugin t (
                send_all plugin t
                  (operation_of plugin t tr_removed t.test)
                  removals
                  (record { is_ok = true; memory = []; world = w }))),
        ))
        × (map index_of removals ++ map index_of additions ≡ numbers_from 0 (length es))
  transact-plan others w preun post f =
      let es = kept_onto plugin t t.elements [] in
      let k = kept_onto-IsKept plugin t t.elements [] tt in
      let n = length es in
      let s1 =
        send_all plugin t (operation_of plugin t tr_removed t.test)
          (plan plugin t tr_removed n 0 es) (record { is_ok = true; memory = []; world = w }) in
      (
        ap
              (λ (x : Bool × List Record × Sending S).
                let (rs', s') = tsm_post_cb plugin t true x.1 x.2.memory x.2.world in
                (x.0, rs', s'))
              (tsm_pre_cb-plan plugin t preun post others w f)
            ∙ ap (λ (y : List Record × Sending S). (true, y.0, y.1))
                (tsm_post_cb-plan plugin t preun post es n (removes es) others s1.memory s1.world
                  f),
        rw (plan-removes es n 0, plan-adds es n (removes es) k)
            (numbers_from-append 0 (removes es) (adds t.ts n es) (removes es) n (omega arith)
              (omega (arith, removes-adds es n))),
      )
